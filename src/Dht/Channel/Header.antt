-- ===== src/Dht/Channel/Header.antt =====
-- The bytes of a datagram (libs_server/vds_dht_network/impl/dht_datagram_protocol.cpp), read back.
use Prim.Native.Nat.{bit_or, bit_and}
use vds.Common.Bits.{or-shift}
use vds.Common.{
  ℕ, ◌+◌, ◌-◌, ◌*◌, ◌/◌, ◌%◌, ◌^◌, ◌<◌, ◌≡◌, refl, sym, ap, ◌∙◌, arith, List, [], ◌∷◌, ◌++◌, Bool,
  true, false, ◌&&◌, ◌==◌, ==_iff, length, length-append, take, drop, take-append, drop-append,
  passes_below, passes_below→passes, All,
}
use mathlib.Core.List.{append_assoc}
use vds.Dht.Protocol.{
  Hmac, read32, sign, special_command, single_data, many_data, route_single_data, route_data,
  proxy_single_data, proxy_data,
}
use vds.Dht.Protocol.Receive.{payload, read_hops}
use vds.Dht.Protocol.Send.{Way, direct, routed, proxied, single_code, many_code, concat}

pub read32-sum :
    (a b c d : ℕ)
    → a < 256
    → b < 256
    → c < 256
    → d < 256
    → read32 a b c d ≡ a * 2 ^ 24 + b * 2 ^ 16 + c * 2 ^ 8 + d
unfolding read32
read32-sum a b c d ha hb hc hd =
    ap (λ (t : ℕ). bit_or (bit_or t (c * 2 ^ 8)) d) (or-shift 24 a (b * 2 ^ 16) (omega arith))
    ∙ ap (λ (t : ℕ). bit_or (bit_or t (c * 2 ^ 8)) d) (omega arith)
    ∙ ap (λ (t : ℕ). bit_or t d) (or-shift 16 (a * 2 ^ 8 + b) (c * 2 ^ 8) (omega arith))
    ∙ ap (λ (t : ℕ). bit_or t d) (omega arith)
    ∙ or-shift 8 (a * 2 ^ 16 + b * 2 ^ 8 + c) d (omega arith)
    ∙ omega arith

-- The four bytes of a number are read back.
pub read32-be32 :
    (v : ℕ)
    → v < 2 ^ 32
    → read32 (v / 2 ^ 24 % 2 ^ 8) (v / 2 ^ 16 % 2 ^ 8) (v / 2 ^ 8 % 2 ^ 8) (v % 2 ^ 8) ≡ v
read32-be32 v h =
    read32-sum (v / 2 ^ 24 % 2 ^ 8) (v / 2 ^ 16 % 2 ^ 8) (v / 2 ^ 8 % 2 ^ 8) (v % 2 ^ 8)
      (omega arith) (omega arith) (omega arith) (omega arith)
    ∙ omega arith

and_true : (a b : Bool) → (a && b) ≡ true → (a ≡ true) × (b ≡ true)
and_true true true h = (refl, refl)
and_true true false h = cc
and_true false b h = cc

-- The kind and the type of a message share a byte.
abbrev shared : ℕ → ℕ → Bool
shared kind t =
    (bit_and special_command (bit_or kind t) == kind) && (bit_and (bit_or kind t) 0b00011111 == t)

shared_byte :
    (kind : ℕ)
    → passes_below (shared kind) 32 ≡ true
    → (t : ℕ) → t < 32
    → (bit_and special_command (bit_or kind t) ≡ kind) × (bit_and (bit_or kind t) 0b00011111 ≡ t)
shared_byte kind all t h =
    let both = and_true _ _ (passes_below→passes (shared kind) 32 all t h) in
    (
      (==_iff (bit_and special_command (bit_or kind t)) kind).0 both.0,
      (==_iff (bit_and (bit_or kind t) 0b00011111) t).0 both.1,
    )

pub single_kind :
    (way : Way) (t : ℕ)
    → t < 32
    → (bit_and special_command (bit_or (single_code way) t) ≡ single_code way)
      × (bit_and (bit_or (single_code way) t) 0b00011111 ≡ t)
unfolding passes_below
single_kind direct = shared_byte single_data refl
single_kind routed = shared_byte route_single_data refl
single_kind proxied = shared_byte proxy_single_data refl

pub many_kind :
    (way : Way) (t : ℕ)
    → t < 32
    → (bit_and special_command (bit_or (many_code way) t) ≡ many_code way)
      × (bit_and (bit_or (many_code way) t) 0b00011111 ≡ t)
unfolding passes_below
many_kind direct = shared_byte many_data refl
many_kind routed = shared_byte route_data refl
many_kind proxied = shared_byte proxy_data refl

pub length-sign : (h : Hmac) (bytes : List ℕ) → length (sign h bytes) ≡ length bytes + 32
unfolding sign
length-sign h bytes =
    omega (arith, length-append bytes (h.signature bytes), h.length-signature bytes)

-- The payload of a signed datagram is what stands behind its head.
pub payload-sign :
    (h : Hmac) (pre body : List ℕ) → payload (length pre) (sign h (pre ++ body)) ≡ body
unfolding sign
payload-sign h pre body =
    let sig = h.signature (pre ++ body) in
    let size : length ((pre ++ body) ++ sig) - length pre - 32 ≡ length body = omega (
      arith,
      length-append (pre ++ body) sig,
      length-append pre body,
      h.length-signature (pre ++ body),
    ) in
    rw (size, append_assoc pre body sig, drop-append pre (body ++ sig)) (take-append body sig)

-- Ids of 32 bytes, as they were put together.
abbrev pub IsId : List ℕ → Type 0
IsId id = length id ≡ 32

pub take_at : (n : ℕ) (xs ys : List ℕ) → length xs ≡ n → take n (xs ++ ys) ≡ xs
take_at n xs ys e = ap (λ (k : ℕ). take k (xs ++ ys)) (sym e) ∙ take-append xs ys

pub drop_at : (n : ℕ) (xs ys : List ℕ) → length xs ≡ n → drop n (xs ++ ys) ≡ ys
drop_at n xs ys e = ap (λ (k : ℕ). drop k (xs ++ ys)) (sym e) ∙ drop-append xs ys

pub read_hops-concat :
    (hops : List (List ℕ)) (rest : List ℕ)
    → All IsId hops
    → read_hops (length hops) (concat hops ++ rest) ≡ hops
unfolding read_hops concat
read_hops-concat [] rest h = refl
read_hops-concat (hop ∷ hops) rest h =
    rw
      (
        append_assoc hop (concat hops) rest,
        take_at 32 hop (concat hops ++ rest) h.0,
        drop_at 32 hop (concat hops ++ rest) h.0,
        read_hops-concat hops rest h.1,
      )
      refl

pub length-concat : (hops : List (List ℕ)) → All IsId hops → length (concat hops) ≡ length hops * 32
unfolding concat
length-concat [] h = refl
length-concat (hop ∷ hops) h =
    omega (arith, length-append hop (concat hops), h.0, length-concat hops h.1)
