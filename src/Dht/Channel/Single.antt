-- ===== src/Dht/Channel/Single.antt =====
-- `step_at` of the receiver (libs_server/vds_dht_network/impl/dht_datagram_protocol.cpp) on a datagram with a whole
-- message.
use Prim.Native.Nat.{bit_or, bit_and}
use vds.Common.{
  ℕ, ◌+◌, ◌*◌, ◌<◌, ◌≡◌, refl, sym, ap, ◌∙◌, arith, List, ◌∷◌, ◌++◌, false, ltb, length,
  length-append, take, get_or, All,
}
use mathlib.Core.List.{append_assoc}
use vds.Dht.Protocol.{
  route_single_data, proxy_single_data, Hmac, Protocol, be32, sign, special_command,
}
use vds.Dht.Protocol.Receive.{delivers, step_at, single_at, many_at, payload, next_index}
use vds.Dht.Protocol.Send.{
  Way, direct, routed, proxied, single_code, many_code, way_bytes, way_size,
}
use vds.Dht.Channel.Header.{IsId, single_kind, length-sign, payload-sign, take_at}
use vds.Dht.Channel.Parts.{ReadAs, proxied_read, length-way_bytes}

pub step_at_single :
    (p : Protocol) (d : List ℕ) (way : Way)
    → bit_and special_command (get_or d 0 0) ≡ single_code way
    → step_at p d ≡ single_at p (get_or d 0 0) d
unfolding step_at
step_at_single p d direct e = rw e refl
step_at_single p d routed e = rw e refl
step_at_single p d proxied e = rw e refl

pub step_at_many :
    (p : Protocol) (d : List ℕ) (way : Way)
    → bit_and special_command (get_or d 0 0) ≡ many_code way
    → step_at p d ≡ many_at p (get_or d 0 0) d
unfolding step_at
step_at_many p d direct e = rw e refl
step_at_many p d routed e = rw e refl
step_at_many p d proxied e = rw e refl

-- A datagram with a whole message.
abbrev pub single : Hmac → ℕ → ℕ → Way → List ℕ → List (List ℕ) → List ℕ → List ℕ
single h index t way target hops body =
    sign h (bit_or (single_code way) t ∷ (be32 index ++ (way_bytes way target hops ++ body)))

payload-single :
    (h : Hmac) (index t : ℕ) (way : Way) (target : List ℕ) (hops : List (List ℕ)) (body : List ℕ)
    (n : ℕ)
    → length (way_bytes way target hops) + 5 ≡ n
    → payload n (single h index t way target hops body) ≡ body
payload-single h index t way target hops body n e =
    let pre = bit_or (single_code way) t ∷ (be32 index ++ way_bytes way target hops) in
    ap (λ (k : ℕ). payload k (sign h (pre ++ body))) (sym e ∙ omega arith) ∙ payload-sign h pre body

pub length-single :
    (h : Hmac) (index t : ℕ) (way : Way) (target : List ℕ) (hops : List (List ℕ)) (body : List ℕ)
    → length (single h index t way target hops body)
      ≡ 37 + length (way_bytes way target hops) + length body
length-single h index t way target hops body = omega (
  arith,
  length-sign h (bit_or (single_code way) t ∷ (be32 index ++ (way_bytes way target hops ++ body))),
  length-append (way_bytes way target hops) body,
)

pub single_at-single :
    (p : Protocol) (h : Hmac) (index t : ℕ) (way : Way) (target : List ℕ) (hops : List (List ℕ))
    (body : List ℕ)
    → t < 32
    → IsId target
    → All IsId hops
    → length hops < 256
    → ReadAs way p.this_node_id target hops
    → step_at p (single h index t way target hops body)
      ≡ delivers
          (record {
            message_type = t;
            target_node = target;
            hops = p.partner_node_id ∷ hops;
            body = body;
          })
          (next_index p.expected_index 1)
unfolding single_at sign way_bytes way_size
single_at-single p h index t direct target hops body ht it ih few as_read =
    let d = single h index t direct target hops body in
    let kind = single_kind direct t ht in
    let long : ltb (length d) 37 ≡ false =
      ground (arith, length-single h index t direct target hops body) in
    step_at_single p d direct kind.0
    ∙ rw (kind.0) (
        rw
          (
            long,
            kind.1,
            payload-single h index t direct target hops body 5 refl,
            as_read.0,
            as_read.1,
          )
          refl)
single_at-single p h index t routed target hops body ht it ih few as_read =
    let d = single h index t routed target hops body in
    let sig = h.signature (bit_or route_single_data t ∷ (be32 index ++ (target ++ body))) in
    let kind = single_kind routed t ht in
    let long : ltb (length d) 69 ≡ false =
      ground (arith, length-single h index t routed target hops body, it) in
    let to : take 32 ((target ++ body) ++ sig) ≡ target =
      ap (λ (ys : List ℕ). take 32 ys) (append_assoc target body sig)
      ∙ take_at 32 target (body ++ sig) it in
    step_at_single p d routed kind.0
    ∙ rw (kind.0) (
        rw
          (
            long,
            kind.1,
            payload-single h index t routed target hops body 37 (omega (arith, it)),
            to,
            as_read,
          )
          refl)
single_at-single p h index t proxied target hops body ht it ih few as_read =
    let d = single h index t proxied target hops body in
    let kind = single_kind proxied t ht in
    let read =
      proxied_read target hops body
        (h.signature
          (bit_or proxy_single_data t ∷ (be32 index ++ (way_bytes proxied target hops ++ body))))
        it ih few in
    let n = length-way_bytes proxied target hops it ih in
    let long : ltb (length d) (70 + length hops * 32) ≡ false =
      ground (arith, length-single h index t proxied target hops body, n) in
    let whole : payload (38 + length hops * 32) d ≡ body =
      payload-single h index t proxied target hops body (38 + length hops * 32)
        (omega (arith, n)) in
    step_at_single p d proxied kind.0
    ∙ rw (kind.0)
        (rw (read.count_read) (rw (long, kind.1, whole, read.target_read, read.hops_read) refl))
