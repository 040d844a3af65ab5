-- ===== src/Dht/Channel/Parts.antt =====
-- What the receiver reads between the numbers of a datagram and its message
-- (libs_server/vds_dht_network/impl/dht_datagram_protocol.cpp).
use vds.Common.{
  ℕ, zero, suc, ◌%◌, ◌^◌, ◌<◌, ◌≡◌, refl, sym, ◌∙◌, subst, arith, List, [], ◌∷◌, ◌++◌, length,
  length-append, take, drop, get_or, All,
}
use mathlib.Core.List.{append_assoc}
use vds.Dht.Protocol.Receive.{read_hops}
use vds.Dht.Protocol.Send.{Way, direct, routed, proxied, way_bytes, way_size, concat}
use vds.Dht.Channel.Header.{IsId, take_at, read_hops-concat, length-concat}

pub get_or_at :
    (n : ℕ) (xs : List ℕ) (y : ℕ) (ys : List ℕ) → length xs ≡ n → get_or (xs ++ (y ∷ ys)) n 0 ≡ y
get_or_at zero [] y ys e = refl
get_or_at zero (x ∷ xs) y ys e = absurd (omega (arith, e))
get_or_at (suc n) [] y ys e = absurd (omega (arith, e))
get_or_at (suc n) (x ∷ xs) y ys e = get_or_at n xs y ys (omega (arith, e))

pub drop_behind :
    (n : ℕ) (xs : List ℕ) (y : ℕ) (ys : List ℕ) → length xs ≡ n → drop (suc n) (xs ++ (y ∷ ys)) ≡ ys
drop_behind zero [] y ys e = refl
drop_behind zero (x ∷ xs) y ys e = absurd (omega (arith, e))
drop_behind (suc n) [] y ys e = absurd (omega (arith, e))
drop_behind (suc n) (x ∷ xs) y ys e = drop_behind n xs y ys (omega (arith, e))

-- What stands behind the numbers of a proxied datagram: the target, the number of hops, the hops.
pub record Proxied (target : List ℕ) (hops : List (List ℕ)) (bytes : List ℕ) : Type 0 where
  pub target_read : take 32 bytes ≡ target
  pub count_read : get_or bytes 32 0 ≡ length hops
  pub hops_read : read_hops (length hops) (drop 33 bytes) ≡ hops

pub proxied_read :
    (target : List ℕ) (hops : List (List ℕ)) (body sig : List ℕ)
    → IsId target
    → All IsId hops
    → length hops < 256
    → Proxied target hops ((way_bytes proxied target hops ++ body) ++ sig)
unfolding way_bytes
proxied_read target hops body sig it ih few =
    let tail = concat hops ++ (body ++ sig) in
    let same : ((target ++ (length hops % 2 ^ 8 ∷ concat hops)) ++ body) ++ sig
        ≡ target ++ (length hops % 2 ^ 8 ∷ tail) =
      append_assoc (target ++ (length hops % 2 ^ 8 ∷ concat hops)) body sig
      ∙ append_assoc target (length hops % 2 ^ 8 ∷ concat hops) (body ++ sig) in
    subst (Proxied target hops) (sym same) (record {
      target_read = take_at 32 target (length hops % 2 ^ 8 ∷ tail) it;
      count_read = get_or_at 32 target (length hops % 2 ^ 8) tail it ∙ omega arith;
      hops_read =
          rw (drop_behind 32 target (length hops % 2 ^ 8) tail it)
            (read_hops-concat hops (body ++ sig) ih);
    })

pub length-way_bytes :
    (way : Way) (target : List ℕ) (hops : List (List ℕ))
    → IsId target
    → All IsId hops
    → length (way_bytes way target hops) ≡ way_size way hops
unfolding way_bytes way_size
length-way_bytes direct target hops it ih = refl
length-way_bytes routed target hops it ih = it
length-way_bytes proxied target hops it ih =
    omega
      (arith, it, length-append target (length hops % 2 ^ 8 ∷ concat hops), length-concat hops ih)

-- The target and the hops that the receiver takes from a datagram of each way.
abbrev pub ReadAs : Way → List ℕ → List ℕ → List (List ℕ) → Type 0
ReadAs direct this target hops = (target ≡ this) × (hops ≡ [])
ReadAs routed this target hops = hops ≡ []
ReadAs proxied this target hops = 0 < length hops
