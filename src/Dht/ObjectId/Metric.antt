-- ===== src/Dht/ObjectId/Metric.antt =====
-- `distance` of libs_server/vds_dht_network/include/dht_object_id.h is the XOR metric.
use Prim.Native.Nat.{bit_xor}
use vds.Common.Bits.{xor_comm, xor-lt, xor_cancel, xor_self}
use vds.Common.{ℕ, ◌^◌, ◌<◌, ◌≡◌, refl, sym, ◌∙◌, arith, List, [], ◌∷◌, length, All, dec_lt}
use mathlib.Core.Path.{ap₂}
use vds.Dht.ObjectId.{distance, xor_prefix}

abbrev pub IsByte : ℕ → Type 0
IsByte b = b < 2 ^ 8

xor_prefix_comm :
    (xs ys : List ℕ)
    → All IsByte xs
    → All IsByte ys
    → length xs ≡ length ys
    → xor_prefix xs ys ≡ xor_prefix ys xs
unfolding xor_prefix
xor_prefix_comm [] [] hx hy e = refl
xor_prefix_comm [] (y ∷ ys) hx hy e = absurd (omega arith)
xor_prefix_comm (x ∷ xs) [] hx hy e = absurd (omega arith)
xor_prefix_comm (x ∷ xs) (y ∷ ys) hx hy e =
    ap₂ ◌∷◌ (xor_comm 8 x y hx.0 hy.0) (xor_prefix_comm xs ys hx.1 hy.1 (omega arith))

-- The distance does not depend on the order of the ids, also when their sizes differ.
pub distance_comm :
    (left right : List ℕ)
    → All IsByte left
    → All IsByte right
    → distance left right ≡ distance right left
unfolding distance
distance_comm left right hl hr = elim (dec_lt (length left) (length right)) [
  | yes a ↦ ground arith
  | no a ↦ elim (dec_lt (length right) (length left)) [
    | yes b ↦ ground arith
    | no b ↦ ground (arith, xor_prefix_comm right left hr hl (omega arith))
  ]
]

pub distance-eq_xor_prefix :
    (left right : List ℕ) → length left ≡ length right → distance left right ≡ xor_prefix right left
unfolding distance
distance-eq_xor_prefix left right e = ground arith

xor_prefix_cancel :
    (xs ys : List ℕ)
    → All IsByte xs
    → All IsByte ys
    → length xs ≡ length ys
    → (length (xor_prefix xs ys) ≡ length ys) × (xor_prefix (xor_prefix xs ys) xs ≡ ys)
unfolding xor_prefix
xor_prefix_cancel [] [] hx hy e = (refl, refl)
xor_prefix_cancel [] (y ∷ ys) hx hy e = absurd (omega arith)
xor_prefix_cancel (x ∷ xs) [] hx hy e = absurd (omega arith)
xor_prefix_cancel (x ∷ xs) (y ∷ ys) hx hy e =
    let (long, same) = xor_prefix_cancel xs ys hx.1 hy.1 (omega arith) in
    (
      omega (arith, long),
      ap₂ ◌∷◌
          (xor_comm 8 (bit_xor x y) x (xor-lt 8 x y hx.0 hy.0) hx.0 ∙ xor_cancel 8 x y hx.0 hy.0)
          same,
    )

-- Among the ids that have as many bytes as a node's own, every distance from the node belongs to one id: the
-- id is recovered from the distance and the id of the node.
pub distance_cancel :
    (origin target : List ℕ)
    → All IsByte origin
    → All IsByte target
    → length origin ≡ length target
    → distance origin (distance target origin) ≡ target
distance_cancel origin target ho ht e =
    let (long, same) = xor_prefix_cancel origin target ho ht e in
    rw
      (
        distance-eq_xor_prefix target origin (sym e),
        distance-eq_xor_prefix origin (xor_prefix origin target) (e ∙ sym long),
      )
      same

abbrev AllZero : List ℕ → Type 0
AllZero = All (λ b. b ≡ 0)

xor_prefix_self : (xs : List ℕ) → AllZero (xor_prefix xs xs)
unfolding xor_prefix
xor_prefix_self [] = tt
xor_prefix_self (x ∷ xs) = (xor_self x, xor_prefix_self xs)
