-- ===== src/Dht/ObjectId/Exponent.antt =====
-- `distance_exp` of libs_server/vds_dht_network/include/dht_object_id.h: which bucket an id goes to.
use Prim.Native.Nat.{bit_xor}
use native.Mathlib.Nat.{pow-suc, one-le-pow, mul-le-mul_right}
use native.Mathlib.Numerals.{towards_suc}
use vds.Common.Bits.{xor_comm, xor-lt}
use vds.Common.{
  ℕ, zero, suc, ◌+◌, ◌*◌, ◌/◌, ◌^◌, ◌≤◌, ◌<◌, ◌≡◌, refl, ap, ◌∙◌, arith, List, [], ◌∷◌, leb, ◌==◌,
  length, All, Bool-cases, inl, inr, Bool, ◌&&◌, ◌||◌, passes_below, passes_below→passes, ==_iff,
}
use vds.Dht.ObjectId.{distance, xor_prefix, mask_loop, exp_loop, distance_exp}
use vds.Dht.ObjectId.Metric.{IsByte, distance-eq_xor_prefix}

pub mask_loop-add : (fuel b mask r : ℕ) → mask_loop fuel b mask r ≡ r + mask_loop fuel b mask 0
unfolding mask_loop
mask_loop-add zero b mask r = omega arith
mask_loop-add (suc fuel) b mask r =
    ground (arith, mask_loop-add fuel b (mask / 2) (r + 1), mask_loop-add fuel b (mask / 2) 1)

-- The zeros in front of the highest bit of a byte.
unfoldable pub zeros : ℕ → ℕ
zeros b = mask_loop 8 b 0x80 0

zeros_test : ℕ → Bool
zeros_test b = b == 0 || (leb 128 (b * 2 ^ zeros b) && leb (b * 2 ^ zeros b + 2 ^ zeros b) 256)

zeros_bounds :
    (b : ℕ) → 0 < b → b < 256 → (128 ≤ b * 2 ^ zeros b) × (b * 2 ^ zeros b + 2 ^ zeros b ≤ 256)
unfolding zeros_test
zeros_bounds b pos h =
    let test =
      passes_below→passes zeros_test 256 (unfold zeros mask_loop passes_below in refl) b h in
    ground (arith, test)

-- The number that an id is, its first byte the highest.
abbrev pub number : List ℕ → ℕ
number [] = 0
number (b ∷ bs) = b * 256 ^ length bs + number bs

number-lt : (bs : List ℕ) → All IsByte bs → number bs < 256 ^ length bs
number-lt [] h = omega arith
number-lt (b ∷ bs) h =
    omega (arith, pow-suc 256 (length bs), number-lt bs h.1, mul-le-mul_right (256 ^ length bs) h.0)

eight_more : (k : ℕ) → 2 ^ (k + 8) ≡ 256 * 2 ^ k
eight_more k = simp towards_suc (omega arith)

one_more : (k : ℕ) → 2 ^ (k + 1) ≡ 2 * 2 ^ k
one_more k = simp towards_suc (omega arith)

-- `k` zeros stand in front of the highest bit of `d`, a number of `n` bytes.
abbrev pub ZerosInFront : ℕ → ℕ → ℕ → Type 0
ZerosInFront n d k = (256 ^ n ≤ d * 2 ^ (k + 1)) × (d * 2 ^ k < 256 ^ n)

first_zero : (m d k : ℕ) → ZerosInFront m d k → ZerosInFront (suc m) d (k + 8)
first_zero m d k (lo, hi) =
    let P = pow-suc 256 m in
    let inner = ap (λ (t : ℕ). d * t) (eight_more k) in
    let outer = ap (λ (t : ℕ). d * t) (one_more (k + 8)) in
    let before = ap (λ (t : ℕ). d * t) (one_more k) in
    (omega (arith, lo, P, inner, outer, before), omega (arith, hi, P, inner))

first_nonzero :
    (m x d : ℕ) → 0 < x → x < 256 → d < 256 ^ m → ZerosInFront (suc m) (x * 256 ^ m + d) (zeros x)
first_nonzero m x d pos small low =
    let E = 2 ^ zeros x in
    let P = 256 ^ m in
    let (lo, hi) = zeros_bounds x pos small in
    let low_part : d * E ≤ P * E = mul-le-mul_right E (omega arith) in
    let strict : suc d * E ≤ P * E = mul-le-mul_right E low in
    let positive = one-le-pow (zeros x) 2 in
    (
      omega (
        arith,
        pow-suc 256 m,
        ap (λ (t : ℕ). (x * P + d) * t) (one_more (zeros x)),
        mul-le-mul_right P lo,
      ),
      omega (arith, pow-suc 256 m, mul-le-mul_right P hi, strict, positive),
    )

xor_prefix-number :
    (left right : List ℕ)
    → All IsByte left
    → All IsByte right
    → length left ≡ length right
    → All IsByte (xor_prefix right left) × (length (xor_prefix right left) ≡ length left)
unfolding xor_prefix
xor_prefix-number [] [] hl hr e = (tt, refl)
xor_prefix-number [] (y ∷ ys) hl hr e = absurd (omega arith)
xor_prefix-number (x ∷ xs) [] hl hr e = absurd (omega arith)
xor_prefix-number (x ∷ xs) (y ∷ ys) hl hr e =
    let (bytes, long) = xor_prefix-number xs ys hl.1 hr.1 (omega arith) in
    ((xor-lt 8 y x hr.0 hl.0, bytes), omega (arith, long))

abbrev Located : ℕ → List ℕ → List ℕ → Type 0
Located i left right =
    (k : ℕ) × (exp_loop i left right ≡ i * 8 + k)
    × ZerosInFront (length left) (number (xor_prefix right left)) k

exp_loop-Located :
    (i : ℕ) (left right : List ℕ)
    → All IsByte left
    → All IsByte right
    → length left ≡ length right
    → 0 < number (xor_prefix right left)
    → Located i left right
unfolding exp_loop xor_prefix
exp_loop-Located i [] [] hl hr e pos = absurd (omega arith)
exp_loop-Located i [] (y ∷ ys) hl hr e pos = absurd (omega arith)
exp_loop-Located i (x ∷ xs) [] hl hr e pos = absurd (omega arith)
exp_loop-Located i (x ∷ xs) (y ∷ ys) hl hr e pos =
    let (bytes, long) = xor_prefix-number xs ys hl.1 hr.1 (omega arith) in
    let turned = xor_comm 8 y x hr.0 hl.0 in
    let N = number (xor_prefix ys xs) in
    elim (Bool-cases (bit_xor x y == 0)) [
      | inl z ↦
          let none_set : bit_xor y x * 256 ^ length (xor_prefix ys xs) + N ≡ N =
            ap (λ (t : ℕ). t * 256 ^ length (xor_prefix ys xs) + N)
              (turned ∙ (==_iff (bit_xor x y) 0).0 z)
            ∙ omega arith in
          let (k, found, bounds) =
            exp_loop-Located (suc i) xs ys hl.1 hr.1 (omega arith) (rw none_set at pos) in
          (k + 8, rw z (omega (arith, found)), rw none_set (first_zero (length xs) N k bounds))
      | inr z ↦
          let b = bit_xor x y in
          (
            zeros b,
            rw z (unfold zeros in mask_loop-add 8 b 0x80 (i * 2 ^ 3)),
            rw (turned, long)
                (first_nonzero (length xs) b N (ground (arith, z)) (xor-lt 8 x y hl.0 hr.0)
                  (rw (← long) (number-lt (xor_prefix ys xs) bytes))),
          )
    ]

-- For two different ids of one size, `distance_exp` is the place of the highest bit in which they
-- differ: as a number, their distance has so many zeros in front of its highest bit.
pub distance_exp_lem :
    (left right : List ℕ)
    → All IsByte left
    → All IsByte right
    → length left ≡ length right
    → 0 < number (distance left right)
    → ZerosInFront (length left) (number (distance left right)) (distance_exp left right)
unfolding distance_exp
distance_exp_lem left right hl hr e pos =
    let same = distance-eq_xor_prefix left right e in
    let (k, found, bounds) = exp_loop-Located 0 left right hl hr e (rw same at pos) in
    let place : exp_loop 0 left right ≡ k = found ∙ omega arith in rw (same, place) bounds
