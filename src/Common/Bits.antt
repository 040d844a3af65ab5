-- ===== src/Common/Bits.antt =====
-- `|` and `^` on machine words as arithmetic: laws of the native bit operations at variables.
-- `fold_bits` states one step of their digit recursion with the fuel dropped.
use Prim.Native.Nat.{ℕ, zero, suc, ◌+◌, ◌*◌, ◌/◌, ◌%◌, ◌^◌, ◌≤◌, ◌<◌, max, differ, digits, bitwise}
use Prim.Native.Nat.{
  bit_or, bit_and, bit_xor, bit_or-bitwise, bit_and-bitwise, bit_xor-bitwise, min,
}
use mathlib.Core.Path.{◌≡◌, refl, ap, ◌∙◌}
use native.Mathlib.Omega.{arith}
use native.Mathlib.Nat.{pow-suc}

module _ (last : ℕ → ℕ) (join : ℕ → ℕ → ℕ) where
  enough_bits :
      (fuel more x y : ℕ)
      → x ≤ fuel
      → x ≤ more
      → digits last join fuel x y ≡ digits last join more x y
  enough_bits zero zero x y p q = refl
  enough_bits zero (suc more) zero y p q = refl
  enough_bits zero (suc more) (suc x) y p q = absurd (omega arith)
  enough_bits (suc fuel) zero zero y p q = refl
  enough_bits (suc fuel) zero (suc x) y p q = absurd (omega arith)
  enough_bits (suc fuel) (suc more) zero y p q = refl
  enough_bits (suc fuel) (suc more) (suc x) y p q =
      ap (λ (t : ℕ). t * 2 + join (suc x % 2) (y % 2))
        (enough_bits fuel more (suc x / 2) (y / 2) (omega arith) (omega arith))

  fold_bits :
      (x y : ℕ)
      → bitwise last join (suc x) y
        ≡ bitwise last join (suc x / 2) (y / 2) * 2 + join (suc x % 2) (y % 2)
  fold_bits x y =
      ap (λ (t : ℕ). t * 2 + join (suc x % 2) (y % 2))
        (enough_bits x (suc x / 2) (suc x / 2) (y / 2) (omega arith) (omega arith))

pub or_step : (x y : ℕ) → bit_or x y ≡ bit_or (x / 2) (y / 2) * 2 + max (x % 2) (y % 2)
or_step zero y = omega (arith, bit_or-bitwise 0 y, bit_or-bitwise 0 (y / 2))
or_step (suc x) y = omega (
  arith,
  bit_or-bitwise (suc x) y,
  bit_or-bitwise (suc x / 2) (y / 2),
  fold_bits (λ t. t) max x y,
)

-- Two binary digits differ when their sum is odd.
differ_digits : (x y : ℕ) → x < 2 → y < 2 → differ x y ≡ (x + y) % 2
differ_digits zero y p q = omega arith
differ_digits (suc zero) zero p q = refl
differ_digits (suc zero) (suc zero) p q = refl
differ_digits (suc zero) (suc (suc y)) p q = absurd (omega arith)
differ_digits (suc (suc x)) y p q = absurd (omega arith)

pub xor_step : (x y : ℕ) → bit_xor x y ≡ bit_xor (x / 2) (y / 2) * 2 + (x % 2 + y % 2) % 2
xor_step zero y = omega (arith, bit_xor-bitwise 0 y, bit_xor-bitwise 0 (y / 2))
xor_step (suc x) y = omega (
  arith,
  bit_xor-bitwise (suc x) y,
  bit_xor-bitwise (suc x / 2) (y / 2),
  fold_bits (λ t. t) differ x y,
  differ_digits (suc x % 2) (y % 2) (omega arith) (omega arith),
)

or-zero_below : (n x : ℕ) → x ≤ n → bit_or x 0 ≡ x
or-zero_below n zero h = refl
or-zero_below zero (suc x) h = absurd (omega arith)
or-zero_below (suc n) (suc x) h =
    omega (arith, or_step (suc x) 0, or-zero_below n (suc x / 2) (omega arith))

-- `(q << k) | r` is a sum where `r` fits into the `k` low bits.
pub or-shift : (k q r : ℕ) → r < 2 ^ k → bit_or (q * 2 ^ k) r ≡ q * 2 ^ k + r
or-shift zero q r h = ground (arith, or-zero_below q q)
or-shift (suc k) q r h = ground (
  arith,
  or_step (q * 2 ^ suc k) r,
  ap (λ (t : ℕ). q * t) (pow-suc 2 k),
  pow-suc 2 k,
  or-shift k q (r / 2) (omega (arith, pow-suc 2 k)),
)

pub xor-self_below : (n x : ℕ) → x ≤ n → bit_xor x x ≡ 0
xor-self_below n zero h = refl
xor-self_below zero (suc x) h = absurd (omega arith)
xor-self_below (suc n) (suc x) h =
    omega (arith, xor_step (suc x) (suc x), xor-self_below n (suc x / 2) (omega arith))

pub xor_self : (x : ℕ) → bit_xor x x ≡ 0
xor_self x = xor-self_below x x (omega arith)

-- Laws over `k` digits: the numbers below 2 ^ k.
pub xor_comm : (k x y : ℕ) → x < 2 ^ k → y < 2 ^ k → bit_xor x y ≡ bit_xor y x
xor_comm zero zero zero p q = refl
xor_comm zero zero (suc y) p q = absurd (omega arith)
xor_comm zero (suc x) y p q = absurd (omega arith)
xor_comm (suc k) x y p q = omega (
  arith,
  xor_step x y,
  xor_step y x,
  xor_comm k (x / 2) (y / 2) (omega (arith, pow-suc 2 k)) (omega (arith, pow-suc 2 k)),
)

pub xor-lt : (k x y : ℕ) → x < 2 ^ k → y < 2 ^ k → bit_xor x y < 2 ^ k
xor-lt zero zero zero p q = omega arith
xor-lt zero zero (suc y) p q = absurd (omega arith)
xor-lt zero (suc x) y p q = absurd (omega arith)
xor-lt (suc k) x y p q = omega (
  arith,
  xor_step x y,
  pow-suc 2 k,
  xor-lt k (x / 2) (y / 2) (omega (arith, pow-suc 2 k)) (omega (arith, pow-suc 2 k)),
)

pub xor_cancel : (k x y : ℕ) → x < 2 ^ k → y < 2 ^ k → bit_xor x (bit_xor x y) ≡ y
xor_cancel zero zero zero p q = refl
xor_cancel zero zero (suc y) p q = absurd (omega arith)
xor_cancel zero (suc x) y p q = absurd (omega arith)
xor_cancel (suc k) x y p q =
    let rest =
      xor_cancel k (x / 2) (y / 2) (omega (arith, pow-suc 2 k)) (omega (arith, pow-suc 2 k)) in
    xor_step x (bit_xor x y) ∙ omega (arith, low, ap (bit_xor (x / 2)) high, rest)
  where
    low : bit_xor x y % 2 ≡ (x % 2 + y % 2) % 2
    low = omega (arith, xor_step x y)

    high : bit_xor x y / 2 ≡ bit_xor (x / 2) (y / 2)
    high = omega (arith, xor_step x y)

pub xor_assoc :
    (k x y z : ℕ)
    → x < 2 ^ k
    → y < 2 ^ k
    → z < 2 ^ k
    → bit_xor (bit_xor x y) z ≡ bit_xor x (bit_xor y z)
xor_assoc zero zero zero zero p q r = refl
xor_assoc zero zero zero (suc z) p q r = absurd (omega arith)
xor_assoc zero zero (suc y) z p q r = absurd (omega arith)
xor_assoc zero (suc x) y z p q r = absurd (omega arith)
xor_assoc (suc k) x y z p q r =
    let halves = pow-suc 2 k in
    let rest =
      xor_assoc k (x / 2) (y / 2) (z / 2) (omega (arith, halves)) (omega (arith, halves))
        (omega (arith, halves)) in
    let left : bit_xor x y / 2 ≡ bit_xor (x / 2) (y / 2) = omega (arith, xor_step x y) in
    let right : bit_xor y z / 2 ≡ bit_xor (y / 2) (z / 2) = omega (arith, xor_step y z) in
    omega (
      arith,
      xor_step (bit_xor x y) z,
      xor_step x (bit_xor y z),
      xor_step x y,
      xor_step y z,
      ap (λ (t : ℕ). bit_xor t (z / 2)) left,
      ap (bit_xor (x / 2)) right,
      rest,
    )

and_step : (x y : ℕ) → bit_and x y ≡ bit_and (x / 2) (y / 2) * 2 + min (x % 2) (y % 2)
and_step zero y = omega (arith, bit_and-bitwise 0 y, bit_and-bitwise 0 (y / 2))
and_step (suc x) y = omega (
  arith,
  bit_and-bitwise (suc x) y,
  bit_and-bitwise (suc x / 2) (y / 2),
  fold_bits (λ t. 0) min x y,
)

and-zero_below : (n x : ℕ) → x ≤ n → bit_and x 0 ≡ 0
and-zero_below n zero h = omega (arith, bit_and-bitwise 0 0)
and-zero_below zero (suc x) h = absurd (omega arith)
and-zero_below (suc n) (suc x) h =
    omega (arith, and_step (suc x) 0, and-zero_below n (suc x / 2) (omega arith))

-- The lowest bit is the remainder.
pub and-one : (x : ℕ) → bit_and x 1 ≡ x % 2
and-one x = omega (arith, and_step x 1, and-zero_below (x / 2) (x / 2) (omega arith))
