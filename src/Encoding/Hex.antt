-- ===== src/Encoding/Hex.antt =====
-- `hex::from_bytes` and `hex::to_bytes` of kernel/vds_core/encoding.cpp.
mod Examples
use Prim.Native.Nat.{bit_or}
use vds.Common.Bits.{or-shift}
use vds.Common.{
  ℕ, ◌+◌, ◌*◌, ◌/◌, ◌%◌, ◌^◌, ◌<◌, ◌≡◌, ◌≢◌, refl, sym, ap, ◌∙◌, arith, Bool, true, false, none,
  some, List, [], ◌∷◌, ◌++◌, Expected, value, value-injective, unexpected, invalid_hex_string, All,
  length, length-map, get_or, map, Option-cases, inl, inr, passes_below, passes_below→passes,
  is_some_of, is_some_of→eq,
}
use mathlib.Core.List.{append-nil, append_assoc}
use vds.Encoding.{hex_digit}

abbrev hex_chars : List ℕ
hex_chars =
    b'0' ∷ b'1' ∷ b'2' ∷ b'3' ∷ b'4' ∷ b'5' ∷ b'6' ∷ b'7' ∷ b'8' ∷ b'9' ∷ b'a' ∷ b'b' ∷ b'c' ∷ b'd'
    ∷ b'e' ∷ b'f' ∷ []

-- The loop fills two characters for each byte.
pub from_bytes : List ℕ → List ℕ
from_bytes [] = []
from_bytes (b ∷ bs) =
    get_or hex_chars (b / 2 ^ 4 % 2 ^ 4) 0 ∷ get_or hex_chars (b % 2 ^ 4) 0 ∷ from_bytes bs

-- The loop of `to_bytes` over its `is_first`, `value` and `result`.
to_bytes_loop : Bool → ℕ → List ℕ → List ℕ → Expected (List ℕ)
to_bytes_loop true v out [] = value out
to_bytes_loop false v out [] = unexpected invalid_hex_string
to_bytes_loop first v out (ch ∷ chs) = elim (hex_digit ch) [
  | none ↦ unexpected invalid_hex_string
  | some d ↦ elim first [
    | true ↦ to_bytes_loop false d out chs
    | false ↦ to_bytes_loop true v (out ++ (bit_or (v * 2 ^ 4) d % 2 ^ 8 ∷ [])) chs
  ]
]

pub to_bytes : List ℕ → Expected (List ℕ)
to_bytes s = to_bytes_loop true 0 [] s

abbrev IsByte : ℕ → Type 0
IsByte b = b < 256

-- The table has a hexadecimal digit at each of its places, the one that the place stands for.
pub hex_digit-hex_chars : (d : ℕ) → d < 16 → hex_digit (get_or hex_chars d 0) ≡ some d
unfolding hex_digit passes_below
hex_digit-hex_chars d h =
    is_some_of→eq (hex_digit (get_or hex_chars d 0)) d
      (passes_below→passes (λ d. is_some_of (hex_digit (get_or hex_chars d 0)) d) 16 refl d h)

to_bytes_loop-from_bytes :
    (v : ℕ) (out bs : List ℕ)
    → All IsByte bs
    → to_bytes_loop true v out (from_bytes bs) ≡ value (out ++ bs)
unfolding to_bytes_loop from_bytes
to_bytes_loop-from_bytes v out [] h = ap value (sym (append-nil out))
to_bytes_loop-from_bytes v out (b ∷ bs) h =
    let hi = b / 2 ^ 4 % 2 ^ 4 in
    let lo = b % 2 ^ 4 in
    let joined : bit_or (hi * 2 ^ 4) lo % 2 ^ 8 ≡ b =
      omega (arith, h.0, or-shift 4 hi lo (omega arith)) in
    rw (hex_digit-hex_chars hi (omega arith), to_bytes_loop)
      (rw (hex_digit-hex_chars lo (omega arith), to_bytes_loop)
        (rw joined (
          to_bytes_loop-from_bytes (b / 16 % 16) (out ++ (b ∷ [])) bs h.1
          ∙ ap value (append_assoc out (b ∷ []) bs))))

-- The hexadecimal text of any bytes is read back as those bytes.
pub to_bytes-from_bytes : (bs : List ℕ) → All IsByte bs → to_bytes (from_bytes bs) ≡ value bs
unfolding to_bytes
to_bytes-from_bytes bs h = to_bytes_loop-from_bytes 0 [] bs h

hex_digit-lt : (ch d : ℕ) → hex_digit ch ≡ some d → d < 16
unfolding hex_digit
hex_digit-lt ch d h = ground arith

digits_of_pair :
    (x y : ℕ) (bs : List ℕ)
    → x < 16
    → y < 16
    → map hex_digit (from_bytes ((bit_or (x * 2 ^ 4) y % 2 ^ 8) ∷ bs))
      ≡ some x ∷ some y ∷ map hex_digit (from_bytes bs)
unfolding from_bytes
digits_of_pair x y bs hx hy =
    let byte : bit_or (x * 2 ^ 4) y % 2 ^ 8 ≡ x * 16 + y = omega (arith, or-shift 4 x y hy) in
    let hi : (x * 16 + y) / 2 ^ 4 % 2 ^ 4 ≡ x = omega arith in
    let lo : (x * 16 + y) % 2 ^ 4 ≡ y = omega arith in
    rw byte (cc (hi, lo, hex_digit-hex_chars x hx, hex_digit-hex_chars y hy))

to_bytes_loop_refuses :
    (first : Bool) (v : ℕ) (out : List ℕ) (ch : ℕ) (s : List ℕ)
    → hex_digit ch ≡ none
    → to_bytes_loop first v out (ch ∷ s) ≡ unexpected invalid_hex_string
unfolding to_bytes_loop
to_bytes_loop_refuses true v out ch s e = rw (e, to_bytes_loop)
to_bytes_loop_refuses false v out ch s e = rw (e, to_bytes_loop)

to_bytes_loop_first :
    (v : ℕ) (out : List ℕ) (ch d : ℕ) (s : List ℕ)
    → hex_digit ch ≡ some d
    → to_bytes_loop true v out (ch ∷ s) ≡ to_bytes_loop false d out s
unfolding to_bytes_loop
to_bytes_loop_first v out ch d s e = rw (e, to_bytes_loop)

to_bytes_loop_second :
    (v : ℕ) (out : List ℕ) (ch d : ℕ) (s : List ℕ)
    → hex_digit ch ≡ some d
    → to_bytes_loop false v out (ch ∷ s)
      ≡ to_bytes_loop true v (out ++ (bit_or (v * 2 ^ 4) d % 2 ^ 8 ∷ [])) s
unfolding to_bytes_loop
to_bytes_loop_second v out ch d s e = rw (e, to_bytes_loop)

abbrev Reads : List ℕ → List ℕ → List ℕ → Type 0
Reads out s d = (e : List ℕ) × (d ≡ out ++ e) × (map hex_digit (from_bytes e) ≡ map hex_digit s)

to_bytes_loop_end :
    (v : ℕ) (out d : List ℕ)
    → (to_bytes_loop true v out [] ≡ value d → out ≡ d) × (to_bytes_loop false v out [] ≢ value d)
unfolding to_bytes_loop
to_bytes_loop_end v out d = (λ h. value-injective h, λ h. cc)

-- A pair of digits puts its byte in front of what the rest of the text reads as.
Reads-pair :
    (x y : ℕ) (out s d : List ℕ) (ch c : ℕ)
    → hex_digit ch ≡ some x
    → hex_digit c ≡ some y
    → Reads (out ++ (bit_or (x * 2 ^ 4) y % 2 ^ 8 ∷ [])) s d
    → Reads out (ch ∷ c ∷ s) d
Reads-pair x y out s d ch c ex ey (e, split, same) = (
  bit_or (x * 2 ^ 4) y % 2 ^ 8 ∷ e,
  split ∙ append_assoc out (bit_or (x * 2 ^ 4) y % 2 ^ 8 ∷ []) e,
  digits_of_pair x y e (hex_digit-lt ch x ex) (hex_digit-lt c y ey) ∙ rw (ex, ey, same),
)

to_bytes_loop_value :
    (v : ℕ) (out s d : List ℕ) → to_bytes_loop true v out s ≡ value d → Reads out s d
to_bytes_loop_value v out [] d h =
    ([], sym ((to_bytes_loop_end v out d).0 h) ∙ sym (append-nil out), unfold from_bytes in refl)
to_bytes_loop_value v out (ch ∷ []) d h = elim (Option-cases (hex_digit ch)) [
  | inl e ↦ cc (to_bytes_loop_refuses true v out ch [] e)
  | inr (x, e) ↦
      absurd ((to_bytes_loop_end x out d).1 (sym (to_bytes_loop_first v out ch x [] e) ∙ h))
]
to_bytes_loop_value v out (ch ∷ c ∷ s) d h = elim (Option-cases (hex_digit ch)) [
  | inl e ↦ cc (to_bytes_loop_refuses true v out ch (c ∷ s) e)
  | inr (x, ex) ↦ elim (Option-cases (hex_digit c)) [
    | inl e ↦
        cc (to_bytes_loop_first v out ch x (c ∷ s) ex, to_bytes_loop_refuses false x out c s e)
    | inr (y, ey) ↦ Reads-pair x y out s d ch c ex ey (
        to_bytes_loop_value x (out ++ (bit_or (x * 2 ^ 4) y % 2 ^ 8 ∷ [])) s d (
          sym (to_bytes_loop_first v out ch x (c ∷ s) ex ∙ to_bytes_loop_second x out c y s ey)
          ∙ h))
  ]
]

-- Two characters for each byte.
length-from_bytes : (bs : List ℕ) → length (from_bytes bs) ≡ 2 * length bs
unfolding from_bytes
length-from_bytes [] = refl
length-from_bytes (b ∷ bs) = omega (arith, length-from_bytes bs)

-- What `to_bytes` accepts is the text that `from_bytes` writes for its result, up to the case of the
-- letters: the same digits at the same places, and every place a digit. Odd lengths are refused.
pub to_bytes_value :
    (s d : List ℕ)
    → to_bytes s ≡ value d
    → (map hex_digit s ≡ map hex_digit (from_bytes d)) × (length s ≡ 2 * length d)
unfolding to_bytes
to_bytes_value s d h =
    let (e, split, same) = to_bytes_loop_value 0 [] s d h in
    let digits : map hex_digit s ≡ map hex_digit (from_bytes d) =
      sym same ∙ ap (λ t. map hex_digit (from_bytes t)) (sym split) in
    (
      digits,
      omega (
        arith,
        length-from_bytes d,
        length-map hex_digit s,
        length-map hex_digit (from_bytes d),
        ap length digits,
      ),
    )
