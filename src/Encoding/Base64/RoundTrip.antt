-- ===== src/Encoding/Base64/RoundTrip.antt =====
-- Base64 text of any bytes is read back as those bytes (kernel/vds_core/encoding.cpp).
use vds.Common.{
  ℕ, suc, ◌+◌, ◌-◌, ◌*◌, ◌/◌, ◌%◌, ◌^◌, ◌<◌, ◌≡◌, refl, ap, ◌∙◌, arith, List, [], ◌∷◌, ◌++◌, length,
  drop, value, All, false, ◌==◌, ==_iff, Bool-cases, inl, inr,
}
use mathlib.Core.List.{append-nil}
use vds.Encoding.Base64.{
  pad_character, sextet_char, join_bytes, from_bytes, sextet, padding_of, fill, to_bytes,
}
use vds.Encoding.Base64.Groups.{sextet-lookup, pad_count, to_bytes_loop-from_bytes}

-- No character of the alphabet is the pad.
sextet_char_not_pad : (temp shift : ℕ) → (sextet_char temp shift == pad_character) ≡ false
unfolding sextet
sextet_char_not_pad temp shift = elim (Bool-cases (sextet_char temp shift == pad_character)) [
  | inl e ↦ cc (
    ap sextet ((==_iff (sextet_char temp shift) pad_character).0 e),
    sextet-lookup (temp / 2 ^ shift % 2 ^ 6) (omega arith),
  )
  | inr e ↦ e
]

-- Characters in front of two others do not change the padding.
padding_of-cons : (c p q : ℕ) (r : List ℕ) → padding_of (c ∷ p ∷ q ∷ r) ≡ padding_of (p ∷ q ∷ r)
unfolding padding_of
padding_of-cons c p q r =
    let last : length (c ∷ p ∷ q ∷ r) - 1 ≡ suc (length (p ∷ q ∷ r) - 1) = omega arith in
    let before : length (c ∷ p ∷ q ∷ r) - 2 ≡ suc (length (p ∷ q ∷ r) - 2) = omega arith in
    ground (arith, last, before)

padding_of-group :
    (c1 c2 c3 c4 p q : ℕ) (r : List ℕ)
    → padding_of (c1 ∷ c2 ∷ c3 ∷ c4 ∷ p ∷ q ∷ r) ≡ padding_of (p ∷ q ∷ r)
padding_of-group c1 c2 c3 c4 p q r =
    padding_of-cons c1 c2 c3 (c4 ∷ p ∷ q ∷ r)
    ∙ padding_of-cons c2 c3 c4 (p ∷ q ∷ r)
    ∙ padding_of-cons c3 c4 p (q ∷ r)
    ∙ padding_of-cons c4 p q r

padding_of-four :
    (c1 c2 c3 c4 : ℕ) → (c4 == pad_character) ≡ false → padding_of (c1 ∷ c2 ∷ c3 ∷ c4 ∷ []) ≡ 0
unfolding padding_of
padding_of-four c1 c2 c3 c4 e = rw e

padding_of-from_bytes : (bs : List ℕ) → padding_of (from_bytes bs) ≡ pad_count bs
unfolding from_bytes pad_count
padding_of-from_bytes [] = unfold padding_of in refl
padding_of-from_bytes (a ∷ []) = unfold padding_of in refl
padding_of-from_bytes (a ∷ b ∷ []) =
    unfold padding_of in rw (sextet_char_not_pad (a * 2 ^ 16 + b * 2 ^ 8) 6)
padding_of-from_bytes (a ∷ b ∷ c ∷ []) =
    padding_of-four _ _ _ _ (sextet_char_not_pad (join_bytes a b c) 0)
padding_of-from_bytes (a ∷ b ∷ c ∷ d ∷ []) =
    padding_of-group _ _ _ _ _ _ _ ∙ padding_of-from_bytes (d ∷ [])
padding_of-from_bytes (a ∷ b ∷ c ∷ d ∷ e ∷ []) =
    padding_of-group _ _ _ _ _ _ _ ∙ padding_of-from_bytes (d ∷ e ∷ [])
padding_of-from_bytes (a ∷ b ∷ c ∷ d ∷ e ∷ f ∷ r) =
    padding_of-group _ _ _ _ _ _ _ ∙ padding_of-from_bytes (d ∷ e ∷ f ∷ r)

-- The text is whole groups of four, and from its length and its padding the length of the bytes.
length-from_bytes :
    (bs : List ℕ)
    → (length (from_bytes bs) % 4 ≡ 0) × (length (from_bytes bs) / 4 * 3 ≡ length bs + pad_count bs)
unfolding from_bytes pad_count
length-from_bytes [] = omega arith
length-from_bytes (a ∷ []) = omega arith
length-from_bytes (a ∷ b ∷ []) = omega arith
length-from_bytes (a ∷ b ∷ c ∷ rest) = omega (arith, length-from_bytes rest)

drop-all : (xs : List ℕ) → drop (length xs) xs ≡ []
drop-all [] = refl
drop-all (x ∷ xs) = drop-all xs

fill-whole : (out buffer : List ℕ) → length buffer ≡ length out → fill out buffer ≡ out
unfolding fill
fill-whole out buffer e = rw (← e) (ap (◌++◌ out) (drop-all buffer) ∙ append-nil out)

-- The base64 text of any bytes is read back as those bytes, whatever a new allocation holds.
pub to_bytes-from_bytes_fresh :
    (fresh : ℕ → List ℕ) (bs : List ℕ)
    → ((n : ℕ) → length (fresh n) ≡ n)
    → All (λ b. b < 256) bs
    → to_bytes fresh (from_bytes bs) ≡ value bs
unfolding to_bytes
to_bytes-from_bytes_fresh fresh bs sized h =
    let (whole, size) = length-from_bytes bs in
    rw (padding_of-from_bytes bs, whole)
      (to_bytes_loop-from_bytes (fresh (length (from_bytes bs) / 4 * 3 - pad_count bs)) 0 [] bs h
        ∙ ap value (fill-whole bs _ (sized _ ∙ omega (arith, size))))
