-- ===== src/Encoding/Utf8/Chars.antt =====
-- One character of `utf8` (kernel/vds_core/encoding.cpp): what `add` writes, as `next_char` reads it.
use vds.Common.Bits.{or-shift}
use vds.Common.{
  ℕ, ◌+◌, ◌*◌, ◌/◌, ◌%◌, ◌^◌, ◌<◌, ◌≡◌, ◌↔◌, refl, sym, arith, Bool, true, false, ◌&&◌, List, [],
  ◌∷◌, ◌++◌, ltb, leb, if◌then◌else◌, value, passes_below, passes_below→passes, dec_lt,
}
use vds.Encoding.Utf8.{
  is_single, is_lead_2, is_lead_3, is_lead_4, is_continuation, next_2, next_3, next_4, next_char,
  add, lead_byte, continuation_byte,
}

-- The top bits of a byte, as ranges.
abbrev same : Bool → Bool → Bool
same true b = b
same false true = false
same false false = true

same→eq : (a b : Bool) → same a b ≡ true → a ≡ b
same→eq true b e = sym e
same→eq false true e = e
same→eq false false e = refl

abbrev lead_range : ℕ → ℕ → ℕ → Bool
lead_range lo hi b = leb lo b && ltb b hi

single_range : (b : ℕ) → b < 256 → is_single b ≡ ltb b 128
unfolding is_single passes_below
single_range b h =
    same→eq (is_single b) (ltb b 128)
      (passes_below→passes (λ b. same (is_single b) (ltb b 128)) 256 refl b h)

lead_2_range : (b : ℕ) → b < 256 → is_lead_2 b ≡ lead_range 192 224 b
unfolding is_lead_2 passes_below
lead_2_range b h =
    same→eq (is_lead_2 b) (lead_range 192 224 b)
      (passes_below→passes (λ b. same (is_lead_2 b) (lead_range 192 224 b)) 256 refl b h)

lead_3_range : (b : ℕ) → b < 256 → is_lead_3 b ≡ lead_range 224 240 b
unfolding is_lead_3 passes_below
lead_3_range b h =
    same→eq (is_lead_3 b) (lead_range 224 240 b)
      (passes_below→passes (λ b. same (is_lead_3 b) (lead_range 224 240 b)) 256 refl b h)

lead_4_range : (b : ℕ) → b < 256 → is_lead_4 b ≡ lead_range 240 248 b
unfolding is_lead_4 passes_below
lead_4_range b h =
    same→eq (is_lead_4 b) (lead_range 240 248 b)
      (passes_below→passes (λ b. same (is_lead_4 b) (lead_range 240 248 b)) 256 refl b h)

continuation_range : (b : ℕ) → b < 256 → is_continuation b ≡ lead_range 128 192 b
unfolding is_continuation passes_below
continuation_range b h =
    same→eq (is_continuation b) (lead_range 128 192 b)
      (passes_below→passes (λ b. same (is_continuation b) (lead_range 128 192 b)) 256 refl b h)

continuation-eq : (ch shift : ℕ) → continuation_byte ch shift ≡ 128 + ch / 2 ^ shift % 64
continuation-eq ch shift = omega (arith, or-shift 6 2 (ch / 2 ^ shift % 2 ^ 6) (omega arith))

lead-eq :
    (ch shift : ℕ) → ch / 2 ^ shift < 32 → lead_byte 0b11000000 ch shift ≡ 192 + ch / 2 ^ shift
lead-eq ch shift h = omega (arith, or-shift 6 3 (ch / 2 ^ shift) (omega arith))

-- A two byte sequence with any lead from 0xC0 to 0xDF.
next_char-two :
    (x y : ℕ) (s : List ℕ)
    → x < 32
    → y < 64
    → next_char ((192 + x) ∷ (128 + y) ∷ s) ≡ value (x * 64 + y, s)
unfolding next_char next_2
next_char-two x y s hx hy = ground (
  arith,
  single_range (192 + x) (omega arith),
  lead_2_range (192 + x) (omega arith),
  continuation_range (128 + y) (omega arith),
  or-shift 6 x y (omega arith),
)

next_char-one : (x : ℕ) (s : List ℕ) → x < 128 → next_char (x ∷ s) ≡ value (x, s)
unfolding next_char
next_char-one x s h = ground (arith, single_range x (omega arith))

next_char-three :
    (x y z : ℕ) (s : List ℕ)
    → x < 16
    → y < 64
    → z < 64
    → next_char ((224 + x) ∷ (128 + y) ∷ (128 + z) ∷ s) ≡ value (x * 2 ^ 12 + y * 2 ^ 6 + z, s)
unfolding next_char next_3
next_char-three x y z s hx hy hz = ground (
  arith,
  single_range (224 + x) (omega arith),
  lead_2_range (224 + x) (omega arith),
  lead_3_range (224 + x) (omega arith),
  continuation_range (128 + y) (omega arith),
  continuation_range (128 + z) (omega arith),
  or-shift 12 x (y * 2 ^ 6) (omega arith),
  or-shift 6 (x * 2 ^ 6 + y) z (omega arith),
)

-- The fifth bit of the lead byte stays in the number: 2 ^ 22 is added.
next_char-four :
    (w x y z : ℕ) (s : List ℕ)
    → w < 8
    → x < 64
    → y < 64
    → z < 64
    → next_char ((240 + w) ∷ (128 + x) ∷ (128 + y) ∷ (128 + z) ∷ s)
      ≡ value (2 ^ 22 + w * 2 ^ 18 + x * 2 ^ 12 + y * 2 ^ 6 + z, s)
unfolding next_char next_4
next_char-four w x y z s hw hx hy hz = ground (
  arith,
  single_range (240 + w) (omega arith),
  lead_2_range (240 + w) (omega arith),
  lead_3_range (240 + w) (omega arith),
  lead_4_range (240 + w) (omega arith),
  continuation_range (128 + x) (omega arith),
  continuation_range (128 + y) (omega arith),
  continuation_range (128 + z) (omega arith),
  or-shift 18 (16 + w) (x * 2 ^ 12) (omega arith),
  or-shift 12 ((16 + w) * 2 ^ 6 + x) (y * 2 ^ 6) (omega arith),
  or-shift 6 (((16 + w) * 2 ^ 6 + x) * 2 ^ 6 + y) z (omega arith),
)

-- UTF-8 as RFC 3629 defines it.
abbrev pub standard : ℕ → List ℕ
standard ch =
    if ltb ch 0x80
    then ch ∷ []
    else (if ltb ch 0x800
        then (192 + ch / 2 ^ 6) ∷ (128 + ch % 64) ∷ []
        else (if ltb ch 0x10000
            then (224 + ch / 2 ^ 12) ∷ (128 + ch / 2 ^ 6 % 64) ∷ (128 + ch % 64) ∷ []
            else (240 + ch / 2 ^ 18)
              ∷ (128 + ch / 2 ^ 12 % 64)
              ∷ (128 + ch / 2 ^ 6 % 64)
              ∷ (128 + ch % 64)
              ∷ []))

-- `next_char` reads every character of standard UTF-8 and leaves what follows it. A character from
-- 0x10000 on comes out too large by 2 ^ 22.
pub next_char-standard :
    (ch : ℕ) (rest : List ℕ)
    → ch < 0x110000
    → next_char (standard ch ++ rest) ≡ value (if ltb ch 0x10000 then ch else 2 ^ 22 + ch, rest)
next_char-standard ch rest h = elim (dec_lt ch 0x80) [
  | yes a ↦ ground (arith, next_char-one ch rest a)
  | no a ↦ elim (dec_lt ch 0x800) [
    | yes b ↦ ground (arith, next_char-two (ch / 2 ^ 6) (ch % 64) rest (omega arith) (omega arith))
    | no b ↦ elim (dec_lt ch 0x10000) [
      | yes c ↦ ground (
        arith,
        next_char-three (ch / 2 ^ 12) (ch / 2 ^ 6 % 64) (ch % 64) rest (omega arith) (omega arith)
            (omega arith),
      )
      | no c ↦ ground (
        arith,
        next_char-four (ch / 2 ^ 18) (ch / 2 ^ 12 % 64) (ch / 2 ^ 6 % 64) (ch % 64) rest
            (omega arith) (omega arith) (omega arith) (omega arith),
      )
    ]
  ]
]

-- What `next_char` makes of a lead byte from `add` and one byte behind it.
next_char-added :
    (ch hi lo : ℕ) (rest : List ℕ)
    → ch / 2 ^ hi < 32
    → next_char (lead_byte 0b11000000 ch hi ∷ continuation_byte ch lo ∷ rest)
      ≡ value (ch / 2 ^ hi * 64 + ch / 2 ^ lo % 64, rest)
next_char-added ch hi lo rest h =
    rw (lead-eq ch hi h, continuation-eq ch lo)
      (next_char-two (ch / 2 ^ hi) (ch / 2 ^ lo % 64) rest h (omega arith))

abbrev added : ℕ → List ℕ
added ch =
    if ltb ch 0x80
    then ch ∷ []
    else (if ltb ch 0x800
        then lead_byte 0b11000000 ch 6 ∷ continuation_byte ch 0 ∷ []
        else (if ltb ch 0x10000
            then lead_byte 0b11000000 ch 12 ∷ continuation_byte ch 6 ∷ continuation_byte ch 0 ∷ []
            else lead_byte 0b11000000 ch 18
              ∷ continuation_byte ch 12
              ∷ continuation_byte ch 6
              ∷ continuation_byte ch 0
              ∷ []))

added_iff :
    (ch : ℕ) (rest : List ℕ)
    → ch < 0x110000
    → (next_char (added ch ++ rest) ≡ value (ch, rest)) ↔ (ch < 0x800)
added_iff ch rest h = elim (dec_lt ch 0x80) [
  | yes a ↦ (λ e. omega arith, λ b. ground (arith, next_char-one ch rest a))
  | no a ↦ elim (dec_lt ch 0x800) [
    | yes b ↦ (λ e. b, λ c. ground (arith, next_char-added ch 6 0 rest (omega arith)))
    | no b ↦ elim (dec_lt ch 0x10000) [
      | yes c ↦
          let got = next_char-added ch 12 6 (continuation_byte ch 0 ∷ rest) (omega arith) in
          (λ e. ground (arith, got), λ l. absurd (b l))
      | no c ↦
          let got =
            next_char-added ch 18 12 (continuation_byte ch 6 ∷ continuation_byte ch 0 ∷ rest)
              (omega arith) in
          (λ e. ground (arith, got), λ l. absurd (b l))
    ]
  ]
]

-- Every character below 0x110000 is added behind the text. What was added is read back as that
-- character, with what follows it left, exactly when the character is below 0x800.
pub next_char-add :
    (s : List ℕ) (ch : ℕ) (rest : List ℕ)
    → ch < 0x110000
    → (bs : List ℕ) × (add s ch ≡ value (s ++ bs))
      × ((next_char (bs ++ rest) ≡ value (ch, rest)) ↔ (ch < 0x800))
unfolding add
next_char-add s ch rest h = (added ch, ground arith, added_iff ch rest h)
