-- ===== src/Encoding/Utf8.antt =====
-- `utf8::char_size`, `utf8::next_char`, `utf8::add` and `utf16::to_utf8` of
-- kernel/vds_core/encoding.cpp. A `wchar_t` has 32 bits; it is a number, so it is not negative here.
pub mod Chars
mod Examples
use Prim.Native.Nat.{bit_and, bit_or}
use vds.Common.Bits.{or-shift}
use vds.Common.{
  ℕ, zero, suc, ◌+◌, ◌-◌, ◌*◌, ◌/◌, ◌%◌, ◌^◌, ◌≤◌, ◌<◌, ◌≡◌, ◌≢◌, refl, sym, ap, ◌∙◌, arith, Bool,
  true, false, ◌&&◌, ◌||◌, List, [], ◌∷◌, ◌++◌, All, ltb, leb, ◌==◌, if◌then◌else◌, length,
  Expected, value, unexpected, ◌>>=◌, invalid_utf8_string, invalid_utf16_string, passes_below,
  passes_below→passes, ==_iff, dec_lt, lt→ltb,
}
use mathlib.Core.List.{append-nil, append_assoc}

-- The tests of a lead byte, and of the bytes behind it.
is_single : ℕ → Bool
is_single b = bit_and b 0b10000000 == 0

is_lead_2 : ℕ → Bool
is_lead_2 b = bit_and b 0b11100000 == 0b11000000

is_lead_3 : ℕ → Bool
is_lead_3 b = bit_and b 0b11110000 == 0b11100000

is_lead_4 : ℕ → Bool
is_lead_4 b = bit_and b 0b11111000 == 0b11110000

is_continuation : ℕ → Bool
is_continuation b = bit_and b 0b11000000 == 0b10000000

pub char_size : ℕ → Expected ℕ
char_size b =
    if is_single b
    then value 1
    else (if is_lead_2 b
        then value 2
        else (if is_lead_3 b
            then value 3
            else (if is_lead_4 b then value 4 else unexpected invalid_utf8_string)))

-- The bytes behind a lead byte; `len` is tested first.
next_2 : ℕ → List ℕ → Expected (ℕ × List ℕ)
next_2 a (b ∷ s) =
    if is_continuation b
    then value (bit_or (a % 2 ^ 5 * 2 ^ 6) (b % 2 ^ 6), s)
    else unexpected invalid_utf8_string
next_2 a s = unexpected invalid_utf8_string

next_3 : ℕ → List ℕ → Expected (ℕ × List ℕ)
next_3 a (b ∷ c ∷ s) =
    if is_continuation b && is_continuation c
    then value (bit_or (bit_or (a % 2 ^ 5 * 2 ^ 12) (b % 2 ^ 6 * 2 ^ 6)) (c % 2 ^ 6), s)
    else unexpected invalid_utf8_string
next_3 a s = unexpected invalid_utf8_string

-- The mask of the lead byte is 0b00011111 here too.
next_4 : ℕ → List ℕ → Expected (ℕ × List ℕ)
next_4 a (b ∷ c ∷ d ∷ s) =
    if is_continuation b && is_continuation c && is_continuation d
    then value (
      bit_or (bit_or (bit_or (a % 2 ^ 5 * 2 ^ 18) (b % 2 ^ 6 * 2 ^ 12)) (c % 2 ^ 6 * 2 ^ 6))
          (d % 2 ^ 6),
      s,
    )
    else unexpected invalid_utf8_string
next_4 a s = unexpected invalid_utf8_string

-- At the end of the text the character is 0.
pub next_char : List ℕ → Expected (ℕ × List ℕ)
next_char [] = value (0, [])
next_char (a ∷ s) =
    if is_single a
    then value (a, s)
    else (if is_lead_2 a
        then next_2 a s
        else (if is_lead_3 a
            then next_3 a s
            else (if is_lead_4 a then next_4 a s else unexpected invalid_utf8_string)))

-- `(char)(lead | (ch >> shift))`, and `(char)(0b10000000 | (0b00111111 & (ch >> shift)))`.
abbrev lead_byte : ℕ → ℕ → ℕ → ℕ
lead_byte mark ch shift = bit_or mark (ch / 2 ^ shift) % 2 ^ 8

abbrev continuation_byte : ℕ → ℕ → ℕ
continuation_byte ch shift = bit_or 0b10000000 (ch / 2 ^ shift % 2 ^ 6) % 2 ^ 8

unfoldable pub add : List ℕ → ℕ → Expected (List ℕ)
add s ch =
    if ltb ch 0x80
    then value (s ++ (ch ∷ []))
    else (if ltb ch 0x800
        then value (s ++ (lead_byte 0b11000000 ch 6 ∷ continuation_byte ch 0 ∷ []))
        else (if ltb ch 0x10000
            then value (
                s
                ++ (lead_byte 0b11000000 ch 12
                    ∷ continuation_byte ch 6
                    ∷ continuation_byte ch 0
                    ∷ []))
            else (if ltb ch 0x110000
                then value (
                    s
                    ++ (lead_byte 0b11000000 ch 18
                        ∷ continuation_byte ch 12
                        ∷ continuation_byte ch 6
                        ∷ continuation_byte ch 0
                        ∷ []))
                else unexpected invalid_utf16_string)))

to_utf8_loop : List ℕ → List ℕ → Expected (List ℕ)
to_utf8_loop s [] = value s
to_utf8_loop s (ch ∷ chs) = do t ← add s ch; to_utf8_loop t chs

pub to_utf8 : List ℕ → Expected (List ℕ)
to_utf8 chs = to_utf8_loop [] chs
