-- ===== src/Encoding/Url.antt =====
-- `url_encode::encode` and `url_encode::decode` of kernel/vds_core/encoding.cpp.
mod Examples
use Prim.Native.Nat.{bit_or}
use vds.Common.Bits.{or-shift}
use vds.Common.{
  ℕ, ◌+◌, ◌-◌, ◌*◌, ◌/◌, ◌%◌, ◌^◌, ◌≤◌, ◌<◌, ◌≡◌, refl, sym, ap, ◌∙◌, arith, Bool, true, false,
  ◌&&◌, ◌||◌, none, some, List, [], ◌∷◌, ◌++◌, All, ltb, leb, ◌==◌, if◌then◌else◌, inl, inr,
  Bool-cases, dec_lt, lt→ltb, length, ◌↔◌,
}
use mathlib.Core.Path.{ap₂}
use vds.Encoding.{hex_digit}

-- `isalnum` in the C locale, `false` for a negative `char`.
abbrev is_alnum : ℕ → Bool
is_alnum ch =
    (leb b'0' ch && leb ch b'9') || (leb b'A' ch && leb ch b'Z') || (leb b'a' ch && leb ch b'z')

-- The characters that `encode` copies.
is_unreserved : ℕ → Bool
is_unreserved ch = is_alnum ch || ch == b'-' || ch == b'_' || ch == b'.' || ch == b'~'

abbrev nibble_char : ℕ → ℕ
nibble_char n = if leb 10 n then b'A' + n - 10 else b'0' + n

-- `ch >> 4` keeps the sign: for a byte from 128 on it is `ch / 16 - 16`, which is below 10, and the
-- character is `'0'` plus that negative number.
high_char : ℕ → ℕ
high_char ch = if ltb ch 128 then nibble_char (ch / 2 ^ 4) else b'0' + ch / 2 ^ 4 - 16

low_char : ℕ → ℕ
low_char ch = nibble_char (ch % 2 ^ 4)

pub encode : List ℕ → List ℕ
encode [] = []
encode (ch ∷ chs) =
    if is_unreserved ch then ch ∷ encode chs else b'%' ∷ high_char ch ∷ low_char ch ∷ encode chs

-- `state` of `decode`, with `val` where it is set.
data State : Type 0 where
  plain percent : State
  digit : ℕ → State

decode_step : State → ℕ → State × List ℕ
decode_step plain ch = if ch == b'%' then (percent, []) else (plain, ch ∷ [])
decode_step percent ch = elim (hex_digit ch) [
  | some v ↦ (digit v, [])
  | none ↦ (plain, b'%' ∷ ch ∷ [])
]
decode_step (digit v) ch = elim (hex_digit ch) [
  | some d ↦ (plain, bit_or (v * 2 ^ 4) d % 2 ^ 8 ∷ [])
  | none ↦ (plain, b'%' ∷ ch ∷ [])
]

decode_loop : State → List ℕ → List ℕ
decode_loop st [] = []
decode_loop st (ch ∷ chs) = let (next, out) = decode_step st ch in out ++ decode_loop next chs

pub decode : List ℕ → List ℕ
decode s = decode_loop plain s

-- What comes back from one character: itself, or three characters for a byte from 128 on.
returned : ℕ → List ℕ
returned ch = if ltb ch 128 then ch ∷ [] else b'%' ∷ high_char ch ∷ low_char ch ∷ []

hex_digit-low_char : (ch : ℕ) → hex_digit (low_char ch) ≡ some (ch % 16)
unfolding hex_digit low_char
hex_digit-low_char ch = ground arith

hex_digit-high_char : (ch : ℕ) → ch < 128 → hex_digit (high_char ch) ≡ some (ch / 16)
unfolding hex_digit high_char
hex_digit-high_char ch h = ground arith

hex_digit-high_char_negative : (ch : ℕ) → 128 ≤ ch → ch < 256 → hex_digit (high_char ch) ≡ none
unfolding hex_digit high_char
hex_digit-high_char_negative ch h l = ground arith

low_char_plain : (ch : ℕ) → (low_char ch == b'%') ≡ false
unfolding low_char
low_char_plain ch = ground arith

unreserved_bounds : (ch : ℕ) → is_unreserved ch ≡ true → (ch < 128) × ((ch == b'%') ≡ false)
unfolding is_unreserved
unreserved_bounds ch h = ground arith

decode_plain :
    (ch : ℕ) (s : List ℕ)
    → (ch == b'%') ≡ false
    → decode_loop plain (ch ∷ s) ≡ ch ∷ decode_loop plain s
unfolding decode_loop decode_step
decode_plain ch s h = rw h

decode_escape :
    (h l d e : ℕ) (s : List ℕ)
    → hex_digit h ≡ some d
    → hex_digit l ≡ some e
    → decode_loop plain (b'%' ∷ h ∷ l ∷ s) ≡ (bit_or (d * 2 ^ 4) e % 2 ^ 8) ∷ decode_loop plain s
unfolding decode_loop decode_step
decode_escape h l d e s p q = rw (p, decode_step) (rw (q, decode_step))

-- A `%` that no digit follows is copied with what follows it.
decode_percent :
    (h : ℕ) (s : List ℕ)
    → hex_digit h ≡ none
    → decode_loop plain (b'%' ∷ h ∷ s) ≡ b'%' ∷ h ∷ decode_loop plain s
unfolding decode_loop decode_step
decode_percent h s p = rw (p, decode_step)

decode-encode_one :
    (ch : ℕ) (s t : List ℕ)
    → ch < 256
    → decode_loop plain (encode s) ≡ t
    → decode_loop plain (encode (ch ∷ s)) ≡ returned ch ++ t
unfolding encode returned
decode-encode_one ch s t b e = elim (Bool-cases (is_unreserved ch)) [
  | inl u ↦
      let (low, other) = unreserved_bounds ch u in
      rw (u, lt→ltb ch 128 low) (decode_plain ch (encode s) other ∙ ap (◌∷◌ ch) e)
  | inr r ↦ rw r (escaped (dec_lt ch 128))
]
  where
    escaped :
        Dec (ch < 128)
        → decode_loop plain (b'%' ∷ high_char ch ∷ low_char ch ∷ encode s) ≡ returned ch ++ t
    escaped (yes low) =
        let hi = ch / 16 in
        rw (lt→ltb ch 128 low) (
          decode_escape (high_char ch) (low_char ch) hi (ch % 16) (encode s)
            (hex_digit-high_char ch low) (hex_digit-low_char ch)
          ∙ ap₂ ◌∷◌ (omega (arith, or-shift 4 hi (ch % 16) (omega arith))) e)
    escaped (no high) =
        let beyond : ltb ch 128 ≡ false = ground arith in
        rw beyond (
          decode_percent (high_char ch) (low_char ch ∷ encode s)
            (hex_digit-high_char_negative ch (omega arith) b)
          ∙ ap (λ x. b'%' ∷ high_char ch ∷ x)
              (decode_plain (low_char ch) (encode s) (low_char_plain ch)
                ∙ ap (◌∷◌ (low_char ch)) e))

all_returned : List ℕ → List ℕ
all_returned [] = []
all_returned (ch ∷ s) = returned ch ++ all_returned s

decode-encode_returned :
    (s : List ℕ) → All (λ b. b < 256) s → decode_loop plain (encode s) ≡ all_returned s
unfolding all_returned
decode-encode_returned [] h = unfold encode decode_loop in refl
decode-encode_returned (ch ∷ s) h =
    decode-encode_one ch s (all_returned s) h.0 (decode-encode_returned s h.1)

all_returned-ascii : (s : List ℕ) → All (λ b. b < 128) s → all_returned s ≡ s
unfolding all_returned returned
all_returned-ascii [] h = refl
all_returned-ascii (ch ∷ s) h = rw (lt→ltb ch 128 h.0) (ap (◌∷◌ ch) (all_returned-ascii s h.1))

length-all_returned : (s : List ℕ) → length s ≤ length (all_returned s)
unfolding all_returned returned
length-all_returned [] = omega arith
length-all_returned (ch ∷ s) = ground (arith, length-all_returned s)

-- Had a byte from 128 on come back, the result would be longer than the text.
ascii_of_returned : (s : List ℕ) → all_returned s ≡ s → All (λ b. b < 128) s
unfolding all_returned returned
ascii_of_returned [] e = tt
ascii_of_returned (ch ∷ s) e = elim (dec_lt ch 128) [
  | yes low ↦ (low, ascii_of_returned s (ground arith))
  | no high ↦ absurd (ground (arith, length-all_returned s, ap length e))
]

-- A text of bytes comes back from `encode` and `decode` exactly when it is ASCII.
pub decode-encode_iff :
    (s : List ℕ) → All (λ b. b < 256) s → (decode (encode s) ≡ s) ↔ All (λ b. b < 128) s
unfolding decode
decode-encode_iff s h = (
  λ e. ascii_of_returned s (sym (decode-encode_returned s h) ∙ e),
  λ a. decode-encode_returned s h ∙ all_returned-ascii s a,
)
