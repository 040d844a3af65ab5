-- ===== src/Encoding/Base64/Size.antt =====
-- The buffer of `base64::to_bytes` (kernel/vds_core/encoding.cpp): no write goes past its end.
use vds.Common.{
  ℕ, ◌+◌, ◌-◌, ◌*◌, ◌/◌, ◌%◌, ◌≤◌, ◌<◌, ◌≡◌, List, [], ◌∷◌, ltb, if◌then◌else◌, length, ◌==◌, ◌⊎◌,
}
use vds.Encoding.Base64.{pad_character, fill}

abbrev EndsInPad : List ℕ → Type 0
EndsInPad [] = ⊥
EndsInPad (c ∷ []) = c ≡ pad_character
EndsInPad (c ∷ p ∷ r) = EndsInPad (p ∷ r)

-- The characters that are left make as many bytes as the buffer has room for, and `padding` more;
-- where that is not 0, they end in a pad.
record Fits (padding quantum : ℕ) (out buffer chs : List ℕ) : Type 0 where
  quantum_small : quantum < 4
  grouped : (quantum + length chs) % 4 ≡ 0
  room : length out + (quantum + length chs) / 4 * 3 ≡ length buffer + padding
  padded : (padding ≡ 0) ⊎ EndsInPad chs

-- The characters of a text before its first pad.
unfoldable pub before_pad : List ℕ → ℕ
before_pad [] = 0
before_pad (c ∷ s) = let rest = before_pad s in if c == pad_character then 0 else rest + 1

-- The bytes that are set by the rest of a text, behind `quantum` characters: three for every four characters
-- before its first pad, and what stands in front of that pad where there is one.
abbrev pub set_behind : ℕ → ℕ → List ℕ → ℕ
set_behind padding quantum s =
    (quantum + before_pad s) / 4 * 3 + (if ltb (before_pad s) (length s) then 3 - padding else 0)

-- Two results have the same bytes where something was written, and behind that the bytes of their buffers.
record Written (n : ℕ) (buffer buffer' d d' : List ℕ) : Type 0 where
  out : List ℕ
  first : d ≡ fill out buffer
  other : d' ≡ fill out buffer'
  count : length out ≡ n
  fits : length out ≤ length buffer
