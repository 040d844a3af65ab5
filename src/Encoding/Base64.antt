-- ===== src/Encoding/Base64.antt =====
-- `base64::from_bytes` and `base64::to_bytes` of kernel/vds_core/encoding.cpp.
pub mod Groups
pub mod RoundTrip
pub mod Size
mod Examples
use Prim.Native.Nat.{bit_or}
use vds.Common.Text.{bytes_of}
use vds.Common.{
  ℕ, zero, suc, ◌+◌, ◌-◌, ◌*◌, ◌/◌, ◌%◌, ◌^◌, ◌≤◌, ◌<◌, ◌≡◌, refl, sym, ap, ◌∙◌, arith, Bool, true,
  false, ◌&&◌, Option, none, some, List, [], ◌∷◌, ◌++◌, ltb, leb, ◌==◌, if◌then◌else◌, length,
  get_or, drop, Expected, value, unexpected, non_valid_base64, invalid_base64_padding,
  non_valid_base64_character,
}

abbrev encode_lookup : List ℕ
encode_lookup = bytes_of "ABCDEFGHIJKLMNOPQRSTUVWXYZabcdefghijklmnopqrstuvwxyz0123456789+/"

abbrev pad_character : ℕ
pad_character = b'='

-- `encodeLookup[(temp & mask) >> shift]`, with the mask of the six bits from `shift` on.
abbrev pub sextet_char : ℕ → ℕ → ℕ
sextet_char temp shift = get_or encode_lookup (temp / 2 ^ shift % 2 ^ 6) 0

-- The three bytes of a round, as `temp` holds them.
abbrev pub join_bytes : ℕ → ℕ → ℕ → ℕ
join_bytes a b c = a * 2 ^ 16 + b * 2 ^ 8 + c

pub from_bytes : List ℕ → List ℕ
from_bytes [] = []
from_bytes (a ∷ []) =
    let temp = a * 2 ^ 16 in
    sextet_char temp 18 ∷ sextet_char temp 12 ∷ pad_character ∷ pad_character ∷ []
from_bytes (a ∷ b ∷ []) =
    let temp = a * 2 ^ 16 + b * 2 ^ 8 in
    sextet_char temp 18 ∷ sextet_char temp 12 ∷ sextet_char temp 6 ∷ pad_character ∷ []
from_bytes (a ∷ b ∷ c ∷ rest) =
    let temp = join_bytes a b c in
    sextet_char temp 18
    ∷ sextet_char temp 12
    ∷ sextet_char temp 6
    ∷ sextet_char temp 0
    ∷ from_bytes rest

-- The six bits of a character, as the loop of `to_bytes` tests it; `none` for the pad and the rest.
pub sextet : ℕ → Option ℕ
sextet ch =
    if leb 0x41 ch && leb ch 0x5A
    then some (ch - 0x41)
    else (if leb 0x61 ch && leb ch 0x7A
        then some (ch - 0x47)
        else (if leb 0x30 ch && leb ch 0x39
            then some (ch + 0x04)
            else (if ch == 0x2B then some 0x3E else (if ch == 0x2F then some 0x3F else none))))

-- One or two trailing pad characters are counted.
pub padding_of : List ℕ → ℕ
padding_of s =
    let n = length s in
    if ltb 0 n && get_or s (n - 1) 0 == pad_character
    then (if ltb 1 n && get_or s (n - 2) 0 == pad_character then 2 else 1)
    else 0

-- `temp <<= 6; temp |= v` on a `uint32_t`.
pub push_sextet : ℕ → ℕ → ℕ
push_sextet temp v = bit_or (temp * 2 ^ 6 % 2 ^ 32) v

abbrev byte_at : ℕ → ℕ → ℕ
byte_at temp shift = temp / 2 ^ shift % 2 ^ 8

-- What `result` holds after the bytes `out` were written to its front. `resize` leaves the bytes of
-- the allocation as they are.
pub fill : List ℕ → List ℕ → List ℕ
fill out buffer = out ++ drop (length out) buffer

-- `quantum` characters of the current four have been read.
on_sextet : ℕ → ℕ → List ℕ → ℕ × List ℕ
on_sextet temp quantum out =
    if suc quantum == 4
    then (0, out ++ (byte_at temp 16 ∷ byte_at temp 8 ∷ byte_at temp 0 ∷ []))
    else (suc quantum, out)

on_pad : ℕ → ℕ → List ℕ → List ℕ → Expected (List ℕ)
on_pad padding temp out buffer =
    if padding == 1
    then value (fill (out ++ (byte_at temp 16 ∷ byte_at temp 8 ∷ [])) buffer)
    else (if padding == 2
        then value (fill (out ++ (byte_at temp 10 ∷ [])) buffer)
        else unexpected invalid_base64_padding)

pub to_bytes_loop : ℕ → List ℕ → ℕ → ℕ → List ℕ → List ℕ → Expected (List ℕ)
unfolding push_sextet
to_bytes_loop padding buffer temp quantum out [] = value (fill out buffer)
to_bytes_loop padding buffer temp quantum out (ch ∷ chs) = elim (sextet ch) [
  | some v ↦
      let temp' = push_sextet temp v in
      let (quantum', out') = on_sextet temp' quantum out in
      to_bytes_loop padding buffer temp' quantum' out' chs
  | none ↦
      if ch == pad_character
      then on_pad padding (temp * 2 ^ 6 % 2 ^ 32) out buffer
      else unexpected non_valid_base64_character
]

-- `fresh n` is what a new allocation of `n` bytes holds.
module _ (fresh : ℕ → List ℕ) where
  pub to_bytes : List ℕ → Expected (List ℕ)
  to_bytes s =
      let padding = padding_of s in
      if length s % 4 == 0
      then to_bytes_loop padding (fresh (length s / 4 * 3 - padding)) 0 0 [] s
      else unexpected non_valid_base64
