-- ===== src/Serialize/Words.antt =====
-- Numbers of a fixed width in kernel/vds_core/binary_serialize.cpp: what is put is read back.
use Prim.Native.Nat.{bit_or}
use vds.Common.Bits.{or-shift}
use vds.Common.{
  ℕ, ◌+◌, ◌*◌, ◌%◌, ◌^◌, ◌≤◌, ◌<◌, ◌≡◌, refl, ap, ◌∙◌, arith, Bool, true, false, List, [], ◌∷◌,
  ◌++◌, length, length-append, take-append, drop-append, value, All, ◌>>=◌,
}
use native.Mathlib.Nat.{mod-eq_of_lt}
use vds.Serialize.{
  put_bool, put_u8, put_u16, put_u32, put_u64, get_bool, get_u8, get_u16, get_u32, get_u64,
  get_word, shift_in, Read,
}

abbrev pub IsByte : ℕ → Type 0
IsByte b = b < 256

-- One round of a read: the byte goes below what has been read, and the top byte falls off the word.
pub shift_byte :
    (w v b : ℕ) → b < 256 → v * 2 ^ 8 < 2 ^ w → bit_or (v * 2 ^ 8 % 2 ^ w) b ≡ v * 256 + b
shift_byte w v b hb hv = rw (mod-eq_of_lt hv) (or-shift 8 v b hb)

-- The number that bytes stand for, highest byte first, behind what has been read.
abbrev pub big_endian : ℕ → List ℕ → ℕ
big_endian v [] = v
big_endian v (b ∷ bs) = big_endian (v * 256 + b) bs

pub le-big_endian : (v : ℕ) (bs : List ℕ) → v ≤ big_endian v bs
le-big_endian v [] = omega arith
le-big_endian v (b ∷ bs) = omega (arith, le-big_endian (v * 256 + b) bs)

-- The shifts and ors of a read lose nothing as long as the number fits the word.
pub shift_in-big_endian :
    (w v : ℕ) (bs : List ℕ)
    → All IsByte bs
    → big_endian v bs < 2 ^ w
    → shift_in w v bs ≡ big_endian v bs
unfolding shift_in
shift_in-big_endian w v [] hb h = refl
shift_in-big_endian w v (b ∷ bs) hb h =
    ap (λ (t : ℕ). shift_in w t bs)
      (shift_byte w v b hb.0 (omega (arith, le-big_endian (v * 256 + b) bs)))
    ∙ shift_in-big_endian w (v * 256 + b) bs hb.1 h

get_word-append :
    (bs rest : List ℕ)
    → All IsByte bs
    → big_endian 0 bs < 2 ^ (8 * length bs)
    → get_word (length bs) (bs ++ rest) ≡ value (big_endian 0 bs, rest)
unfolding get_word
get_word-append bs rest hb h = ground (
  arith,
  length-append bs rest,
  take-append bs rest,
  drop-append bs rest,
  shift_in-big_endian (8 * length bs) 0 bs hb h,
)

get_u16-put_u16 :
    (v : ℕ) (rest : List ℕ) → v < 2 ^ 16 → get_u16 (put_u16 [] v ++ rest) ≡ value (v, rest)
unfolding get_u16 put_u16
get_u16-put_u16 v rest h =
    get_word-append (put_u16 [] v) rest (omega arith) (omega arith)
    ∙ ap (λ (t : ℕ). value (t, rest)) (omega arith)

get_u32-put_u32 :
    (v : ℕ) (rest : List ℕ) → v < 2 ^ 32 → get_u32 (put_u32 [] v ++ rest) ≡ value (v, rest)
unfolding get_u32 put_u32
get_u32-put_u32 v rest h =
    get_word-append (put_u32 [] v) rest (omega arith) (omega arith)
    ∙ ap (λ (t : ℕ). value (t, rest)) (omega arith)

get_u64-put_u64 :
    (v : ℕ) (rest : List ℕ) → v < 2 ^ 64 → get_u64 (put_u64 [] v ++ rest) ≡ value (v, rest)
unfolding get_u64 put_u64
get_u64-put_u64 v rest h =
    get_word-append (put_u64 [] v) rest (omega arith) (omega arith)
    ∙ ap (λ (t : ℕ). value (t, rest)) (omega arith)

-- A record with one field of each width, written in order and read in order.
abbrev pub put_words : Bool → ℕ → ℕ → ℕ → ℕ → List ℕ
put_words b v8 v16 v32 v64 = put_u64 (put_u32 (put_u16 (put_u8 (put_bool [] b) v8) v16) v32) v64

abbrev pub get_words : List ℕ → Read (Bool × ℕ × ℕ × ℕ × ℕ)
get_words s = do
  (b, s1) ← get_bool s
  (v8, s2) ← get_u8 s1
  (v16, s3) ← get_u16 s2
  (v32, s4) ← get_u32 s3
  (v64, s5) ← get_u64 s4
  value ((b, v8, v16, v32, v64), s5)

-- Reading such a record back gives every field of it, and leaves what follows it.
pub get_words-put_words :
    (b : Bool) (v8 v16 v32 v64 : ℕ) (rest : List ℕ)
    → v16 < 2 ^ 16
    → v32 < 2 ^ 32
    → v64 < 2 ^ 64
    → get_words (put_words b v8 v16 v32 v64 ++ rest) ≡ value ((b, v8, v16, v32, v64), rest)
unfolding put_bool put_u8 put_u16 put_u32 put_u64 get_bool get_u8
get_words-put_words true v8 v16 v32 v64 rest h16 h32 h64 =
    rw (get_u16-put_u16 v16 _ h16, get_u32-put_u32 v32 _ h32, get_u64-put_u64 v64 _ h64)
get_words-put_words false v8 v16 v32 v64 rest h16 h32 h64 =
    rw (get_u16-put_u16 v16 _ h16, get_u32-put_u32 v32 _ h32, get_u64-put_u64 v64 _ h64)
