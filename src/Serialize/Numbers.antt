-- ===== src/Serialize/Numbers.antt =====
-- The variable-length numbers of kernel/vds_core/binary_serialize.cpp: `write_number`, `read_number`.
use Prim.Native.Nat.{bit_or}
use vds.Common.Bits.{or-shift}
use vds.Common.{
  ℕ, zero, suc, ◌+◌, ◌-◌, ◌*◌, ◌/◌, ◌%◌, ◌^◌, ◌≤◌, ◌<◌, ◌≡◌, refl, ap, ◌∙◌, arith, List, [], ◌∷◌,
  ◌++◌, length, length-append, dec_lt, Expected-cases, Error, inl, inr, value, unexpected,
  invalid_data, All, All-append,
}
use mathlib.Core.List.{reverse, reverse-cons, append-nil}
use native.Mathlib.Nat.{pow-suc}
use vds.Serialize.{put_u8, write_number, low_bytes, get_u8, read_digits, read_number, shift_in}
use vds.Serialize.Words.{IsByte, big_endian, shift_in-big_endian}

abbrev little_endian : List ℕ → ℕ
little_endian [] = 0
little_endian (b ∷ bs) = b + 256 * little_endian bs

-- The loop of `write_number` ends within its array, and the bytes stand for the number.
low_bytes_lem :
    (room v : ℕ)
    → v < 256 ^ suc room
    → (little_endian (low_bytes (suc room) v) ≡ v)
      × All IsByte (low_bytes (suc room) v)
      × (1 ≤ length (low_bytes (suc room) v))
      × (length (low_bytes (suc room) v) ≤ suc room)
unfolding low_bytes
low_bytes_lem zero v h = ground arith
low_bytes_lem (suc room) v h = ground (
  arith,
  pow-suc 256 (suc room),
  low_bytes_lem room (v / 256) (omega (arith, pow-suc 256 (suc room))),
)

big_endian-append_one :
    (v : ℕ) (bs : List ℕ) (b : ℕ) → big_endian v (bs ++ (b ∷ [])) ≡ big_endian v bs * 256 + b
big_endian-append_one v [] b = refl
big_endian-append_one v (c ∷ bs) b = big_endian-append_one (v * 256 + c) bs b

big_endian-reverse : (bs : List ℕ) → big_endian 0 (reverse bs) ≡ little_endian bs
big_endian-reverse [] = refl
big_endian-reverse (b ∷ bs) =
    ap (big_endian 0) (reverse-cons b bs)
    ∙ big_endian-append_one 0 (reverse bs) b
    ∙ omega (arith, big_endian-reverse bs)

length-reverse : (bs : List ℕ) → length (reverse bs) ≡ length bs
length-reverse [] = refl
length-reverse (b ∷ bs) =
    omega
      (arith, ap length (reverse-cons b bs), length-append (reverse bs) (b ∷ []), length-reverse bs)

reverse-IsByte : (bs : List ℕ) → All IsByte bs → All IsByte (reverse bs)
reverse-IsByte [] h = tt
reverse-IsByte (b ∷ bs) h =
    rw (reverse-cons b bs)
      (All-append IsByte (reverse bs) (b ∷ []) (reverse-IsByte bs h.1) (h.0, tt))

read_digits-append :
    (bs rest : List ℕ) (r : ℕ)
    → read_digits (length bs) r (bs ++ rest) ≡ value (shift_in 64 r bs, rest)
unfolding read_digits shift_in get_u8
read_digits-append [] rest r = refl
read_digits-append (b ∷ bs) rest r = read_digits-append bs rest (bit_or (r * 2 ^ 8 % 2 ^ 64) b)

-- The bytes of a number that does not fit seven bits: a head with the count, then the digits.
write_number_long :
    (s : List ℕ) (v : ℕ)
    → 128 ≤ v
    → write_number s v
      ≡ s ++ (bit_or 0x80 (length (low_bytes 8 (v - 128))) ∷ reverse (low_bytes 8 (v - 128)))
unfolding write_number
write_number_long s v h = ground arith

read_number_long :
    (bs rest : List ℕ)
    → All IsByte bs
    → length bs ≤ 8
    → big_endian 0 bs < 2 ^ 64
    → read_number ((128 + length bs) ∷ (bs ++ rest))
      ≡ value ((big_endian 0 bs + 128) % 2 ^ 64, rest)
unfolding read_number get_u8
read_number_long bs rest hb hi h =
    let count : (128 + length bs) % 2 ^ 7 ≡ length bs = omega arith in
    ground (arith, count, read_digits-append bs rest 0, shift_in-big_endian 64 0 bs hb h)

-- Reading what the long form wrote: `bs` are the digits, lowest first.
read_number-reverse :
    (bs rest : List ℕ)
    → All IsByte bs
    → length bs ≤ 8
    → little_endian bs < 2 ^ 64
    → read_number (bit_or 0x80 (length bs) ∷ (reverse bs ++ rest))
      ≡ value ((little_endian bs + 128) % 2 ^ 64, rest)
read_number-reverse bs rest hb hi h =
    let head : bit_or 0x80 (length bs) ≡ 128 + length (reverse bs) =
      or-shift 7 1 (length bs) (omega arith) ∙ omega (arith, length-reverse bs) in
    rw head (
      read_number_long (reverse bs) rest (reverse-IsByte bs hb) (omega (arith, length-reverse bs))
        (omega (arith, big_endian-reverse bs))
      ∙ ap (λ (t : ℕ). value ((t + 128) % 2 ^ 64, rest)) (big_endian-reverse bs))

write_number-short : (s : List ℕ) (v : ℕ) → v < 128 → write_number s v ≡ s ++ (v ∷ [])
unfolding write_number put_u8
write_number-short s v h = ground arith

read_number-short : (v : ℕ) (rest : List ℕ) → v < 128 → read_number (v ∷ rest) ≡ value (v, rest)
unfolding read_number get_u8
read_number-short v rest h = ground arith

-- Every 64-bit number that is written is read back, whatever follows it.
pub read_number-write_number :
    (v : ℕ) (rest : List ℕ) → v < 2 ^ 64 → read_number (write_number [] v ++ rest) ≡ value (v, rest)
read_number-write_number v rest h = elim (dec_lt v 128) [
  | yes short ↦ rw (write_number-short [] v short) (read_number-short v rest short)
  | no long ↦
      let (same, bytes, lo, hi) = low_bytes_lem 7 (v - 128) (omega arith) in
      rw (write_number_long [] v (omega arith)) (
        read_number-reverse (low_bytes 8 (v - 128)) rest bytes hi (omega arith)
        ∙ ap (λ (t : ℕ). value (t, rest)) (omega arith))
]

-- A 64-bit number goes behind what is already written, and takes 1 to 9 bytes.
pub write_number-append :
    (s : List ℕ) (v : ℕ)
    → v < 2 ^ 64
    → (write_number s v ≡ s ++ write_number [] v)
      × (1 ≤ length (write_number [] v))
      × (length (write_number [] v) ≤ 9)
      × All IsByte (write_number [] v)
write_number-append s v h = elim (dec_lt v 128) [
  | yes short ↦
      rw (write_number-short s v short, write_number-short [] v short)
        (refl, omega arith, omega arith, omega arith)
  | no long ↦
      let (same, bytes, lo, hi) = low_bytes_lem 7 (v - 128) (omega arith) in
      let count = length (low_bytes 8 (v - 128)) in
      rw (write_number_long s v (omega arith), write_number_long [] v (omega arith))
        (
          refl,
          omega arith,
          omega (arith, length-reverse (low_bytes 8 (v - 128))),
          (omega (arith, or-shift 7 1 count), reverse-IsByte (low_bytes 8 (v - 128)) bytes),
        )
]

-- `read_number` takes bytes from the front only: what follows a number does not change it.
read_digits-append_value :
    (i r : ℕ) (s more : List ℕ) (v : ℕ) (rest : List ℕ)
    → read_digits i r s ≡ value (v, rest)
    → read_digits i r (s ++ more) ≡ value (v, rest ++ more)
unfolding read_digits get_u8
read_digits-append_value zero r s more v rest e = ground arith
read_digits-append_value (suc i) r [] more v rest e = cc
read_digits-append_value (suc i) r (b ∷ s) more v rest e =
    read_digits-append_value i (bit_or (r * 2 ^ 8 % 2 ^ 64) b) s more v rest e

read_number-append_value :
    (s more : List ℕ) (v : ℕ) (rest : List ℕ)
    → read_number s ≡ value (v, rest)
    → read_number (s ++ more) ≡ value (v, rest ++ more)
unfolding read_number get_u8
read_number-append_value [] more v rest e = cc
read_number-append_value (b ∷ s) more v rest e =
    elim (Expected-cases (read_digits (b % 2 ^ 7) 0 s)) [
      | inl ((r, t), d) ↦ ground (arith, d, read_digits-append_value (b % 2 ^ 7) 0 s more r t d)
      | inr (x, d) ↦ ground (arith, d)
    ]

read_digits_fails :
    (i r : ℕ) (s : List ℕ) (x : Error) → read_digits i r s ≡ unexpected x → x ≡ invalid_data
unfolding read_digits get_u8
read_digits_fails zero r s x e = cc
read_digits_fails (suc i) r [] x e = ground arith
read_digits_fails (suc i) r (b ∷ s) x e = read_digits_fails i (bit_or (r * 2 ^ 8 % 2 ^ 64) b) s x e

read_number_fails : (s : List ℕ) (x : Error) → read_number s ≡ unexpected x → x ≡ invalid_data
unfolding read_number get_u8
read_number_fails [] x e = ground arith
read_number_fails (b ∷ s) x e = elim (Expected-cases (read_digits (b % 2 ^ 7) 0 s)) [
  | inl (p, d) ↦ ground (arith, d)
  | inr (y, d) ↦ ground (arith, d, read_digits_fails (b % 2 ^ 7) 0 s y d)
]

-- Cut anywhere before its end, a written number is refused with "Invalid data".
pub read_number_truncated :
    (v x : ℕ) (front back : List ℕ)
    → v < 2 ^ 64
    → write_number [] v ≡ front ++ (x ∷ back)
    → read_number front ≡ unexpected invalid_data
read_number_truncated v x front back h e = elim (Expected-cases (read_number front)) [
  | inl ((u, rest), r) ↦
      let whole : read_number (front ++ (x ∷ back)) ≡ value (v, []) =
        rw (append-nil, e) at (read_number-write_number v [] h) in
      ground (
        arith,
        whole,
        read_number-append_value front (x ∷ back) u rest r,
        length-append rest (x ∷ back),
      )
  | inr (y, r) ↦ r ∙ ap unexpected (read_number_fails front y r)
]

read_digits_takes :
    (i r : ℕ) (s : List ℕ) (v : ℕ) (rest : List ℕ)
    → read_digits i r s ≡ value (v, rest)
    → length rest + i ≡ length s
unfolding read_digits get_u8
read_digits_takes zero r s v rest e = ground arith
read_digits_takes (suc i) r [] v rest e = cc
read_digits_takes (suc i) r (b ∷ s) v rest e =
    omega (arith, read_digits_takes i (bit_or (r * 2 ^ 8 % 2 ^ 64) b) s v rest e)

-- Whatever the input, a number that is read fits 64 bits, and at least one byte was taken for it.
pub read_number_takes :
    (s : List ℕ) (v : ℕ) (rest : List ℕ)
    → All IsByte s
    → read_number s ≡ value (v, rest)
    → (v < 2 ^ 64) × (length rest < length s) × (length s ≤ length rest + 128)
unfolding read_number get_u8
read_number_takes [] v rest hs e = cc
read_number_takes (b ∷ s) v rest hs e = elim (Expected-cases (read_digits (b % 2 ^ 7) 0 s)) [
  | inl ((r, t), d) ↦ ground (arith, d, read_digits_takes (b % 2 ^ 7) 0 s r t d)
  | inr (x, d) ↦ ground (arith, d)
]
