-- ===== src/Serialize.antt =====
-- kernel/vds_core/binary_serialize.cpp and .h: the binary wire format of the program's records.
-- A serializer is the bytes written so far; a deserializer is the bytes not yet read (`data_`, `len_`).
-- The buffer's `add` always succeeds here: a failing `realloc` (std::bad_alloc) is not modelled.
-- `size_t` has 64 bits, so `safe_cast<size_t>` of a `uint64_t` changes nothing.
pub mod Words
pub mod Numbers
pub mod Records
mod Examples
use Prim.Native.Nat.{bit_or}
use vds.Common.{
  ℕ, zero, suc, ◌+◌, ◌-◌, ◌*◌, ◌/◌, ◌%◌, ◌^◌, Bool, true, false, not, List, [], ◌∷◌, ◌++◌, ltb,
  ◌==◌, if◌then◌else◌, length, take, drop, Expected, value, unexpected, ◌>>=◌, invalid_data,
  very_big_object, buffer_too_small,
}
use mathlib.Core.List.{reverse}

-- `(value >> 8 * i) & 0xFF`
abbrev byte_of : ℕ → ℕ → ℕ
byte_of i v = v / 2 ^ (8 * i) % 2 ^ 8

pub put_bool : List ℕ → Bool → List ℕ
put_bool s v = s ++ ((if v then 0xFF else 0) ∷ [])

unfoldable pub put_u8 : List ℕ → ℕ → List ℕ
put_u8 s v = s ++ (v ∷ [])

unfoldable pub put_u16 : List ℕ → ℕ → List ℕ
put_u16 s v = s ++ (byte_of 1 v ∷ byte_of 0 v ∷ [])

pub put_u32 : List ℕ → ℕ → List ℕ
put_u32 s v = s ++ (byte_of 3 v ∷ byte_of 2 v ∷ byte_of 1 v ∷ byte_of 0 v ∷ [])

pub put_u64 : List ℕ → ℕ → List ℕ
put_u64 s v =
    s
    ++ (byte_of 7 v
        ∷ byte_of 6 v
        ∷ byte_of 5 v
        ∷ byte_of 4 v
        ∷ byte_of 3 v
        ∷ byte_of 2 v
        ∷ byte_of 1 v
        ∷ byte_of 0 v
        ∷ [])

-- The `do … while (0 != value)` loop of `write_number`, lowest byte first. The fuel is the room left
-- in `uint8_t data[8]`.
low_bytes : ℕ → ℕ → List ℕ
low_bytes zero v = []
low_bytes (suc room) v =
    let rest = low_bytes room (v / 2 ^ 8) in v % 2 ^ 8 ∷ (if v / 2 ^ 8 == 0 then [] else rest)

pub write_number : List ℕ → ℕ → List ℕ
write_number s v =
    if ltb v 128
    then put_u8 s v
    else (let bytes = low_bytes 8 (v - 128) in s ++ (bit_or 0x80 (length bytes) ∷ reverse bytes))

pub put_string : List ℕ → List ℕ → List ℕ
put_string s v = write_number s (length v) ++ v

pub push_data : List ℕ → List ℕ → Bool → List ℕ
push_data s v serialize_size = (if serialize_size then write_number s (length v) else s) ++ v

unfoldable pub put_buffer : List ℕ → List ℕ → List ℕ
put_buffer s v = push_data s v true

-- `operator <<` on std::list and std::vector, over the one of the items.
module _ {ℓ} {T : Type ℓ} (put_item : List ℕ → T → List ℕ) where
  put_items : List ℕ → List T → List ℕ
  put_items s [] = s
  put_items s (x ∷ xs) = put_items (put_item s x) xs

  pub put_list : List ℕ → List T → List ℕ
  put_list s xs = put_items (write_number s (length xs)) xs

-- A read gives the value and the bytes that are left.
abbrev pub Read {ℓ} : Type ℓ → Type ℓ
Read A = Expected (A × List ℕ)

pub get_bool : List ℕ → Read Bool
get_bool [] = unexpected invalid_data
get_bool (b ∷ s) = value (not (b == 0), s)

unfoldable pub get_u8 : List ℕ → Read ℕ
get_u8 [] = unexpected invalid_data
get_u8 (b ∷ s) = value (b, s)

-- `value <<= 8; value |= *data++` on a word of `w` bits, for each byte in turn.
unfoldable pub shift_in : ℕ → ℕ → List ℕ → ℕ
shift_in w v [] = v
shift_in w v (b ∷ bs) = shift_in w (bit_or (v * 2 ^ 8 % 2 ^ w) b) bs

-- The reads of a 2, 4 or 8 byte number: the length is tested before the first byte is taken.
get_word : ℕ → List ℕ → Read ℕ
get_word n s =
    if ltb (length s) n
    then unexpected invalid_data
    else value (shift_in (8 * n) 0 (take n s), drop n s)

pub get_u16 : List ℕ → Read ℕ
get_u16 s = get_word 2 s

pub get_u32 : List ℕ → Read ℕ
get_u32 s = get_word 4 s

pub get_u64 : List ℕ → Read ℕ
get_u64 s = get_word 8 s

-- The loop of `read_number`: `i` bytes are still to be read.
read_digits : ℕ → ℕ → List ℕ → Read ℕ
read_digits zero result s = value (result, s)
read_digits (suc i) result s = do
  (b, t) ← get_u8 s
  read_digits i (bit_or (result * 2 ^ 8 % 2 ^ 64) b) t

pub read_number : List ℕ → Read ℕ
read_number s = do
  (b, t) ← get_u8 s
  if ltb b 0x80
      then value (b, t)
      else do (result, u) ← read_digits (b % 2 ^ 7) 0 t; value ((result + 0x80) % 2 ^ 64, u)

-- The loop of `get(std::string &)`.
get_chars : ℕ → List ℕ → Read (List ℕ)
get_chars zero s = value ([], s)
get_chars (suc n) s = do (c, t) ← get_u8 s; (cs, u) ← get_chars n t; value (c ∷ cs, u)

pub get_string : List ℕ → Read (List ℕ)
get_string s = do (n, t) ← read_number s; get_chars n t

abbrev pub max_object_size : ℕ
max_object_size = 1024 * 1024 * 1024

unfoldable pub get_buffer : List ℕ → Read (List ℕ)
get_buffer s = do
  (n, t) ← read_number s
  if ltb max_object_size n
      then unexpected very_big_object
      else (if ltb (length t) n then unexpected invalid_data else value (take n t, drop n t))

-- `size` is the room of the caller's buffer, or what the caller asks for.
take_data : ℕ → List ℕ → Read (List ℕ)
take_data n s = if ltb (length s) n then unexpected invalid_data else value (take n s, drop n s)

pub pop_data : ℕ → Bool → List ℕ → Read (List ℕ)
pop_data size false s = take_data size s
pop_data size true s = do
  (n, t) ← read_number s
  if ltb size n then unexpected buffer_too_small else take_data n t

-- `operator >>` on std::list and std::vector.
module _ {ℓ} {T : Type ℓ} (get_item : List ℕ → Read T) where
  get_items : ℕ → List ℕ → Read (List T)
  get_items zero s = value ([], s)
  get_items (suc n) s = do (x, t) ← get_item s; (xs, u) ← get_items n t; value (x ∷ xs, u)

  pub get_list : List ℕ → Read (List T)
  get_list s = do (n, t) ← read_number s; get_items n t
