-- ===== src/Serialize/Records.antt =====
-- Strings, buffers and sequences in kernel/vds_core/binary_serialize.cpp and .h.
-- A codec is what a sequence asks of its items: `operator <<` and `operator >>` and their laws.
use vds.Common.{
  ℕ, ◌^◌, ◌<◌, ◌≡◌, refl, sym, ◌∙◌, arith, List, [], ◌∷◌, ◌++◌, true, false, ltb, if◌then◌else◌,
  length, length-append, value, unexpected, very_big_object, buffer_too_small, All, take-append,
  drop-append,
}
use mathlib.Core.List.{append_assoc, append-nil}
use vds.Serialize.{
  Read, write_number, read_number, put_string, get_string, get_chars, push_data, pop_data,
  take_data, put_buffer, get_buffer, get_u8, max_object_size, put_list, get_list, put_items,
  get_items,
}
use vds.Serialize.Numbers.{read_number-write_number, write_number-append}

take_data-append : (bs rest : List ℕ) → take_data (length bs) (bs ++ rest) ≡ value (bs, rest)
unfolding take_data
take_data-append bs rest =
    ground (arith, length-append bs rest, take-append bs rest, drop-append bs rest)

get_chars-append : (bs rest : List ℕ) → get_chars (length bs) (bs ++ rest) ≡ value (bs, rest)
unfolding get_chars get_u8
get_chars-append [] rest = refl
get_chars-append (b ∷ bs) rest = rw (get_chars-append bs rest)

-- The length of the bytes, read back in front of them.
read_number-sized :
    (bs rest : List ℕ)
    → length bs < 2 ^ 64
    → read_number ((write_number [] (length bs) ++ bs) ++ rest) ≡ value (length bs, bs ++ rest)
read_number-sized bs rest h =
    rw (append_assoc (write_number [] (length bs)) bs rest)
      (read_number-write_number (length bs) (bs ++ rest) h)

-- A string of fewer than 2 ^ 64 bytes is read back, and what follows it is left.
pub get_string-put_string :
    (bs rest : List ℕ)
    → length bs < 2 ^ 64
    → get_string (put_string [] bs ++ rest) ≡ value (bs, rest)
unfolding get_string put_string
get_string-put_string bs rest h = rw (read_number-sized bs rest h) (get_chars-append bs rest)

-- `put` writes a buffer of any size; `get` gives it back up to 1 GB and refuses it above.
pub get_buffer-put_buffer :
    (bs rest : List ℕ)
    → length bs < 2 ^ 64
    → get_buffer (put_buffer [] bs ++ rest)
      ≡ (if ltb max_object_size (length bs) then unexpected very_big_object else value (bs, rest))
unfolding get_buffer put_buffer push_data
get_buffer-put_buffer bs rest h =
    rw (read_number-sized bs rest h)
      (ground (arith, length-append bs rest, take-append bs rest, drop-append bs rest))

-- `pop_data` with the size on the wire gives back what `push_data` wrote, or says that it does not
-- fit the caller's buffer; with the size agreed beforehand it gives it back.
pub pop_data-push_data :
    (size : ℕ) (bs rest : List ℕ)
    → length bs < 2 ^ 64
    → (pop_data size true (push_data [] bs true ++ rest)
        ≡ (if ltb size (length bs) then unexpected buffer_too_small else value (bs, rest)))
      × (pop_data (length bs) false (push_data [] bs false ++ rest) ≡ value (bs, rest))
unfolding pop_data push_data
pop_data-push_data size bs rest h = (
  rw (read_number-sized bs rest h) (ground (arith, take_data-append bs rest)),
  take_data-append bs rest,
)

-- An interface: how items are written and read, and that what is written of an item that fits is read
-- back.
pub record Codec (T : Type 0) : Type 1 where
  pub put : List ℕ → T → List ℕ
  pub get : List ℕ → Read T
  pub Fits : T → Type 0
  pub put-append : (s : List ℕ) (x : T) → Fits x → put s x ≡ s ++ put [] x
  pub get-put : (x : T) (rest : List ℕ) → Fits x → get (put [] x ++ rest) ≡ value (x, rest)

module _ {T : Type 0} (c : Codec T) where
  put_items-append :
      (s : List ℕ) (xs : List T) → All c.Fits xs → put_items c.put s xs ≡ s ++ put_items c.put [] xs
  unfolding put_items
  put_items-append s [] h = sym (append-nil s)
  put_items-append s (x ∷ xs) h =
      put_items-append (c.put s x) xs h.1
      ∙ rw (c.put-append s x h.0, put_items-append (c.put [] x) xs h.1)
          (append_assoc s (c.put [] x) (put_items c.put [] xs))

  get_items-put_items :
      (xs : List T) (rest : List ℕ)
      → All c.Fits xs
      → get_items c.get (length xs) (put_items c.put [] xs ++ rest) ≡ value (xs, rest)
  unfolding get_items put_items
  get_items-put_items [] rest h = refl
  get_items-put_items (x ∷ xs) rest h = rw (
    put_items-append (c.put [] x) xs h.1,
    append_assoc (c.put [] x) (put_items c.put [] xs) rest,
    c.get-put x (put_items c.put [] xs ++ rest) h.0,
    get_items-put_items xs rest h.1,
  )

  -- A list of fewer than 2 ^ 64 items, each of which can be written behind other data and read back, is
  -- read back, and what follows it is left.
  pub get_list-put_list :
      (xs : List T) (rest : List ℕ)
      → All c.Fits xs
      → length xs < 2 ^ 64
      → get_list c.get (put_list c.put [] xs ++ rest) ≡ value (xs, rest)
  unfolding get_list put_list
  get_list-put_list xs rest h n = rw (
    put_items-append (write_number [] (length xs)) xs h,
    append_assoc (write_number [] (length xs)) (put_items c.put [] xs) rest,
    read_number-write_number (length xs) (put_items c.put [] xs ++ rest) n,
    get_items-put_items xs rest h,
  )

  pub put_list-append :
      (s : List ℕ) (xs : List T)
      → All c.Fits xs
      → length xs < 2 ^ 64
      → put_list c.put s xs ≡ s ++ put_list c.put [] xs
  unfolding put_list
  put_list-append s xs h n =
      rw
        (
          put_items-append (write_number s (length xs)) xs h,
          put_items-append (write_number [] (length xs)) xs h,
          (write_number-append s (length xs) n).0,
        )
        (append_assoc s (write_number [] (length xs)) (put_items c.put [] xs))

  -- Sequences nest: a sequence of items with a codec has a codec.
  abbrev pub list_codec : Codec (List T)
  list_codec = record {
    put = put_list c.put;
    get = get_list c.get;
    Fits = λ xs. All c.Fits xs × (length xs < 2 ^ 64);
    put-append = λ s xs h. put_list-append s xs h.0 h.1;
    get-put = λ xs rest h. get_list-put_list xs rest h.0 h.1;
  }

pub put_string-append :
    (s bs : List ℕ) → length bs < 2 ^ 64 → put_string s bs ≡ s ++ put_string [] bs
unfolding put_string
put_string-append s bs h =
    rw ((write_number-append s (length bs) h).0) (append_assoc s (write_number [] (length bs)) bs)

-- Strings as items.
abbrev pub string_codec : Codec (List ℕ)
string_codec = record {
  put = put_string;
  get = get_string;
  Fits = λ bs. length bs < 2 ^ 64;
  put-append = put_string-append;
  get-put = get_string-put_string;
}
