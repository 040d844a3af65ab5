-- ===== src/Serialize/Examples.antt =====
-- Concrete runs of the serializer, and its theorems at concrete inputs.
use vds.Common.{
  ℕ, ◌+◌, ◌≤◌, ◌<◌, ◌^◌, ◌≡◌, refl, arith, List, [], ◌∷◌, ◌++◌, true, length, All, value,
  unexpected, invalid_data, buffer_too_small,
}
use vds.Serialize.{
  put_u8, write_number, read_number, read_digits, low_bytes, get_u8, put_string, get_string,
  put_buffer, get_buffer, push_data, pop_data, put_list, get_list,
}
use vds.Serialize.Words.{IsByte, put_words, get_words, get_words-put_words}
use vds.Serialize.Numbers.{
  read_number-write_number, write_number-append, read_number_truncated, read_number_takes,
}
use vds.Serialize.Records.{
  get_string-put_string, get_buffer-put_buffer, pop_data-push_data, list_codec, string_codec,
  get_list-put_list,
}

number_300 : write_number [] 300 ≡ 0x81 ∷ 172 ∷ []
unfolding write_number low_bytes put_u8
number_300 = refl

number_cut : write_number [] 70_000 ≡ (0x83 ∷ 0x01 ∷ []) ++ (0x10 ∷ 0xF0 ∷ [])
unfolding write_number low_bytes put_u8
number_cut = refl

-- Nothing bounds the count in the head: nine digits are read into a word that holds eight.
number_too_wide : read_number (0x89 ∷ 1 ∷ 0 ∷ 0 ∷ 0 ∷ 0 ∷ 0 ∷ 0 ∷ 0 ∷ 0 ∷ []) ≡ value (0x80, [])
unfolding read_number read_digits get_u8
number_too_wide = refl

number_read : read_number (0x81 ∷ 172 ∷ 7 ∷ []) ≡ value (300, 7 ∷ [])
unfolding read_number read_digits get_u8
number_read = refl

get_words-put_words_example :
    get_words (put_words true 7 300 70_000 (2 ^ 63) ++ (9 ∷ []))
    ≡ value ((true, 7, 300, 70_000, 2 ^ 63), 9 ∷ [])
get_words-put_words_example =
    get_words-put_words true 7 300 70_000 (2 ^ 63) (9 ∷ []) (omega arith) (omega arith)
      (omega arith)

read_number-write_number_example :
    read_number (write_number [] 70_000 ++ (1 ∷ [])) ≡ value (70_000, 1 ∷ [])
read_number-write_number_example = read_number-write_number 70_000 (1 ∷ []) (omega arith)

read_number_truncated_example : read_number (0x83 ∷ 0x01 ∷ []) ≡ unexpected invalid_data
read_number_truncated_example =
    read_number_truncated 70_000 0x10 (0x83 ∷ 0x01 ∷ []) (0xF0 ∷ []) (omega arith) number_cut

read_number_takes_example : (300 < 2 ^ 64) × (1 < 3) × (3 ≤ 1 + 128)
read_number_takes_example =
    read_number_takes (0x81 ∷ 172 ∷ 7 ∷ []) 300 (7 ∷ []) (omega arith) number_read

get_string-put_string_example :
    get_string (put_string [] (104 ∷ 105 ∷ []) ++ (5 ∷ [])) ≡ value (104 ∷ 105 ∷ [], 5 ∷ [])
get_string-put_string_example = get_string-put_string (104 ∷ 105 ∷ []) (5 ∷ []) (omega arith)

get_buffer-put_buffer_example :
    get_buffer (put_buffer [] (1 ∷ 2 ∷ []) ++ (5 ∷ [])) ≡ value (1 ∷ 2 ∷ [], 5 ∷ [])
get_buffer-put_buffer_example = get_buffer-put_buffer (1 ∷ 2 ∷ []) (5 ∷ []) (omega arith)

pop_data-push_data_example :
    pop_data 1 true (push_data [] (1 ∷ 2 ∷ []) true ++ (5 ∷ [])) ≡ unexpected buffer_too_small
pop_data-push_data_example = (pop_data-push_data 1 (1 ∷ 2 ∷ []) (5 ∷ []) (omega arith)).0

abbrev names : List (List (List ℕ))
names = ((104 ∷ []) ∷ [] ∷ []) ∷ [] ∷ []

get_list-put_list_example :
    get_list
      (list_codec string_codec).get
      (put_list (list_codec string_codec).put [] names ++ (9 ∷ []))
    ≡ value (names, 9 ∷ [])
get_list-put_list_example =
    get_list-put_list (list_codec string_codec) names (9 ∷ []) (omega arith) (omega arith)

write_number-append_example :
    (write_number (7 ∷ []) 300 ≡ (7 ∷ []) ++ write_number [] 300)
    × (1 ≤ length (write_number [] 300))
    × (length (write_number [] 300) ≤ 9)
    × All IsByte (write_number [] 300)
write_number-append_example = write_number-append (7 ∷ []) 300 (omega arith)
