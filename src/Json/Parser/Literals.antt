-- ===== src/Json/Parser/Literals.antt =====
-- `write` of kernel/vds_parser/json_parser.cpp: the states inside a number or a text.
use vds.Common.{
  ℕ, ◌-◌, ◌*◌, ◌%◌, ◌^◌, [], ◌∷◌, ◌++◌, Option, none, some, Bool, ◌&&◌, ◌||◌, leb, ◌==◌,
  if◌then◌else◌, value, unexpected, unexpected_char,
}
use Prim.Native.Nat.{bit_or}
use vds.Encoding.{hex_digit}
use vds.Encoding.Utf8
use vds.Json.Tree.{json_primitive, text, integer, with_item}
use vds.Json.Parser.{
  State, array_item, object_item, object_property_name, string, string_backslesh, string_symbol_1,
  string_symbol_2, Parser, Outcome, next, again, failed, fault, make, start_property,
  final_string_property, final_integer_property,
}

-- `isspace` and `isdigit` in the C locale. The source calls them with a `char`, which is negative for a byte
-- from 128 on where `char` is signed: C leaves that undefined. The model takes it for neither, which is
-- what a table of the C locale that goes below 0 has.
abbrev pub is_space : ℕ → Bool
is_space ch = ch == 32 || (leb 9 ch && leb ch 13)

abbrev pub is_digit : ℕ → Bool
is_digit ch = leb b'0' ch && leb ch b'9'

-- The `default` of most states: white space is skipped.
unfoldable pub other_char : Parser → ℕ → Outcome
other_char p ch = if is_space ch then next p else failed unexpected_char

-- A primitive is added to the current array, and the buffer is cleared.
unfoldable pub add_primitive : Parser → Outcome
add_primitive p =
    make p (json_primitive p.line p.column p.buffer text) with_item
      λ heap new. next (record p { heap = heap; buffer = [] })

unfoldable pub add_integer : Parser → Outcome
add_integer p =
    make p (json_primitive p.line p.column p.buffer integer) with_item
      λ heap new. next (record p { heap = heap; buffer = [] })

-- The character behind a number is given back, and the position with it.
unfoldable pub step_back : ℕ → Outcome → Outcome
step_back ch (next p) =
    again (if ch == 10 then record p { line = p.line - 1 } else record p { column = p.column - 1 })
step_back ch o = o

unfoldable pub final_number : Parser → ℕ → State → Outcome
unfolding step_back add_integer
final_number p ch object_item = step_back ch (final_integer_property p)
final_number p ch array_item = step_back ch (add_integer p)
final_number p ch _ = failed unexpected_char

unfoldable pub on_number : Parser → ℕ → Outcome
unfolding final_number
on_number p ch =
    if is_digit ch || ch == b'.'
    then next (record p { buffer = p.buffer ++ (ch ∷ []) })
    else elim p.saved_states [
      | [] ↦ fault
      | s ∷ saved ↦ final_number (record p { state = s; saved_states = saved }) ch s
    ]

unfoldable pub final_string : Parser → State → Outcome
unfolding add_primitive
final_string p object_property_name = start_property p
final_string p object_item = final_string_property p
final_string p array_item = add_primitive p
final_string p _ = failed unexpected_char

unfoldable pub on_string : Parser → ℕ → Outcome
unfolding final_string
on_string p ch =
    if ch == b'\\'
    then next (record p { state = string_backslesh })
    else (if ch == b'"'
        then elim p.saved_states [
          | [] ↦ fault
          | s ∷ saved ↦ final_string (record p { state = s; saved_states = saved }) s
        ]
        else next (record p { buffer = p.buffer ++ (ch ∷ []) }))

-- The character that an escape stands for.
unfoldable pub escape : ℕ → Option ℕ
escape ch =
    if ch == b'"' || ch == b'\\'
    then some ch
    else (if ch == b'n'
        then some 10
        else (if ch == b'r'
            then some 13
            else (if ch == b'b'
                then some 8
                else (if ch == b't' then some 9 else (if ch == b'f' then some 12 else none)))))

unfoldable pub on_string_backslesh : Parser → ℕ → Outcome
on_string_backslesh p ch =
    if ch == b'u' then next (record p { state = string_symbol_1 }) else elim (escape ch) [
      | none ↦ failed unexpected_char
      | some c ↦ next (record p { buffer = p.buffer ++ (c ∷ []); state = string })
    ]

unfoldable pub on_string_symbol_1 : Parser → ℕ → Outcome
on_string_symbol_1 p ch = elim (hex_digit ch) [
  | none ↦ failed unexpected_char
  | some d ↦ next (record p { num_buffer = d; state = string_symbol_2 })
]

-- `num_buffer_ <<= 4`, then `num_buffer_ |= d`, on a `uint32_t`.
abbrev pub push_digit : ℕ → ℕ → ℕ
push_digit n d = bit_or (n * 2 ^ 4 % 2 ^ 32) d

unfoldable pub on_string_symbol : State → Parser → ℕ → Outcome
on_string_symbol following p ch = elim (hex_digit ch) [
  | none ↦ failed unexpected_char
  | some d ↦ next (record p { num_buffer = push_digit p.num_buffer d; state = following })
]

-- The last digit: the character is added to the text in UTF-8.
unfoldable pub on_string_symbol_4 : Parser → ℕ → Outcome
on_string_symbol_4 p ch = elim (hex_digit ch) [
  | none ↦ failed unexpected_char
  | some d ↦
      let n = push_digit p.num_buffer d in
      elim (Utf8.add p.buffer n) [
        | unexpected e ↦ failed e
        | value buffer ↦ next (record p { num_buffer = n; buffer = buffer; state = string })
      ]
]
