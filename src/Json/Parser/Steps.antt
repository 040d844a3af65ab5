-- ===== src/Json/Parser/Steps.antt =====
-- `write` of kernel/vds_parser/json_parser.cpp: what each state does with a character.
use vds.Common.{
  ℕ, ◌+◌, ◌*◌, ◌/◌, List, [], ◌∷◌, ◌++◌, false, ◌||◌, ◌==◌, if◌then◌else◌, unexpected_char,
  unexpected_end_of_data,
}
use vds.Json.Parser.{
  State, bof, after_slesh, inline_comment, array, array_item, object, object_item, number,
  object_property_name, object_property_value, string, string_backslesh, string_symbol_1,
  string_symbol_2, string_symbol_3, string_symbol_4, eof, Options, Parser, Outcome, next, again,
  failed, fault, init, start_array, start_object, final_container, on_slesh, set_root,
}
use vds.Json.Parser.Literals.{
  is_digit, other_char, on_number, on_string, on_string_backslesh, on_string_symbol_1,
  on_string_symbol, on_string_symbol_4,
}

unfoldable pub on_bof : Parser → ℕ → Outcome
unfolding other_char
on_bof p ch =
    if ch == b'/'
    then on_slesh p
    else (if ch == b'['
        then set_root (start_array p)
        else (if ch == b'{' then set_root (start_object p) else other_char p ch))

unfoldable pub on_after_slesh : Parser → ℕ → Outcome
on_after_slesh p ch =
    if ch == b'/' then next (record p { state = inline_comment }) else failed unexpected_char

unfoldable pub on_inline_comment : Parser → ℕ → Outcome
on_inline_comment p ch =
    if ch == 10
    then elim p.saved_states [
      | [] ↦ fault
      | s ∷ saved ↦ next (record p { state = s; saved_states = saved })
    ]
    else next p

unfoldable pub on_array : Parser → ℕ → Outcome
unfolding other_char
on_array p ch =
    if ch == b']'
    then final_container p
    else (if ch == b'['
        then start_array p
        else (if ch == b'{'
            then start_object p
            else (if ch == b'/'
                then on_slesh p
                else (if ch == b'"'
                    then next
                        (record p { saved_states = array_item ∷ p.saved_states; state = string })
                    else (if is_digit ch
                        then next (record p {
                          buffer = ch ∷ [];
                          saved_states = array_item ∷ p.saved_states;
                          state = number;
                        })
                        else other_char p ch)))))

unfoldable pub on_array_item : Parser → ℕ → Outcome
unfolding other_char
on_array_item p ch =
    if ch == b']'
    then final_container p
    else (if ch == b',' then next (record p { state = array }) else other_char p ch)

unfoldable pub on_object : Parser → ℕ → Outcome
unfolding other_char
on_object p ch =
    if ch == b'"'
    then next (record p {
      saved_states = object_property_name ∷ object_item ∷ p.saved_states;
      state = string;
    })
    else (if ch == b'}' then final_container p else other_char p ch)

unfoldable pub on_object_item : Parser → ℕ → Outcome
unfolding other_char
on_object_item p ch =
    if ch == b'}'
    then final_container p
    else (if ch == b',' then next (record p { state = object }) else other_char p ch)

unfoldable pub on_property_name : Parser → ℕ → Outcome
unfolding other_char
on_property_name p ch =
    if ch == b':' then next (record p { state = object_property_value }) else other_char p ch

unfoldable pub on_property_value : Parser → ℕ → Outcome
unfolding other_char
on_property_value p ch =
    if ch == b'"'
    then next (record p { state = string })
    else (if ch == b'{'
        then start_object p
        else (if ch == b'['
            then start_array p
            else (if ch == b'+' || ch == b'-' || is_digit ch
                then next (record p { state = number; buffer = p.buffer ++ (ch ∷ []) })
                else other_char p ch)))

-- The line and column are counted first.
unfoldable pub count_position : Parser → ℕ → Parser
count_position p ch =
    if ch == 10
    then record p { line = p.line + 1; column = 1 }
    else (if ch == 9
        then record p { column = 1 + (p.column + 7) / 8 * 8 }
        else record p { column = p.column + 1 })

unfoldable pub dispatch : State → Parser → ℕ → Outcome
dispatch bof p ch = on_bof p ch
dispatch after_slesh p ch = on_after_slesh p ch
dispatch inline_comment p ch = on_inline_comment p ch
dispatch array p ch = on_array p ch
dispatch array_item p ch = on_array_item p ch
dispatch object p ch = on_object p ch
dispatch object_item p ch = on_object_item p ch
dispatch number p ch = on_number p ch
dispatch object_property_name p ch = on_property_name p ch
dispatch object_property_value p ch = on_property_value p ch
dispatch string p ch = on_string p ch
dispatch string_backslesh p ch = on_string_backslesh p ch
dispatch string_symbol_1 p ch = on_string_symbol_1 p ch
dispatch string_symbol_2 p ch = on_string_symbol string_symbol_3 p ch
dispatch string_symbol_3 p ch = on_string_symbol string_symbol_4 p ch
dispatch string_symbol_4 p ch = on_string_symbol_4 p ch
dispatch eof p ch = failed unexpected_char

-- One round of the loop.
unfoldable pub read_char : Parser → ℕ → Outcome
unfolding count_position dispatch
read_char p ch = let q = count_position p ch in dispatch q.state q ch

-- The loop. A character that was given back is read in the next round; a second time in a row would
-- be a loop without end, which is a fault here.
unfoldable pub write_loop : Parser → List ℕ → Outcome
write_loop p [] = next p
write_loop p (ch ∷ chs) = elim (read_char p ch) [
  | next q ↦ write_loop q chs
  | failed e ↦ failed e
  | fault ↦ fault
  | again q ↦ elim (read_char q ch) [
    | next r ↦ write_loop r chs
    | failed e ↦ failed e
    | fault ↦ fault
    | again r ↦ fault
  ]
]

unfoldable pub final_data : Parser → Outcome
final_data p = elim p.state [
  | eof ↦ next p
  | bof ↦ if p.options.enable_multi_root_objects then next p else failed unexpected_end_of_data
  | _ ↦ failed unexpected_end_of_data
]

-- `write(nullptr, 0)` ends the data.
unfoldable pub write : Parser → List ℕ → Outcome
unfolding write_loop final_data
write p [] = final_data p
write p (ch ∷ chs) = write_loop p (ch ∷ chs)

abbrev pub default_options : Options
default_options = record { enable_inline_comments = false; enable_multi_root_objects = false }

-- `parse`: the whole text, then the end; a text of no bytes ends the data twice.
unfoldable pub parse : List ℕ → Outcome
unfolding write init
parse s = elim (write (init default_options) s) [ next p ↦ write p [] | o ↦ o ]
