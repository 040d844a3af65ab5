-- ===== src/Json/Parser/NoFault.antt =====
-- No step of kernel/vds_parser/json_parser.cpp runs into undefined behaviour, on any input.
use vds.Common.{ℕ, unexpected_char}
use vds.Json.Parser.{
  State, bof, after_slesh, inline_comment, array, array_item, object, object_item, number,
  object_property_name, object_property_value, string, string_backslesh, string_symbol_1,
  string_symbol_2, string_symbol_3, string_symbol_4, eof, Parser,
}
use vds.Json.Parser.Steps
use vds.Json.Parser.Shape.{Shape, Fine, Good, Between, failed-Fine, Fine-Good}
use vds.Json.Parser.Containers.{
  on_bof-Fine, on_after_slesh-Fine, on_inline_comment-Fine, on_array-Fine, on_array_item-Fine,
  on_object-Fine, on_object_item-Fine, on_property_name-Fine, on_property_value-Fine,
}
use vds.Json.Parser.Scalars.{
  on_number-Good, on_string-Fine, on_string_backslesh-Fine, on_string_symbol_1-Fine,
  on_string_symbol_2-Fine, on_string_symbol_3-Fine, on_string_symbol_4-Fine,
}

pub dispatch-Good :
    (s : State) (p : Parser) (ch : ℕ)
    → Shape s p.heap p.saved_states p.current_path p.current_object
    → Good (Steps.dispatch s (record p { state = s }) ch)
unfolding Steps.dispatch
dispatch-Good bof p ch h = Fine-Good _ (on_bof-Fine p ch p.saved_states p.current_path h)
dispatch-Good after_slesh p ch h =
    Fine-Good _ (on_after_slesh-Fine (record p { state = after_slesh }) ch h)
dispatch-Good inline_comment p ch h = Fine-Good _ (on_inline_comment-Fine p ch h)
dispatch-Good array p ch h = Fine-Good _ (on_array-Fine p ch h)
dispatch-Good array_item p ch h = Fine-Good _ (on_array_item-Fine p ch h)
dispatch-Good object p ch h = Fine-Good _ (on_object-Fine p ch h)
dispatch-Good object_item p ch h = Fine-Good _ (on_object_item-Fine p ch h)
dispatch-Good number p ch h = on_number-Good p ch h
dispatch-Good object_property_name p ch h = Fine-Good _ (on_property_name-Fine p ch h)
dispatch-Good object_property_value p ch h =
    Fine-Good _ (on_property_value-Fine p ch p.saved_states h)
dispatch-Good string p ch h = Fine-Good _ (on_string-Fine p ch h)
dispatch-Good string_backslesh p ch h = Fine-Good _ (on_string_backslesh-Fine p ch h)
dispatch-Good string_symbol_1 p ch h =
    Fine-Good _ (on_string_symbol_1-Fine (record p { state = string_symbol_1 }) ch h)
dispatch-Good string_symbol_2 p ch h =
    Fine-Good _ (on_string_symbol_2-Fine (record p { state = string_symbol_2 }) ch h)
dispatch-Good string_symbol_3 p ch h =
    Fine-Good _ (on_string_symbol_3-Fine (record p { state = string_symbol_3 }) ch h)
dispatch-Good string_symbol_4 p ch h =
    Fine-Good _ (on_string_symbol_4-Fine (record p { state = string_symbol_4 }) ch h)
dispatch-Good eof p ch h = Fine-Good _ (failed-Fine unexpected_char)

-- A character behind a number is not given back again.
pub dispatch-Fine :
    (s : State) (p : Parser) (ch : ℕ)
    → Between s
    → Shape s p.heap p.saved_states p.current_path p.current_object
    → Fine (Steps.dispatch s (record p { state = s }) ch)
unfolding Steps.dispatch
dispatch-Fine array_item p ch between h = on_array_item-Fine p ch h
dispatch-Fine object_item p ch between h = on_object_item-Fine p ch h
dispatch-Fine _ p ch between h = absurd between
