-- ===== src/Json/Parser/Scalars.antt =====
-- The states of kernel/vds_parser/json_parser.cpp inside a number or a text keep the invariant.
use vds.Common.{
  ℕ, ◌-◌, List, [], ◌∷◌, ◌++◌, Option, none, some, Bool, true, false, if◌then◌else◌, ◌==◌, ◌||◌,
  Error, unexpected_char, Expected, value, unexpected,
}
use vds.Encoding.{hex_digit}
use vds.Encoding.Utf8
use vds.Json.Tree.{json_primitive, text, integer}
use vds.Json.Parser.{
  State, array_item, object_item, number, object_property_name, string, string_backslesh,
  string_symbol_2, string_symbol_3, string_symbol_4, Parser, Outcome, next, again, failed, fault,
  final_string_property, final_integer_property,
}
use vds.Json.Parser.Literals
use vds.Json.Parser.Literals.{push_digit, is_digit, is_space}
use vds.Json.Parser.Shape.{
  InNumber, InText, IsValid, Fine, Good, next-Fine, failed-Fine, Fine-Good, Settled, Settled-Fine,
  if-Fine, if-Good,
}
use vds.Json.Parser.Safety.{start_property-Fine, final_property-Settled, add_item-Settled}

-- Behind a number: the item is finished, and the character given back.
pub step_back-Good : (ch : ℕ) (o : Outcome) → Settled o → Good (Literals.step_back ch o)
unfolding Literals.step_back Settled Good
step_back-Good ch (next p) h = either (ch == 10)
  where
    either :
        (b : Bool)
        → Good (
            again
              (if b then record p { line = p.line - 1 } else record p { column = p.column - 1 }))
    either true = h
    either false = h
step_back-Good ch (failed e) h = h
step_back-Good ch (again p) h = absurd h
step_back-Good ch fault h = absurd h

end_number :
    (p : Parser) (ch : ℕ) (saved : List State)
    → InNumber p.heap saved p.current_path p.current_object
    → Good (elim saved [
      | [] ↦ fault
      | s ∷ rest ↦ Literals.final_number (record p { state = s; saved_states = rest }) ch s
    ])
unfolding Literals.final_number Literals.add_integer final_integer_property
end_number p ch (array_item ∷ saved) h =
    step_back-Good ch _
      (add_item-Settled p (json_primitive p.line p.column p.buffer integer) saved h.0 h.1)
end_number p ch (object_item ∷ saved) h = step_back-Good ch _ (
    final_property-Settled p (json_primitive p.line p.column p.buffer integer) saved p.current_path
      h.0 h.1)
end_number p ch _ h = absurd h

pub on_number-Good :
    (p : Parser) (ch : ℕ)
    → InNumber p.heap p.saved_states p.current_path p.current_object
    → Good (Literals.on_number (record p { state = number }) ch)
unfolding Literals.on_number
on_number-Good p ch h =
    if-Good (is_digit ch || ch == b'.') _ _ (Fine-Good _ (next-Fine _ h))
      (end_number p ch p.saved_states h)

-- Behind a text: an item, a value, or the name of a property.
end_string :
    (p : Parser) (saved : List State)
    → InText p.heap saved p.current_path p.current_object
    → Fine (elim saved [
      | [] ↦ fault
      | s ∷ rest ↦ Literals.final_string (record p { state = s; saved_states = rest }) s
    ])
unfolding Literals.final_string Literals.add_primitive final_string_property
end_string p (array_item ∷ saved) h =
    Settled-Fine _ (add_item-Settled p (json_primitive p.line p.column p.buffer text) saved h.0 h.1)
end_string p (object_item ∷ saved) h = Settled-Fine _ (
    final_property-Settled p (json_primitive p.line p.column p.buffer text) saved p.current_path h.0
      h.1)
end_string p (object_property_name ∷ object_item ∷ saved) h =
    start_property-Fine p saved p.current_object h.0 h.1
end_string p _ h = absurd h

pub on_string-Fine :
    (p : Parser) (ch : ℕ)
    → InText p.heap p.saved_states p.current_path p.current_object
    → Fine (Literals.on_string (record p { state = string }) ch)
unfolding Literals.on_string
on_string-Fine p ch h =
    if-Fine (ch == b'\\') _ _ (next-Fine _ h)
      (if-Fine (ch == b'"') _ _ (end_string p p.saved_states h) (next-Fine _ h))

option_Fine :
    {A : Type 0} (o : Option A) (e : Error) (f : A → Parser)
    → ((x : A) → IsValid (f x))
    → Fine (elim o [ none ↦ failed e | some x ↦ next (f x) ])
option_Fine none e f h = failed-Fine e
option_Fine (some x) e f h = next-Fine (f x) (h x)

pub on_string_backslesh-Fine :
    (p : Parser) (ch : ℕ)
    → InText p.heap p.saved_states p.current_path p.current_object
    → Fine (Literals.on_string_backslesh (record p { state = string_backslesh }) ch)
unfolding Literals.on_string_backslesh
on_string_backslesh-Fine p ch h = if-Fine (ch == b'u') _ _ (next-Fine _ h) (
    option_Fine (Literals.escape ch) unexpected_char
      (λ c. record p { buffer = p.buffer ++ (c ∷ []); state = string }) (λ c. h))

pub on_string_symbol_1-Fine :
    (p : Parser) (ch : ℕ)
    → InText p.heap p.saved_states p.current_path p.current_object
    → Fine (Literals.on_string_symbol_1 p ch)
unfolding Literals.on_string_symbol_1
on_string_symbol_1-Fine p ch h =
    option_Fine (hex_digit ch) unexpected_char
      (λ d. record p { num_buffer = d; state = string_symbol_2 }) (λ d. h)

pub on_string_symbol_2-Fine :
    (p : Parser) (ch : ℕ)
    → InText p.heap p.saved_states p.current_path p.current_object
    → Fine (Literals.on_string_symbol string_symbol_3 p ch)
unfolding Literals.on_string_symbol
on_string_symbol_2-Fine p ch h =
    option_Fine (hex_digit ch) unexpected_char
      (λ d. record p { num_buffer = push_digit p.num_buffer d; state = string_symbol_3 }) (λ d. h)

pub on_string_symbol_3-Fine :
    (p : Parser) (ch : ℕ)
    → InText p.heap p.saved_states p.current_path p.current_object
    → Fine (Literals.on_string_symbol string_symbol_4 p ch)
unfolding Literals.on_string_symbol
on_string_symbol_3-Fine p ch h =
    option_Fine (hex_digit ch) unexpected_char
      (λ d. record p { num_buffer = push_digit p.num_buffer d; state = string_symbol_4 }) (λ d. h)

add_symbol :
    (p : Parser) (n : ℕ) (added : Expected (List ℕ))
    → InText p.heap p.saved_states p.current_path p.current_object
    → Fine (elim added [
      | unexpected e ↦ failed e
      | value buffer ↦ next (record p { num_buffer = n; buffer = buffer; state = string })
    ])
add_symbol p n (value buffer) h = next-Fine _ h
add_symbol p n (unexpected e) h = failed-Fine e

pub on_string_symbol_4-Fine :
    (p : Parser) (ch : ℕ)
    → InText p.heap p.saved_states p.current_path p.current_object
    → Fine (Literals.on_string_symbol_4 p ch)
unfolding Literals.on_string_symbol_4
on_string_symbol_4-Fine p ch h = symbol (hex_digit ch)
  where
    symbol :
        (o : Option ℕ)
        → Fine (elim o [
          | none ↦ failed unexpected_char
          | some d ↦ elim (Utf8.add p.buffer (push_digit p.num_buffer d)) [
            | unexpected e ↦ failed e
            | value buffer ↦ next (record p {
              num_buffer = push_digit p.num_buffer d;
              buffer = buffer;
              state = string;
            })
          ]
        ])
    symbol none = failed-Fine unexpected_char
    symbol (some d) =
        add_symbol p (push_digit p.num_buffer d) (Utf8.add p.buffer (push_digit p.num_buffer d)) h
