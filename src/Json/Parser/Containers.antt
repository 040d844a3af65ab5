-- ===== src/Json/Parser/Containers.antt =====
-- The states of kernel/vds_parser/json_parser.cpp that open and close containers keep the invariant.
use vds.Common.{ℕ, List, [], ◌∷◌, ◌==◌, ◌||◌, unexpected_char}
use vds.Json.Tree.{json_object, json_array}
use vds.Json.Tree.Kinds.{is_object, is_array}
use vds.Json.Parser.{
  State, bof, inline_comment, array, array_item, object, object_item, object_property_name,
  object_property_value, Parser, Outcome, next, again, failed, fault, on_slesh, start_array,
  start_object, set_root,
}
use vds.Json.Parser.Steps
use vds.Json.Parser.Literals
use vds.Json.Parser.Literals.{push_digit, is_digit, is_space}
use vds.Json.Parser.Shape.{
  Current, Context, InProperty, InComment, AtRoot, IsValid, Fine, next-Fine, failed-Fine, if-Fine,
}
use vds.Json.Parser.Safety.{
  Opens, final_container-Fine, start_in_array-Fine, start_in_property-Fine, start_at_root-Fine,
}

pub set_root-Fine : (o : Outcome) → Fine o → Fine (set_root o)
unfolding set_root Fine
set_root-Fine (next p) h = h
set_root-Fine (failed e) h = h
set_root-Fine (again p) h = h
set_root-Fine fault h = h

pub other_char-Fine : (p : Parser) (ch : ℕ) → IsValid p → Fine (Literals.other_char p ch)
unfolding Literals.other_char
other_char-Fine p ch valid =
    if-Fine (is_space ch) (next p) (failed unexpected_char) (next-Fine p valid)
      (failed-Fine unexpected_char)

array_Opens : Opens array is_array
array_Opens heap saved path new ctx h = (ctx, h)

object_Opens : Opens object is_object
object_Opens heap saved path new ctx h = (ctx, h)

pub on_bof-Fine :
    (p : Parser) (ch : ℕ) (saved : List State) (path : List ℕ)
    → AtRoot saved path
    → Fine (Steps.on_bof (record p { state = bof; saved_states = saved; current_path = path }) ch)
unfolding Steps.on_bof on_slesh start_array start_object
on_bof-Fine p ch [] [] h =
    let q = record p { state = bof; saved_states = []; current_path = [] } in
    if-Fine _ _ _ (if-Fine _ _ _ (next-Fine _ tt) (failed-Fine _)) (
      if-Fine _ _ _
        (set_root-Fine _ (start_at_root-Fine p (json_array p.line p.column []) array array_Opens))
        (if-Fine _ _ _
          (set_root-Fine _
            (start_at_root-Fine p (json_object p.line p.column []) object object_Opens))
          (other_char-Fine q ch tt)))
on_bof-Fine p ch _ _ h = absurd h

pub on_after_slesh-Fine :
    (p : Parser) (ch : ℕ)
    → InComment p.heap p.saved_states p.current_path p.current_object
    → Fine (Steps.on_after_slesh p ch)
unfolding Steps.on_after_slesh
on_after_slesh-Fine p ch h = if-Fine _ _ _ (next-Fine _ h) (failed-Fine _)

-- A comment gives the state back that it was opened in.
close_comment :
    (p : Parser) (saved : List State) (path : List ℕ)
    → InComment p.heap saved path p.current_object
    → Fine (elim saved [
      | [] ↦ fault
      | s ∷ rest ↦ next (record p { state = s; saved_states = rest; current_path = path })
    ])
unfolding Fine
close_comment p (bof ∷ []) [] h = tt
close_comment p (array ∷ saved) path h = h
close_comment p _ _ h = absurd h

pub on_inline_comment-Fine :
    (p : Parser) (ch : ℕ)
    → InComment p.heap p.saved_states p.current_path p.current_object
    → Fine (Steps.on_inline_comment (record p { state = inline_comment }) ch)
unfolding Steps.on_inline_comment
on_inline_comment-Fine p ch h =
    if-Fine _ _ _ (close_comment p p.saved_states p.current_path h) (next-Fine _ h)

pub on_array-Fine :
    (p : Parser) (ch : ℕ)
    → Context p.heap p.saved_states p.current_path × Current p.heap p.current_object is_array
    → Fine (Steps.on_array (record p { state = array }) ch)
unfolding Steps.on_array on_slesh start_array start_object
on_array-Fine p ch h =
    if-Fine (ch == b']') _ _
      (final_container-Fine (record p { state = array }) p.saved_states p.current_path h.0)
      (if-Fine (ch == b'[') _ _
        (start_in_array-Fine p (json_array p.line p.column []) array p.current_object array_Opens
          h.0 h.1)
        (if-Fine (ch == b'{') _ _
          (start_in_array-Fine p (json_object p.line p.column []) object p.current_object
            object_Opens h.0 h.1)
          (if-Fine (ch == b'/') _ _
            (if-Fine (p.options.enable_inline_comments) _ _ (next-Fine _ h) (failed-Fine _))
            (if-Fine (ch == b'"') _ _ (next-Fine _ h) (
              if-Fine (is_digit ch) _ _ (next-Fine _ h)
                (other_char-Fine (record p { state = array }) ch h))))))

pub on_array_item-Fine :
    (p : Parser) (ch : ℕ)
    → Context p.heap p.saved_states p.current_path × Current p.heap p.current_object is_array
    → Fine (Steps.on_array_item (record p { state = array_item }) ch)
unfolding Steps.on_array_item
on_array_item-Fine p ch h =
    if-Fine (ch == b']') _ _
      (final_container-Fine (record p { state = array_item }) p.saved_states p.current_path h.0)
      (if-Fine (ch == b',') _ _ (next-Fine _ h)
        (other_char-Fine (record p { state = array_item }) ch h))

pub on_object-Fine :
    (p : Parser) (ch : ℕ)
    → Context p.heap p.saved_states p.current_path × Current p.heap p.current_object is_object
    → Fine (Steps.on_object (record p { state = object }) ch)
unfolding Steps.on_object
on_object-Fine p ch h = if-Fine (ch == b'"') _ _ (next-Fine _ h) (
    if-Fine (ch == b'}') _ _
      (final_container-Fine (record p { state = object }) p.saved_states p.current_path h.0)
      (other_char-Fine (record p { state = object }) ch h))

pub on_object_item-Fine :
    (p : Parser) (ch : ℕ)
    → Context p.heap p.saved_states p.current_path × Current p.heap p.current_object is_object
    → Fine (Steps.on_object_item (record p { state = object_item }) ch)
unfolding Steps.on_object_item
on_object_item-Fine p ch h =
    if-Fine (ch == b'}') _ _
      (final_container-Fine (record p { state = object_item }) p.saved_states p.current_path h.0)
      (if-Fine (ch == b',') _ _ (next-Fine _ h)
        (other_char-Fine (record p { state = object_item }) ch h))

pub on_property_name-Fine :
    (p : Parser) (ch : ℕ)
    → InProperty p.heap p.saved_states p.current_path p.current_object
    → Fine (Steps.on_property_name (record p { state = object_property_name }) ch)
unfolding Steps.on_property_name
on_property_name-Fine p ch h =
    if-Fine (ch == b':') _ _ (next-Fine _ h)
      (other_char-Fine (record p { state = object_property_name }) ch h)

pub on_property_value-Fine :
    (p : Parser) (ch : ℕ) (saved : List State)
    → InProperty p.heap saved p.current_path p.current_object
    → Fine (
        Steps.on_property_value
          (record p { state = object_property_value; saved_states = saved })
          ch)
unfolding Steps.on_property_value start_array start_object
on_property_value-Fine p ch (object_item ∷ saved) h =
    let q = record p { saved_states = object_item ∷ saved } in
    if-Fine (ch == b'"') _ _ (next-Fine _ h) (
      if-Fine (ch == b'{') _ _
        (start_in_property-Fine q (json_object p.line p.column []) object object_Opens h.0 h.1)
        (if-Fine (ch == b'[') _ _
          (start_in_property-Fine q (json_array p.line p.column []) array array_Opens h.0 h.1)
          (if-Fine (ch == b'+' || ch == b'-' || is_digit ch) _ _ (next-Fine _ h)
            (other_char-Fine (record q { state = object_property_value }) ch h))))
on_property_value-Fine p ch _ h = absurd h
