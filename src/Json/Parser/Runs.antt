-- ===== src/Json/Parser/Runs.antt =====
-- Runs of `write` and `parse` of kernel/vds_parser/json_parser.cpp on whole texts.
pub mod Examples
use vds.Common.{
  ℕ, zero, suc, ◌+◌, ◌-◌, ◌*◌, ◌/◌, ◌≡◌, refl, sym, ap, ◌∙◌, List, [], ◌∷◌, ◌++◌, Option, none,
  some, Bool, true, false, if◌then◌else◌, ◌==◌, Error, unexpected_char, unexpected_end_of_data,
}
use vds.Json.Parser.{
  State, bof, after_slesh, inline_comment, array, array_item, object, object_item, number,
  object_property_name, object_property_value, string, string_backslesh, string_symbol_1,
  string_symbol_2, string_symbol_3, string_symbol_4, eof, Parser, Outcome, next, again, failed,
  fault, Options, init,
}
use vds.Json.Parser.Steps.{
  count_position, dispatch, read_char, write_loop, final_data, write, default_options, parse,
}
use vds.Json.Parser.Shape.{
  AtRoot, Shape, IsValid, Between, Fine, Good, next-Fine, failed-Fine, if-Fine,
}
use vds.Json.Parser.NoFault.{dispatch-Good, dispatch-Fine}

-- Counting lines and columns changes nothing else.
count_position-keeps :
    (P : Parser → Type 0) (p : Parser) (ch : ℕ)
    → ((l c : ℕ) → P (record p { line = l; column = c }))
    → P (count_position p ch)
unfolding count_position
count_position-keeps P p ch h = newline (ch == 10) (ch == 9)
  where
    newline :
        (b t : Bool)
        → P (
            if b
            then record p { line = p.line + 1; column = 1 }
            else (if t
                then record p { column = 1 + (p.column + 7) / 8 * 8 }
                else record p { column = p.column + 1 }))
    newline true t = h (p.line + 1) 1
    newline false true = h p.line (1 + (p.column + 7) / 8 * 8)
    newline false false = h p.line (p.column + 1)

read_char-Good : (p : Parser) (ch : ℕ) → IsValid p → Good (read_char p ch)
unfolding read_char
read_char-Good p ch valid =
    count_position-keeps (λ q. Good (dispatch q.state q ch)) p ch
      λ l c. dispatch-Good p.state (record p { line = l; column = c }) ch valid

read_char-Fine : (p : Parser) (ch : ℕ) → Between p.state → IsValid p → Fine (read_char p ch)
unfolding read_char
read_char-Fine p ch between valid =
    count_position-keeps (λ q. Fine (dispatch q.state q ch)) p ch
      λ l c. dispatch-Fine p.state (record p { line = l; column = c }) ch between valid

second_round :
    (chs : List ℕ) (o : Outcome)
    → ((r : Parser) → IsValid r → Fine (write_loop r chs))
    → Fine o
    → Fine (elim o [
      | next r ↦ write_loop r chs
      | failed e ↦ failed e
      | fault ↦ fault
      | again r ↦ fault
    ])
unfolding Fine
second_round chs (next r) rest h = rest r h
second_round chs (failed e) rest h = h
second_round chs (again r) rest h = h
second_round chs fault rest h = h

first_round :
    (ch : ℕ) (chs : List ℕ) (o : Outcome)
    → ((r : Parser) → IsValid r → Fine (write_loop r chs))
    → Good o
    → Fine (elim o [
      | next q ↦ write_loop q chs
      | failed e ↦ failed e
      | fault ↦ fault
      | again q ↦ elim (read_char q ch) [
        | next r ↦ write_loop r chs
        | failed e ↦ failed e
        | fault ↦ fault
        | again r ↦ fault
      ]
    ])
unfolding Fine Good
first_round ch chs (next q) rest h = rest q h
first_round ch chs (failed e) rest h = h
first_round ch chs (again q) rest h =
    second_round chs (read_char q ch) rest (read_char-Fine q ch h.0 h.1)
first_round ch chs fault rest h = h

write_loop-Fine : (p : Parser) (chs : List ℕ) → IsValid p → Fine (write_loop p chs)
unfolding write_loop
write_loop-Fine p [] valid = next-Fine p valid
write_loop-Fine p (ch ∷ chs) valid =
    first_round ch chs (read_char p ch) (λ r v. write_loop-Fine r chs v) (read_char-Good p ch valid)

final_data-Fine :
    (p : Parser) (s : State)
    → IsValid (record p { state = s })
    → Fine (final_data (record p { state = s }))
unfolding final_data
final_data-Fine p bof valid =
    if-Fine p.options.enable_multi_root_objects _ _ (next-Fine _ valid)
      (failed-Fine unexpected_end_of_data)
final_data-Fine p eof valid = next-Fine _ valid
final_data-Fine p _ valid = failed-Fine unexpected_end_of_data

-- `write` on any characters, from a parser that satisfies the invariant, takes them all and keeps the
-- invariant, or returns a parse error: it never takes the top of an empty stack, never calls through
-- a null pointer or a wrong cast, and never gives a character back twice.
pub write-Fine : (p : Parser) (chs : List ℕ) → IsValid p → Fine (write p chs)
unfolding write
write-Fine p [] valid = final_data-Fine p p.state valid
write-Fine p (ch ∷ chs) valid = write_loop-Fine p (ch ∷ chs) valid

-- What `parse` may return: a parser that stands outside of every container, with nothing left on its
-- stacks, or a parse error.
abbrev pub AtEnd : State → Type 0
AtEnd bof = Unit {0}
AtEnd eof = Unit {0}
AtEnd _ = ⊥

unfoldable pub Answers : Outcome → Type 0
Answers (next p) = AtEnd p.state × ((p.saved_states ≡ []) × (p.current_path ≡ []))
Answers (failed e) = Unit {0}
Answers (again p) = ⊥
Answers fault = ⊥

at_root : (saved : List State) (path : List ℕ) → AtRoot saved path → (saved ≡ []) × (path ≡ [])
at_root [] [] h = (refl, refl)
at_root _ _ h = absurd h

if-Answers : (b : Bool) (x y : Outcome) → Answers x → Answers y → Answers (if b then x else y)
if-Answers true x y hx hy = hx
if-Answers false x y hx hy = hy

final_data-Answers :
    (p : Parser) (s : State)
    → IsValid (record p { state = s })
    → Answers (final_data (record p { state = s }))
unfolding final_data Answers
final_data-Answers p bof valid =
    let root = at_root p.saved_states p.current_path valid in
    if-Answers p.options.enable_multi_root_objects (next (record p { state = bof }))
      (failed unexpected_end_of_data) (tt, root) tt
final_data-Answers p eof valid = (tt, at_root p.saved_states p.current_path valid)
final_data-Answers p _ valid = tt

end_of_text : (o : Outcome) → Fine o → Answers (elim o [ next p ↦ write p [] | x ↦ x ])
unfolding Fine write Answers
end_of_text (next p) h = final_data-Answers p p.state h
end_of_text (failed e) h = h
end_of_text (again p) h = h
end_of_text fault h = h

-- `parse` of every text returns either with every container closed and both stacks empty, or with a parse
-- error. It never takes the top of an empty stack, never calls through a null pointer or a wrong cast, and
-- never gives a character back twice, which would be an endless loop. A byte from 128 on is taken for
-- neither white space nor a digit.
pub parse-Answers : (s : List ℕ) → Answers (parse s)
unfolding parse init
parse-Answers s =
    end_of_text (write (init default_options) s) (write-Fine (init default_options) s tt)
