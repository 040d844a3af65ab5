-- ===== src/Json/Parser/Texts.antt =====
-- A quoted text in an array, read by `write` of kernel/vds_parser/json_parser.cpp.
mod Examples
use vds.Common.{
  ℕ, zero, suc, ◌+◌, ◌*◌, ◌/◌, ◌≡◌, refl, sym, ap, ◌∙◌, arith, List, [], ◌∷◌, ◌++◌, Option, none,
  some, get_elem?, set, Bool, true, false, if◌then◌else◌, ◌==◌, length, All,
}
use mathlib.Core.List.{append_assoc, append-nil}
use vds.Json.Tree.{Node, json_primitive, json_array, text, call, with_item}
use vds.Json.Parser.{State, array, array_item, string, Parser, Outcome, next, again, failed, fault}
use vds.Json.Parser.Steps.{count_position, dispatch, read_char, write_loop, write, on_array}
use vds.Json.Parser.Literals.{on_string, final_string, add_primitive}

-- Neither a quote nor a backslash.
abbrev pub IsPlain : ℕ → Type 0
IsPlain ch = ((ch == b'"') ≡ false) × ((ch == b'\\') ≡ false)

-- The position behind a character.
abbrev At : Parser → ℕ → Type 0
At p ch = (l : ℕ) × (c : ℕ) × (count_position p ch ≡ record p { line = l; column = c })

position : (p : Parser) (ch : ℕ) → At p ch
unfolding count_position
position p ch = newline (ch == 10) (ch == 9)
  where
    newline :
        (b t : Bool)
        → (l : ℕ) × (c : ℕ) × ((if b
              then record p { line = p.line + 1; column = 1 }
              else (if t
                  then record p { column = 1 + (p.column + 7) / 8 * 8 }
                  else record p { column = p.column + 1 }))
            ≡ record p { line = l; column = c })
    newline true t = (p.line + 1, 1, refl)
    newline false true = (p.line, 1 + (p.column + 7) / 8 * 8, refl)
    newline false false = (p.line, p.column + 1, refl)

read_plain :
    (p : Parser) (ch : ℕ)
    → IsPlain ch
    → (l : ℕ) × (c : ℕ) × (read_char (record p { state = string }) ch
        ≡ next (record p { state = string; line = l; column = c; buffer = p.buffer ++ (ch ∷ []) }))
unfolding read_char dispatch on_string
read_plain p ch plain =
    let (l, c, e) = position (record p { state = string }) ch in
    (l, c, rw (e) (rw (plain.0, plain.1) refl))

read_text :
    (p : Parser) (chs : List ℕ)
    → All IsPlain chs
    → (l : ℕ) × (c : ℕ) × ((rest : List ℕ)
        → write_loop (record p { state = string }) (chs ++ rest)
          ≡ write_loop
              (record p { state = string; line = l; column = c; buffer = p.buffer ++ chs })
              rest)
unfolding write_loop
read_text p [] plain = (p.line, p.column, λ rest. rw (append-nil p.buffer) refl)
read_text p (ch ∷ chs) plain =
    let (l, c, e) = read_plain p ch plain.0 in
    let (l', c', e') =
      read_text (record p { line = l; column = c; buffer = p.buffer ++ (ch ∷ []) }) chs plain.1 in
    (l', c', λ rest. rw (e, write_loop) (e' rest ∙ rw (append_assoc p.buffer (ch ∷ []) chs) refl))

get_elem?-grown :
    (heap : List Node) (n m : Node) (i : ℕ)
    → get_elem? heap i ≡ some m
    → get_elem? (heap ++ (n ∷ [])) i ≡ some m
get_elem?-grown [] n m i h = cc
get_elem?-grown (x ∷ heap) n m zero h = h
get_elem?-grown (x ∷ heap) n m (suc i) h = get_elem?-grown heap n m i h

-- The closing quote: the text becomes an item of the array.
read_closing :
    (p : Parser) (saved : List State) (a line column : ℕ) (items : List ℕ)
    → get_elem? p.heap a ≡ some (json_array line column items)
    → read_char
        (record p { state = string; saved_states = array_item ∷ saved; current_object = some a })
        b'"'
      ≡ next (record p {
        state = array_item;
        saved_states = saved;
        current_object = some a;
        column = p.column + 1;
        buffer = [];
        heap =
            set
              (p.heap ++ (json_primitive p.line (p.column + 1) p.buffer text ∷ []))
              a
              (json_array line column (items ++ (length p.heap ∷ [])));
      })
unfolding read_char dispatch on_string final_string add_primitive call with_item count_position
read_closing p saved a line column items h =
    let new = json_primitive p.line (p.column + 1) p.buffer text in
    rw (get_elem?-grown p.heap new (json_array line column items) a h) refl

-- Inside an array, a quoted text of bytes other than the quote and the backslash is read whole: a
-- primitive with these bytes (behind what the buffer held) is made and becomes the last item of the
-- array, the buffer is cleared, and the stacks are as before.
pub write-quoted_text :
    (p : Parser) (chs : List ℕ) (a line column : ℕ) (items : List ℕ)
    → All IsPlain chs
    → get_elem? p.heap a ≡ some (json_array line column items)
    → (l : ℕ) × (c : ℕ) × (write
          (record p { state = array; current_object = some a })
          (b'"' ∷ (chs ++ (b'"' ∷ [])))
        ≡ next (record p {
          state = array_item;
          current_object = some a;
          line = l;
          column = c;
          buffer = [];
          heap =
              set
                (p.heap ++ (json_primitive l c (p.buffer ++ chs) text ∷ []))
                a
                (json_array line column (items ++ (length p.heap ∷ [])));
        }))
unfolding write write_loop read_char dispatch on_array count_position
write-quoted_text p chs a line column items plain h =
    let inside = record p {
      column = p.column + 1;
      saved_states = array_item ∷ p.saved_states;
      current_object = some a;
    } in
    let (l, c, e) = read_text inside chs plain in
    let behind = record p { line = l; column = c; buffer = p.buffer ++ chs } in
    let closing = read_closing behind p.saved_states a line column items h in
    (l, c + 1, e (b'"' ∷ []) ∙ rw (closing, write_loop) refl)
