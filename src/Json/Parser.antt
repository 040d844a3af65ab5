-- ===== src/Json/Parser.antt =====
-- kernel/vds_parser/json_parser.cpp: the state machine, one function for each `case` of `write`.
pub mod Literals
pub mod Steps
pub mod Shape
pub mod Safety
pub mod Containers
pub mod Scalars
pub mod NoFault
pub mod Runs
pub mod Texts
use vds.Common.{
  ℕ, zero, suc, ◌+◌, ◌-◌, ◌*◌, ◌/◌, ◌%◌, ◌^◌, List, [], ◌∷◌, ◌++◌, Option, none, some, length, Bool,
  true, false, ◌&&◌, ◌||◌, leb, ◌==◌, if◌then◌else◌, Expected, value, unexpected, Error,
  unexpected_char, unexpected_state, unexpected_end_of_data,
}
use vds.Encoding.{hex_digit}
use vds.Encoding.Utf8
use vds.Json.Tree.{
  Node, json_primitive, json_property, json_object, json_array, text, integer, with_item,
  with_property, with_value, call,
}

pub data State : Type 0 where
  bof after_slesh inline_comment array array_item object object_item number : State
  object_property_name object_property_value string string_backslesh : State
  string_symbol_1 string_symbol_2 string_symbol_3 string_symbol_4 eof : State

pub record Options : Type 0 where
  pub enable_inline_comments : Bool
  pub enable_multi_root_objects : Bool

-- `results` are the roots that were handed to the callback `result_`, which takes each and reports no
-- error, as the one in `parse` does. `heap` are the nodes that were made.
pub record Parser : Type 0 where
  pub options : Options
  pub state : State
  pub saved_states : List State
  pub root_object : Option ℕ
  pub current_path : List ℕ
  pub current_object : Option ℕ
  pub line : ℕ
  pub column : ℕ
  pub buffer : List ℕ
  pub num_buffer : ℕ
  pub heap : List Node
  pub results : List (Option ℕ)

-- What a step does: it takes the character, or leaves it to be read again, or returns a parse error.
-- `fault` is undefined behaviour: the top of an empty stack, a cast to a wrong class, a null pointer.
pub data Outcome : Type 0 where
  next : Parser → Outcome
  again : Parser → Outcome
  failed : Error → Outcome
  fault : Outcome

unfoldable pub init : Options → Parser
init o = record {
  options = o;
  state = bof;
  saved_states = [];
  root_object = none;
  current_path = [];
  current_object = none;
  line = 1;
  column = 1;
  buffer = [];
  num_buffer = 0;
  heap = [];
  results = [];
}

-- A new node, and a method called on the current object with it.
abbrev make : Parser → Node → (ℕ → Node → Option Node) → (List Node → ℕ → Outcome) → Outcome
make p node method rest =
    let new = length p.heap in
    elim (call (method new) (p.heap ++ (node ∷ [])) p.current_object) [
      | none ↦ fault
      | some heap ↦ rest heap new
    ]

-- `start_array` and `start_object` differ in the node and in the state that follows.
unfoldable pub start_container : Parser → Node → State → Outcome
start_container p node opened = elim p.state [
  | object_property_value ↦
      make p node with_value
        λ heap new. next (record p { heap = heap; current_object = some new; state = opened })
  | bof ↦ next (record p {
    heap = p.heap ++ (node ∷ []);
    saved_states = bof ∷ p.saved_states;
    current_object = some (length p.heap);
    state = opened;
  })
  | array ↦ make p node with_item λ heap new. elim p.current_object [
    | none ↦ fault
    | some a ↦ next (record p {
      heap = heap;
      saved_states = array_item ∷ p.saved_states;
      current_path = a ∷ p.current_path;
      current_object = some new;
      state = opened;
    })
  ]
  | _ ↦ failed unexpected_state
]

unfoldable pub start_array : Parser → Outcome
unfolding start_container
start_array p = start_container p (json_array p.line p.column []) array

unfoldable pub start_object : Parser → Outcome
unfolding start_container
start_object p = start_container p (json_object p.line p.column []) object

-- The node on top of `current_path` becomes the current object.
unfoldable pub pop_path : Parser → Outcome
pop_path p = elim p.current_path [
  | [] ↦ fault
  | o ∷ path ↦ next (record p { current_object = some o; current_path = path })
]

-- `final_array` and `final_object`.
unfoldable pub final_container : Parser → Outcome
unfolding pop_path
final_container p = elim p.saved_states [
  | [] ↦ fault
  | bof ∷ saved ↦ next (record p {
    state = if p.options.enable_multi_root_objects then bof else eof;
    saved_states = saved;
    results = p.results ++ (p.root_object ∷ []);
  })
  | s ∷ saved ↦ pop_path (record p { state = s; saved_states = saved })
]

unfoldable pub on_slesh : Parser → Outcome
on_slesh p =
    if p.options.enable_inline_comments
    then next (record p { saved_states = p.state ∷ p.saved_states; state = after_slesh })
    else failed unexpected_char

-- The root object is set once the outermost container has been started.
unfoldable pub set_root : Outcome → Outcome
set_root (next p) = next (record p { root_object = p.current_object })
set_root o = o

unfoldable pub start_property : Parser → Outcome
start_property p = make p (json_property p.line p.column p.buffer none) with_property λ heap new.
    elim p.current_object [
      | none ↦ fault
      | some o ↦ next (record p {
        heap = heap;
        current_path = o ∷ p.current_path;
        current_object = some new;
        buffer = [];
      })
    ]

unfoldable pub final_string_property : Parser → Outcome
unfolding pop_path
final_string_property p =
    make p (json_primitive p.line p.column p.buffer text) with_value
      λ heap new. pop_path (record p { heap = heap; buffer = [] })

unfoldable pub final_integer_property : Parser → Outcome
unfolding pop_path
final_integer_property p =
    make p (json_primitive p.line p.column p.buffer integer) with_value
      λ heap new. pop_path (record p { heap = heap; buffer = [] })
