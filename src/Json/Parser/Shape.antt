-- ===== src/Json/Parser/Shape.antt =====
-- The invariant of kernel/vds_parser/json_parser.cpp: how the state, the saved states, the path and the
-- current object fit together.
use vds.Common.{
  ℕ, ◌≡◌, refl, ap, ◌∙◌, List, [], ◌∷◌, ◌++◌, Option, none, some, length, Bool, true, false,
  if◌then◌else◌, Error,
}
use vds.Json.Tree.{Node, call}
use vds.Json.Tree.Kinds.{
  Kind, is_property, is_object, is_array, kind, kind_at, Keeps, WorksOn, kind_at-append,
  kind_at-length, call-Keeps,
}
use vds.Json.Parser.{
  State, bof, after_slesh, inline_comment, array, array_item, object, object_item, number,
  object_property_name, object_property_value, string, string_backslesh, string_symbol_1,
  string_symbol_2, string_symbol_3, string_symbol_4, eof, Parser, Outcome, next, again, failed,
  fault, make,
}

-- The current object is there, and of the class.
abbrev pub Current : List Node → Option ℕ → Kind → Type 0
Current heap none k = ⊥
Current heap (some i) k = kind_at heap i ≡ some k

-- The containers around the current one: for each a saved state to go on with, and the container
-- itself on the path.
abbrev pub Context : List Node → List State → List ℕ → Type 0
Context heap (bof ∷ []) [] = Unit {0}
Context heap (array_item ∷ saved) (a ∷ path) =
    (kind_at heap a ≡ some is_array) × Context heap saved path
Context heap (object_item ∷ saved) (o ∷ path) =
    (kind_at heap o ≡ some is_object) × Context heap saved path
Context heap _ _ = ⊥

-- Inside a property that waits for its value.
abbrev pub InProperty : List Node → List State → List ℕ → Option ℕ → Type 0
InProperty heap (object_item ∷ saved) path c =
    Context heap (object_item ∷ saved) path × Current heap c is_property
InProperty heap _ path c = ⊥

-- Inside a number: an item of an array, or the value of a property.
abbrev pub InNumber : List Node → List State → List ℕ → Option ℕ → Type 0
InNumber heap (array_item ∷ saved) path c = Context heap saved path × Current heap c is_array
InNumber heap (object_item ∷ saved) path c =
    Context heap (object_item ∷ saved) path × Current heap c is_property
InNumber heap _ path c = ⊥

-- Inside a text: as a number, or the name of a property.
abbrev pub InText : List Node → List State → List ℕ → Option ℕ → Type 0
InText heap (object_property_name ∷ object_item ∷ saved) path c =
    Context heap saved path × Current heap c is_object
InText heap (array_item ∷ saved) path c = Context heap saved path × Current heap c is_array
InText heap (object_item ∷ saved) path c =
    Context heap (object_item ∷ saved) path × Current heap c is_property
InText heap _ path c = ⊥

-- Inside a comment, before the root or between the items of an array.
abbrev pub InComment : List Node → List State → List ℕ → Option ℕ → Type 0
InComment heap (bof ∷ []) [] c = Unit {0}
InComment heap (array ∷ saved) path c = Context heap saved path × Current heap c is_array
InComment heap _ path c = ⊥

-- Outside of every container.
abbrev pub AtRoot : List State → List ℕ → Type 0
AtRoot [] [] = Unit {0}
AtRoot _ _ = ⊥

abbrev pub Shape : State → List Node → List State → List ℕ → Option ℕ → Type 0
Shape bof heap saved path c = AtRoot saved path
Shape eof heap saved path c = AtRoot saved path
Shape after_slesh heap saved path c = InComment heap saved path c
Shape inline_comment heap saved path c = InComment heap saved path c
Shape array heap saved path c = Context heap saved path × Current heap c is_array
Shape array_item heap saved path c = Context heap saved path × Current heap c is_array
Shape object heap saved path c = Context heap saved path × Current heap c is_object
Shape object_item heap saved path c = Context heap saved path × Current heap c is_object
Shape number heap saved path c = InNumber heap saved path c
Shape object_property_name heap saved path c = InProperty heap saved path c
Shape object_property_value heap saved path c = InProperty heap saved path c
Shape string heap saved path c = InText heap saved path c
Shape string_backslesh heap saved path c = InText heap saved path c
Shape string_symbol_1 heap saved path c = InText heap saved path c
Shape string_symbol_2 heap saved path c = InText heap saved path c
Shape string_symbol_3 heap saved path c = InText heap saved path c
Shape string_symbol_4 heap saved path c = InText heap saved path c

abbrev pub IsValid : Parser → Type 0
IsValid p = Shape p.state p.heap p.saved_states p.current_path p.current_object

-- The character was taken and the invariant holds, or a parse error was returned.
unfoldable pub Fine : Outcome → Type 0
Fine (next p) = IsValid p
Fine (failed e) = Unit {0}
Fine (again p) = ⊥
Fine fault = ⊥

abbrev pub Between : State → Type 0
Between array_item = Unit {0}
Between object_item = Unit {0}
Between _ = ⊥

-- As above, or the character was given back, between two items.
unfoldable pub Good : Outcome → Type 0
Good (next p) = IsValid p
Good (failed e) = Unit {0}
Good (again p) = Between p.state × IsValid p
Good fault = ⊥

-- The character was taken, and the parser is between two items.
unfoldable pub Settled : Outcome → Type 0
Settled (next p) = Between p.state × IsValid p
Settled (failed e) = Unit {0}
Settled (again p) = ⊥
Settled fault = ⊥

pub Settled-Fine : (o : Outcome) → Settled o → Fine o
unfolding Settled Fine
Settled-Fine (next p) h = h.1
Settled-Fine (failed e) h = h
Settled-Fine (again p) h = absurd h
Settled-Fine fault h = absurd h

pub next-Fine : (p : Parser) → IsValid p → Fine (next p)
unfolding Fine
next-Fine p valid = valid

pub failed-Fine : (e : Error) → Fine (failed e)
unfolding Fine
failed-Fine e = tt

pub Fine-Good : (o : Outcome) → Fine o → Good o
unfolding Fine Good
Fine-Good (next p) h = h
Fine-Good (failed e) h = h
Fine-Good (again p) h = absurd h
Fine-Good fault h = absurd h

pub if-Fine : (b : Bool) (x y : Outcome) → Fine x → Fine y → Fine (if b then x else y)
if-Fine true x y hx hy = hx
if-Fine false x y hx hy = hy

pub if-Good : (b : Bool) (x y : Outcome) → Good x → Good y → Good (if b then x else y)
if-Good true x y hx hy = hx
if-Good false x y hx hy = hy

pub Context-Keeps :
    (heap heap' : List Node) (saved : List State) (path : List ℕ)
    → Keeps heap heap'
    → Context heap saved path
    → Context heap' saved path
Context-Keeps heap heap' (bof ∷ []) [] keeps ctx = ctx
Context-Keeps heap heap' (array_item ∷ saved) (a ∷ path) keeps ctx =
    (keeps a is_array ctx.0, Context-Keeps heap heap' saved path keeps ctx.1)
Context-Keeps heap heap' (object_item ∷ saved) (o ∷ path) keeps ctx =
    (keeps o is_object ctx.0, Context-Keeps heap heap' saved path keeps ctx.1)
Context-Keeps heap heap' _ _ keeps ctx = absurd ctx

Current-some :
    (heap : List Node) (c : Option ℕ) (k : Kind)
    → Current heap c k
    → (i : ℕ) × (c ≡ some i) × (kind_at heap i ≡ some k)
Current-some heap none k h = absurd h
Current-some heap (some i) k h = (i, refl, h)

-- A new node and a method on the current object: the call goes through, the nodes keep their classes,
-- the new node is there, and what holds of the rest holds of the whole.
pub make_holds :
    (Holds : Outcome → Type 0) (p : Parser) (node : Node) (method : ℕ → Node → Option Node)
    (rest : List Node → ℕ → Outcome) (k : Kind)
    → ((x : ℕ) → WorksOn (method x) k)
    → Current p.heap p.current_object k
    → ((heap : List Node)
        → Keeps p.heap heap
        → kind_at heap (length p.heap) ≡ some (kind node)
        → Holds (rest heap (length p.heap)))
    → Holds (make p node method rest)
make_holds Holds p node method rest k works current fine =
    let (i, ec, ki) = Current-some p.heap p.current_object k current in
    let grown = p.heap ++ (node ∷ []) in
    let before = kind_at-append p.heap node in
    let (heap, e, keeps) =
      call-Keeps (method (length p.heap)) k grown i (works (length p.heap)) (before i k ki) in
    let e' : call (method (length p.heap)) grown p.current_object ≡ some heap =
      ap (call (method (length p.heap)) grown) ec ∙ e in
    rw (e', make)
      (fine heap (λ j c h. keeps j c (before j c h))
        (keeps (length p.heap) (kind node) (kind_at-length p.heap node)))
