-- ===== src/Json/Parser/Safety.antt =====
-- The operations of kernel/vds_parser/json_parser.cpp keep the invariant.
use vds.Common.{
  ℕ, ◌≡◌, List, [], ◌∷◌, ◌++◌, Option, none, some, length, Bool, true, false, if◌then◌else◌,
}
use vds.Json.Tree.{Node, json_property, with_item, with_property, with_value}
use vds.Json.Tree.Kinds.{
  kind_at-length, Kind, is_property, is_object, is_array, kind, kind_at, Keeps, with_item-WorksOn,
  with_property-WorksOn, with_value-WorksOn,
}
use vds.Json.Parser.{
  State, bof, array, array_item, object_item, object_property_name, object_property_value, eof,
  Parser, next, make, final_container, pop_path, start_container, start_property,
}
use vds.Json.Parser.Shape.{Current, Context, Shape, Fine, Settled, Context-Keeps, make_holds}

after_root :
    (b : Bool) (heap : List Node) (c : Option ℕ) → Shape (if b then bof else eof) heap [] [] c
after_root false heap c = tt
after_root true heap c = tt

pub final_container-Fine :
    (p : Parser) (saved : List State) (path : List ℕ)
    → Context p.heap saved path
    → Fine (final_container (record p { saved_states = saved; current_path = path }))
unfolding final_container pop_path Fine
final_container-Fine p (bof ∷ []) [] ctx =
    after_root p.options.enable_multi_root_objects p.heap p.current_object
final_container-Fine p (array_item ∷ saved) (a ∷ path) ctx = (ctx.1, ctx.0)
final_container-Fine p (object_item ∷ saved) (o ∷ path) ctx = (ctx.1, ctx.0)
final_container-Fine p _ _ ctx = absurd ctx

-- The state that follows an opening bracket goes with the class of the new container.
abbrev pub Opens : State → Kind → Type 0
Opens opened k =
    (heap : List Node) (saved : List State) (path : List ℕ) (new : ℕ)
    → Context heap saved path
    → kind_at heap new ≡ some k
    → Shape opened heap saved path (some new)

pub start_in_array-Fine :
    (p : Parser) (node : Node) (opened : State) (c : Option ℕ)
    → Opens opened (kind node)
    → Context p.heap p.saved_states p.current_path
    → Current p.heap c is_array
    → Fine (start_container (record p { state = array; current_object = c }) node opened)
unfolding start_container Fine
start_in_array-Fine p node opened none opens ctx cur = absurd cur
start_in_array-Fine p node opened (some a) opens ctx cur =
    make_holds Fine (record p { state = array; current_object = some a }) node with_item
      (λ heap new. next (record p {
        heap = heap;
        saved_states = array_item ∷ p.saved_states;
        current_path = a ∷ p.current_path;
        current_object = some new;
        state = opened;
      }))
      is_array with_item-WorksOn cur
      λ heap keeps new.
        opens heap (array_item ∷ p.saved_states) (a ∷ p.current_path) (length p.heap)
          (keeps a is_array cur, Context-Keeps p.heap heap p.saved_states p.current_path keeps ctx)
          new

pub start_in_property-Fine :
    (p : Parser) (node : Node) (opened : State)
    → Opens opened (kind node)
    → Context p.heap p.saved_states p.current_path
    → Current p.heap p.current_object is_property
    → Fine (start_container (record p { state = object_property_value }) node opened)
unfolding start_container Fine
start_in_property-Fine p node opened opens ctx cur =
    make_holds Fine (record p { state = object_property_value }) node with_value
      (λ heap new. next (record p { heap = heap; current_object = some new; state = opened }))
      is_property with_value-WorksOn cur
      λ heap keeps new.
        opens heap p.saved_states p.current_path (length p.heap)
          (Context-Keeps p.heap heap p.saved_states p.current_path keeps ctx) new

pub start_at_root-Fine :
    (p : Parser) (node : Node) (opened : State)
    → Opens opened (kind node)
    → Fine (
        start_container
          (record p { state = bof; saved_states = []; current_path = [] })
          node
          opened)
unfolding start_container Fine
start_at_root-Fine p node opened opens =
    opens (p.heap ++ (node ∷ [])) (bof ∷ []) [] (length p.heap) tt (kind_at-length p.heap node)

-- The name of a property has been read: the property becomes the current object.
pub start_property-Fine :
    (p : Parser) (saved : List State) (c : Option ℕ)
    → Context p.heap saved p.current_path
    → Current p.heap c is_object
    → Fine (
        start_property (record p {
          state = object_property_name;
          saved_states = object_item ∷ saved;
          current_object = c;
        }))
unfolding start_property Fine
start_property-Fine p saved none ctx cur = absurd cur
start_property-Fine p saved (some o) ctx cur =
    make_holds Fine
      (record p {
        state = object_property_name;
        saved_states = object_item ∷ saved;
        current_object = some o;
      })
      (json_property p.line p.column p.buffer none) with_property
      (λ heap new. next (record p {
        state = object_property_name;
        saved_states = object_item ∷ saved;
        heap = heap;
        current_path = o ∷ p.current_path;
        current_object = some new;
        buffer = [];
      }))
      is_object with_property-WorksOn cur
      λ heap keeps new.
        ((keeps o is_object cur, Context-Keeps p.heap heap saved p.current_path keeps ctx), new)

-- The value of a property has been read: the object around it becomes the current one.
pub final_property-Settled :
    (p : Parser) (node : Node) (saved : List State) (path : List ℕ)
    → Context p.heap (object_item ∷ saved) path
    → Current p.heap p.current_object is_property
    → Settled (
        make
          (record p { state = object_item; saved_states = saved; current_path = path })
          node
          with_value
          λ heap new. pop_path (record p {
            state = object_item;
            saved_states = saved;
            current_path = path;
            heap = heap;
            buffer = [];
          }))
unfolding pop_path Settled
final_property-Settled p node saved [] ctx cur = absurd ctx
final_property-Settled p node saved (o ∷ path) ctx cur =
    make_holds Settled
      (record p { state = object_item; saved_states = saved; current_path = o ∷ path }) node
      with_value
      (λ heap new. next (record p {
        state = object_item;
        saved_states = saved;
        current_path = path;
        current_object = some o;
        heap = heap;
        buffer = [];
      }))
      is_property with_value-WorksOn cur
      λ heap keeps new.
        (tt, (Context-Keeps p.heap heap saved path keeps ctx.1, keeps o is_object ctx.0))

-- A primitive is added to the current array.
pub add_item-Settled :
    (p : Parser) (node : Node) (saved : List State)
    → Context p.heap saved p.current_path
    → Current p.heap p.current_object is_array
    → Settled (
        make
          (record p { state = array_item; saved_states = saved })
          node
          with_item
          λ heap new.
            next (record p { state = array_item; saved_states = saved; heap = heap; buffer = [] }))
unfolding Settled
add_item-Settled p node saved ctx cur =
    make_holds Settled (record p { state = array_item; saved_states = saved }) node with_item
      (λ heap new.
        next (record p { state = array_item; saved_states = saved; heap = heap; buffer = [] }))
      is_array with_item-WorksOn cur
      λ heap keeps new. (
        tt,
        (
          Context-Keeps p.heap heap saved p.current_path keeps ctx,
          current_keeps p.heap heap p.current_object cur keeps,
        ),
      )
  where
    current_keeps :
        (heap heap' : List Node) (c : Option ℕ)
        → Current heap c is_array
        → Keeps heap heap'
        → Current heap' c is_array
    current_keeps heap heap' none cur keeps = cur
    current_keeps heap heap' (some i) cur keeps = keeps i is_array cur
