-- ===== src/Json/Tree.antt =====
-- kernel/vds_parser/json_object.h: the nodes of a JSON tree. The parser shares and mutates them through
-- `std::shared_ptr`, so they stand on a heap and a pointer is an index; no pointer is `none`.
pub mod Kinds
use vds.Common.{
  ℕ, zero, suc, List, [], ◌∷◌, ◌++◌, Option, none, some, get_elem?, set, length, Bool, true, false,
}

pub data PrimitiveType : Type 0 where
  text integer : PrimitiveType

-- Each node has its line and column.
pub data Node : Type 0 where
  json_primitive : ℕ → ℕ → List ℕ → PrimitiveType → Node
  json_property : ℕ → ℕ → List ℕ → Option ℕ → Node
  json_object : ℕ → ℕ → List ℕ → Node
  json_array : ℕ → ℕ → List ℕ → Node

-- `add`, `add_property` and `value` behind a `static_pointer_cast`: `none` where the node is of
-- another class, where the cast is undefined.
unfoldable pub with_item : ℕ → Node → Option Node
with_item x (json_array l c items) = some (json_array l c (items ++ (x ∷ [])))
with_item x n = none

unfoldable pub with_property : ℕ → Node → Option Node
with_property x (json_object l c properties) = some (json_object l c (properties ++ (x ∷ [])))
with_property x n = none

unfoldable pub with_value : ℕ → Node → Option Node
with_value x (json_property l c name v) = some (json_property l c name (some x))
with_value x n = none

-- A method call through a pointer; `none` also where the pointer is null.
unfoldable pub call : (Node → Option Node) → List Node → Option ℕ → Option (List Node)
call method heap none = none
call method heap (some i) = elim (get_elem? heap i) [
  | none ↦ none
  | some n ↦ elim (method n) [ none ↦ none | some m ↦ some (set heap i m) ]
]
