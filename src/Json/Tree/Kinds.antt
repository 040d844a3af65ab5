-- ===== src/Json/Tree/Kinds.antt =====
-- The classes of the nodes on the heap of a JSON parser (kernel/vds_parser/json_object.h): which casts
-- are right, and that no operation changes the class of a node.
use vds.Common.{
  ℕ, zero, suc, ◌≡◌, refl, sym, ap, ◌∙◌, arith, List, [], ◌∷◌, ◌++◌, Option, none, some, get_elem?,
  set, length,
}
use mathlib.Core.Option.{some-injective}
use vds.Json.Tree.{
  Node, json_primitive, json_property, json_object, json_array, with_item, with_property,
  with_value, call,
}

pub data Kind : Type 0 where
  is_primitive is_property is_object is_array : Kind

abbrev pub kind : Node → Kind
kind (json_primitive l c v t) = is_primitive
kind (json_property l c n v) = is_property
kind (json_object l c ps) = is_object
kind (json_array l c xs) = is_array

abbrev pub kind_at : List Node → ℕ → Option Kind
kind_at [] i = none
kind_at (n ∷ heap) zero = some (kind n)
kind_at (n ∷ heap) (suc i) = kind_at heap i

-- Every node of the first heap is in the second, with its class.
abbrev pub Keeps : List Node → List Node → Type 0
Keeps heap heap' = (i : ℕ) (k : Kind) → kind_at heap i ≡ some k → kind_at heap' i ≡ some k

pub kind_at-append : (heap : List Node) (n : Node) → Keeps heap (heap ++ (n ∷ []))
kind_at-append [] n i k h = cc
kind_at-append (m ∷ heap) n zero k h = h
kind_at-append (m ∷ heap) n (suc i) k h = kind_at-append heap n i k h

pub kind_at-length :
    (heap : List Node) (n : Node) → kind_at (heap ++ (n ∷ [])) (length heap) ≡ some (kind n)
kind_at-length [] n = refl
kind_at-length (m ∷ heap) n = kind_at-length heap n

kind_at-set :
    (heap : List Node) (i : ℕ) (n m : Node)
    → get_elem? heap i ≡ some n
    → kind m ≡ kind n
    → Keeps heap (set heap i m)
kind_at-set [] i n m e same j k h = h
kind_at-set (x ∷ heap) zero n m e same zero k h = ground (arith, ap kind (some-injective x n e))
kind_at-set (x ∷ heap) zero n m e same (suc j) k h = h
kind_at-set (x ∷ heap) (suc i) n m e same zero k h = h
kind_at-set (x ∷ heap) (suc i) n m e same (suc j) k h = kind_at-set heap i n m e same j k h

node_of_kind :
    (heap : List Node) (i : ℕ) (k : Kind)
    → kind_at heap i ≡ some k
    → (n : Node) × (get_elem? heap i ≡ some n) × (kind n ≡ k)
node_of_kind [] i k h = cc
node_of_kind (n ∷ heap) zero k h = (n, refl, some-injective (kind n) k h)
node_of_kind (n ∷ heap) (suc i) k h = node_of_kind heap i k h

-- A method that works on the nodes of one class, and keeps the class.
abbrev pub WorksOn : (Node → Option Node) → Kind → Type 0
WorksOn method k = (n : Node) → kind n ≡ k → (m : Node) × (method n ≡ some m) × (kind m ≡ k)

-- Such a method called on a node of its class succeeds, and no node changes its class.
pub call-Keeps :
    (method : Node → Option Node) (k : Kind) (heap : List Node) (i : ℕ)
    → WorksOn method k
    → kind_at heap i ≡ some k
    → (heap' : List Node) × (call method heap (some i) ≡ some heap') × Keeps heap heap'
unfolding call
call-Keeps method k heap i works h =
    let (n, at, kn) = node_of_kind heap i k h in
    let (m, e, km) = works n kn in
    (set heap i m, rw (at, call) (rw e), kind_at-set heap i n m at (km ∙ sym kn))

pub with_item-WorksOn : (x : ℕ) → WorksOn (with_item x) is_array
unfolding with_item
with_item-WorksOn x (json_primitive l c v t) h = cc
with_item-WorksOn x (json_property l c n v) h = cc
with_item-WorksOn x (json_object l c ps) h = cc
with_item-WorksOn x (json_array l c xs) h = (json_array l c (xs ++ (x ∷ [])), refl, refl)

pub with_property-WorksOn : (x : ℕ) → WorksOn (with_property x) is_object
unfolding with_property
with_property-WorksOn x (json_primitive l c v t) h = cc
with_property-WorksOn x (json_property l c n v) h = cc
with_property-WorksOn x (json_object l c ps) h = (json_object l c (ps ++ (x ∷ [])), refl, refl)
with_property-WorksOn x (json_array l c xs) h = cc

pub with_value-WorksOn : (x : ℕ) → WorksOn (with_value x) is_property
unfolding with_value
with_value-WorksOn x (json_primitive l c v t) h = cc
with_value-WorksOn x (json_property l c n v) h = (json_property l c n (some x), refl, refl)
with_value-WorksOn x (json_object l c ps) h = cc
with_value-WorksOn x (json_array l c xs) h = cc
