-- ===== src/Dht/Route/Search.antt =====
-- `search_nodes` and `looking_nodes` of libs_server/vds_dht_network/impl/dht_route.cpp. A `std::map` of results is the
-- list of its entries; their order, which only a caller sees, is that of the first finds.
pub mod Hits
pub mod Sound
pub mod Examples
use vds.Common.{
  ℕ, zero, suc, ◌+◌, ◌-◌, List, [], ◌∷◌, Bool, true, false, ◌&&◌, ◌||◌, ltb, leb, if◌then◌else◌,
  length, Error, Expected, value, unexpected, ◌>>=◌,
}
use vds.Dht.ObjectId.{distance, distance_exp}
use vds.Dht.Route.{Route, bucket_at}
use vds.Dht.Route.Bucket.{Node, is_good, same_bytes}

-- The nodes at one distance, by their ids, and the finds by the distances.
abbrev pub Finds : Type 0
Finds = List (List ℕ × Node)

abbrev pub Results : Type 0
Results = List (List ℕ × Finds)

-- Whether the node is new, and the finds with it: of two nodes with one id that with fewer hops stays.
unfoldable pub keep_node : Node → Finds → Bool × Finds
unfolding same_bytes
keep_node n [] = (true, (n.node_id, n) ∷ [])
keep_node n (e ∷ es) =
    let rest = keep_node n es in
    if same_bytes e.0 n.node_id
    then (false, (e.0, (if ltb n.hops e.1.hops then n else e.1)) ∷ es)
    else (rest.0, e ∷ rest.1)

unfoldable pub keep_at : List ℕ → Node → Results → Bool × Results
unfolding same_bytes keep_node
keep_at key n [] = (true, (key, (n.node_id, n) ∷ []) ∷ [])
keep_at key n (r ∷ rs) =
    let rest = keep_at key n rs in
    let kept = keep_node n r.1 in
    if same_bytes r.0 key then (kept.0, (r.0, kept.1) ∷ rs) else (rest.0, r ∷ rest.1)

-- The nodes of a bucket, with the number of the new ones.
unfoldable pub looking_nodes :
    List ℕ → (Node → Expected Bool) → List Node → ℕ → Results → Expected (ℕ × Results)
unfolding is_good keep_at
looking_nodes target filter [] count results = value (count, results)
looking_nodes target filter (n ∷ ns) count results = elim (is_good n) [
  | false ↦ looking_nodes target filter ns count results
  | true ↦ filter n >>= λ wanted. elim wanted [
    | false ↦ looking_nodes target filter ns count results
    | true ↦
        let kept = keep_at (distance n.node_id target) n results in
        looking_nodes target filter ns (if kept.0 then count + 1 else count) kept.1
  ]
]

-- How a search ends; `endless` is a loop that does not.
pub data Searched : Type 0 where
  found : Results → Searched
  stopped : Error → Searched
  endless : Searched

-- The tests on the indices above and below.
abbrev pub is_above : ℕ → ℕ → ℕ → Bool
is_above index max_index d = leb (index + d) max_index

abbrev pub is_below : ℕ → ℕ → ℕ → Bool
is_below index min_index d = leb d index && leb min_index (index - d)

abbrev pub look_if :
    Bool → List ℕ → (Node → Expected Bool) → List Node → Results → Expected (ℕ × Results)
look_if b target filter nodes results =
    if b then looking_nodes target filter nodes 0 results else value (0, results)

unfoldable pub search_loop :
    List ℕ
    → (Node → Expected Bool)
    → ℕ
    → ℕ
    → ℕ
    → ℕ
    → List (ℕ × List Node)
    → ℕ
    → ℕ
    → ℕ
    → Results
    → Searched
unfolding looking_nodes bucket_at
search_loop target filter max_count index min_index max_index buckets zero d count results = endless
search_loop target filter max_count index min_index max_index buckets (suc fuel) d count results =
    elim (ltb (length results) max_count
      && (is_above index max_index d || is_below index min_index d)) [
        | false ↦ found results
        | true ↦
            elim (look_if (is_above index max_index d) target filter (bucket_at (index + d) buckets)
              results) [
                | unexpected e ↦ stopped e
                | value r ↦
                    elim (look_if (is_below index min_index d) target filter
                      (bucket_at (index - d) buckets) r.1) [
                        | unexpected e ↦ stopped e
                        | value s ↦ elim (ltb max_count (count + r.0 + s.0)) [
                          | true ↦ found s.1
                          | false ↦
                              search_loop target filter max_count index min_index max_index buckets
                                fuel (d + 1) (count + r.0 + s.0) s.1
                        ]
                      ]
              ]
      ]

-- `rbegin`, of a table whose first bucket is given.
unfoldable pub last_index : ℕ → List (ℕ × List Node) → ℕ
last_index index [] = index
last_index index (b ∷ bs) = last_index b.0 bs

-- No index is further from that of the target than `max_index` and the index itself.
unfoldable pub search_nodes : Route → List ℕ → ℕ → (Node → Expected Bool) → Results → Searched
unfolding search_loop last_index
search_nodes r target max_count filter results =
    let index = distance_exp r.current_node_id target in
    elim r.buckets [
      | [] ↦ found results
      | b ∷ bs ↦
          search_loop target filter max_count index b.0 (last_index b.0 bs) (b ∷ bs)
            (index + last_index b.0 bs + 2) 0 0 results
    ]
