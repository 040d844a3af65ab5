-- ===== src/Dht/Route/Search/Hits.antt =====
-- The nodes that `looking_nodes` of libs_server/vds_dht_network/impl/dht_route.cpp finds in a bucket.
use vds.Common.{
  ℕ, zero, suc, ◌+◌, ◌≡◌, refl, sym, subst, List, [], ◌∷◌, some, Bool, true, false, ltb,
  if◌then◌else◌, get_elem?, Expected, value, unexpected, ◌>>=◌, All,
}
use vds.Dht.ObjectId.{distance}
use vds.Dht.Route.{Route, bucket_at}
use vds.Dht.Route.Bucket.{Node, is_good, same_bytes}
use vds.Dht.Route.Bucket.Ids.{same_bytes→eq}
use vds.Dht.Route.Search.{Finds, Results, keep_node, keep_at, looking_nodes, look_if}

module _ (r : Route) (target : List ℕ) (filter : Node → Expected Bool) where
  -- A good node of the table that the filter takes, under its distance and its id.
  abbrev pub Hit : List ℕ → List ℕ × Node → Type 0
  Hit key e =
      (key ≡ distance e.1.node_id target)
      × (e.0 ≡ e.1.node_id)
      × (is_good e.1 ≡ true)
      × (filter e.1 ≡ value true)
      × ((index : ℕ) × (k : ℕ) × (get_elem? (bucket_at index r.buckets) k ≡ some e.1))

  abbrev pub Hits : Results → Type 0
  Hits = All (λ f. All (Hit f.0) f.1)

  keep_node-Hit :
      (key : List ℕ) (n : Node) (es : Finds)
      → Hit key (n.node_id, n)
      → All (Hit key) es
      → All (Hit key) (keep_node n es).1
  unfolding keep_node
  keep_node-Hit key n [] hit hits = (hit, tt)
  keep_node-Hit key n (e ∷ es) hit hits =
      either (same_bytes e.0 n.node_id) refl (keep_node-Hit key n es hit hits.1)
    where
      fewer : (b : Bool) → e.0 ≡ n.node_id → Hit key (e.0, (if b then n else e.1))
      fewer true same = (hit.0, same, hit.2, hit.3, hit.4)
      fewer false same = hits.0

      either :
          (b : Bool)
          → same_bytes e.0 n.node_id ≡ b
          → All (Hit key) (keep_node n es).1
          → All
              (Hit key)
              (if◌then◌else◌ {A = Bool × Finds} b
                (false, (e.0, (if ltb n.hops e.1.hops then n else e.1)) ∷ es)
                ((keep_node n es).0, e ∷ (keep_node n es).1)).1
      either true same rest =
          (fewer (ltb n.hops e.1.hops) (same_bytes→eq e.0 n.node_id same), hits.1)
      either false same rest = (hits.0, rest)

  keep_at-Hits :
      (key : List ℕ) (n : Node) (rs : Results)
      → Hit key (n.node_id, n)
      → Hits rs
      → Hits (keep_at key n rs).1
  unfolding keep_at
  keep_at-Hits key n [] hit hits = ((hit, tt), tt)
  keep_at-Hits key n (f ∷ rs) hit hits =
      either (same_bytes f.0 key) refl (keep_at-Hits key n rs hit hits.1)
    where
      either :
          (b : Bool)
          → same_bytes f.0 key ≡ b
          → Hits (keep_at key n rs).1
          → Hits
              (if◌then◌else◌ {A = Bool × Results} b
                ((keep_node n f.1).0, (f.0, (keep_node n f.1).1) ∷ rs)
                ((keep_at key n rs).0, f ∷ (keep_at key n rs).1)).1
      either true same rest = (
        keep_node-Hit f.0 n f.1
            (subst (λ (k : List ℕ). Hit k (n.node_id, n)) (sym (same_bytes→eq f.0 key same)) hit)
            hits.0,
        hits.1,
      )
      either false same rest = (hits.0, rest)

  abbrev pub Looked : Expected (ℕ × Results) → Type 0
  Looked (value s) = Hits s.1
  Looked (unexpected e) = (n : Node) × (is_good n ≡ true) × (filter n ≡ unexpected e)

  -- The nodes stand in the bucket.
  abbrev pub Within : List Node → Type 0
  Within ns =
      (i : ℕ) (n : Node)
      → get_elem? ns i ≡ some n
      → (index : ℕ) × (k : ℕ) × (get_elem? (bucket_at index r.buckets) k ≡ some n)

  pub looking_nodes-Looked :
      (ns : List Node) (count : ℕ) (results : Results)
      → Within ns
      → Hits results
      → Looked (looking_nodes target filter ns count results)
  unfolding looking_nodes
  looking_nodes-Looked [] count results within hits = hits
  looking_nodes-Looked (n ∷ ns) count results within hits =
      good (is_good n) refl (looking_nodes-Looked ns count results (λ i. within (suc i)) hits)
        (λ c kept. looking_nodes-Looked ns c kept (λ i. within (suc i)))
    where
      good :
          (b : Bool)
          → is_good n ≡ b
          → Looked (looking_nodes target filter ns count results)
          → ((c : ℕ) (kept : Results) → Hits kept → Looked (looking_nodes target filter ns c kept))
          → Looked (elim b [
            | false ↦ looking_nodes target filter ns count results
            | true ↦ filter n >>= λ wanted. elim wanted [
              | false ↦ looking_nodes target filter ns count results
              | true ↦
                  let kept = keep_at (distance n.node_id target) n results in
                  looking_nodes target filter ns (if kept.0 then count + 1 else count) kept.1
            ]
          ])
      good false eg skip more = skip
      good true eg skip more = filtered (filter n) refl
        where
          filtered :
              (w : Expected Bool)
              → filter n ≡ w
              → Looked (
                  w >>= λ wanted. elim wanted [
                    | false ↦ looking_nodes target filter ns count results
                    | true ↦
                        let kept = keep_at (distance n.node_id target) n results in
                        looking_nodes target filter ns (if kept.0 then count + 1 else count) kept.1
                  ])
          filtered (value true) ef = more _ _ (
              keep_at-Hits (distance n.node_id target) n results
                (refl, refl, eg, ef, within zero n refl) hits)
          filtered (value false) ef = skip
          filtered (unexpected e) ef = (n, eg, ef)

  pub look_if-Looked :
      (b : Bool) (index : ℕ) (results : Results)
      → Hits results
      → Looked (look_if b target filter (bucket_at index r.buckets) results)
  look_if-Looked true index results hits =
      looking_nodes-Looked (bucket_at index r.buckets) 0 results (λ i n e. (index, i, e)) hits
  look_if-Looked false index results hits = hits
