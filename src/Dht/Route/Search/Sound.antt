-- ===== src/Dht/Route/Search/Sound.antt =====
-- What `search_nodes` of libs_server/vds_dht_network/impl/dht_route.cpp finds.
use vds.Common.{
  ℕ, zero, suc, ◌+◌, ◌-◌, ◌≤◌, ◌≡◌, refl, subst, arith, List, [], ◌∷◌, Bool, true, false, ◌&&◌,
  ◌||◌, ltb, length, Expected, value, unexpected,
}
use vds.Dht.ObjectId.{distance_exp}
use vds.Dht.Route.{Route, bucket_at}
use vds.Dht.Route.Bucket.{Node, is_good}
use vds.Dht.Route.Search.{
  Results, Searched, found, stopped, endless, is_above, is_below, look_if, search_loop, last_index,
  search_nodes,
}
use vds.Dht.Route.Search.Hits.{Hits, Looked, look_if-Looked}

module _ (r : Route) (target : List ℕ) (filter : Node → Expected Bool) where
  -- How a search ends: with such nodes only, or with an error of the filter at a good node.
  abbrev pub Sound : Searched → Type 0
  Sound (found results) = Hits r target filter results
  Sound (stopped e) = (n : Node) × (is_good n ≡ true) × (filter n ≡ unexpected e)
  Sound endless = ⊥

  -- The loop goes on at an index between the first and the last one only.
  in_range :
      (index min_index max_index d : ℕ) (more : Bool)
      → (more && (is_above index max_index d || is_below index min_index d)) ≡ true
      → d ≤ index + max_index
  in_range index min_index max_index d more e = ground arith

  search_loop-Sound :
      (max_count index min_index max_index fuel d count : ℕ) (results : Results)
      → d + fuel ≡ index + max_index + 2
      → d ≤ index + max_index + 1
      → Hits r target filter results
      → Sound (
          search_loop target filter max_count index min_index max_index r.buckets fuel d count
            results)
  unfolding search_loop
  search_loop-Sound max_count index min_index max_index zero d count results left low hits =
      absurd (omega arith)
  search_loop-Sound max_count index min_index max_index (suc fuel) d count results left low hits =
      tested
        (ltb (length results) max_count
          && (is_above index max_index d || is_below index min_index d))
        refl
        λ le c kept.
          search_loop-Sound max_count index min_index max_index fuel (d + 1) c kept (omega arith)
            (omega arith)
    where
      enough :
          (b : Bool) (c : ℕ) (kept : Results)
          → Hits r target filter kept
          → Sound (
              search_loop target filter max_count index min_index max_index r.buckets fuel
                (d + 1)
                c
                kept)
          → Sound (elim b [
            | true ↦ found kept
            | false ↦
                search_loop target filter max_count index min_index max_index r.buckets fuel
                  (d + 1)
                  c
                  kept
          ])
      enough true c kept h s = h
      enough false c kept h s = s

      second :
          (c : ℕ) (s : Expected (ℕ × Results))
          → Looked r target filter s
          → ((c : ℕ) (kept : Results)
              → Hits r target filter kept
              → Sound (
                  search_loop target filter max_count index min_index max_index r.buckets fuel
                    (d + 1)
                    c
                    kept))
          → Sound (elim s [
            | unexpected e ↦ stopped e
            | value s ↦ elim (ltb max_count (c + s.0)) [
              | true ↦ found s.1
              | false ↦
                  search_loop target filter max_count index min_index max_index r.buckets fuel
                    (d + 1)
                    (c + s.0)
                    s.1
            ]
          ])
      second c (value s) l ih =
          enough (ltb max_count (c + s.0)) (c + s.0) s.1 l (ih (c + s.0) s.1 l)
      second c (unexpected e) l ih = l

      first :
          (f : Expected (ℕ × Results))
          → Looked r target filter f
          → ((c : ℕ) (kept : Results)
              → Hits r target filter kept
              → Sound (
                  search_loop target filter max_count index min_index max_index r.buckets fuel
                    (d + 1)
                    c
                    kept))
          → Sound (elim f [
            | unexpected e ↦ stopped e
            | value r' ↦
                elim (look_if
                  (is_below index min_index d)
                  target
                  filter
                  (bucket_at (index - d) r.buckets)
                  r'.1) [
                    | unexpected e ↦ stopped e
                    | value s ↦ elim (ltb max_count (count + r'.0 + s.0)) [
                      | true ↦ found s.1
                      | false ↦
                          search_loop target filter max_count index min_index max_index r.buckets
                            fuel
                            (d + 1)
                            (count + r'.0 + s.0)
                            s.1
                    ]
                  ]
          ])
      first (value f) l ih =
          second (count + f.0)
            (look_if (is_below index min_index d) target filter (bucket_at (index - d) r.buckets)
              f.1)
            (look_if-Looked r target filter (is_below index min_index d) (index - d) f.1 l) ih
      first (unexpected e) l ih = l

      tested :
          (b : Bool)
          → (ltb (length results) max_count
              && (is_above index max_index d || is_below index min_index d))
            ≡ b
          → (d ≤ index + max_index
              → (c : ℕ) (kept : Results) → Hits r target filter kept
              → Sound (
                  search_loop target filter max_count index min_index max_index r.buckets fuel
                    (d + 1)
                    c
                    kept))
          → Sound (elim b [
            | false ↦ found results
            | true ↦
                elim (look_if
                  (is_above index max_index d)
                  target
                  filter
                  (bucket_at (index + d) r.buckets)
                  results) [
                    | unexpected e ↦ stopped e
                    | value r' ↦
                        elim (look_if
                          (is_below index min_index d)
                          target
                          filter
                          (bucket_at (index - d) r.buckets)
                          r'.1) [
                            | unexpected e ↦ stopped e
                            | value s ↦ elim (ltb max_count (count + r'.0 + s.0)) [
                              | true ↦ found s.1
                              | false ↦
                                  search_loop target filter max_count index min_index max_index
                                    r.buckets fuel
                                    (d + 1)
                                    (count + r'.0 + s.0)
                                    s.1
                            ]
                          ]
                  ]
          ])
      tested false e ih = hits
      tested true e ih =
          first
            (look_if (is_above index max_index d) target filter (bucket_at (index + d) r.buckets)
              results)
            (look_if-Looked r target filter (is_above index max_index d) (index + d) results hits)
            (ih (in_range index min_index max_index d (ltb (length results) max_count) e))

  -- A search ends. What it adds to the results are nodes of the table that are good and that the filter takes,
  -- each under its distance from the target and its id, if the results before were such; or it ends with
  -- an error of the filter at a good node.
  pub search_nodes-Sound :
      (max_count : ℕ) (results : Results)
      → Hits r target filter results
      → Sound (search_nodes r target max_count filter results)
  unfolding search_nodes
  search_nodes-Sound max_count results hits = table r.buckets refl
    where
      table :
          (buckets : List (ℕ × List Node))
          → r.buckets ≡ buckets
          → Sound (elim buckets [
            | [] ↦ found results
            | b ∷ bs ↦
                search_loop target filter max_count
                  (distance_exp r.current_node_id target)
                  b.0
                  (last_index b.0 bs)
                  (b ∷ bs)
                  (distance_exp r.current_node_id target + last_index b.0 bs + 2)
                  0
                  0
                  results
          ])
      table [] e = hits
      table (b ∷ bs) e =
          subst
            (λ (buckets : List (ℕ × List Node)). Sound (
              search_loop target filter max_count (distance_exp r.current_node_id target) b.0
                (last_index b.0 bs) buckets
                (distance_exp r.current_node_id target + last_index b.0 bs + 2) 0 0 results))
            e
            (search_loop-Sound max_count (distance_exp r.current_node_id target) b.0
              (last_index b.0 bs) (distance_exp r.current_node_id target + last_index b.0 bs + 2) 0
              0 results (omega arith) (omega arith) hits)
