-- ===== src/Dht/Route/Placement/Examples.antt =====
-- A routing table, and its theorem at a concrete run.
use vds.Common.{refl, [], ◌∷◌, true, false}
use vds.Dht.Route.Bucket.{Session}
use vds.Dht.Route.{Route}
use vds.Dht.Route.Placement.{adds, times, marks, run, IsValid, run-IsValid}

abbrev session : Session
session = record { address = 127 ∷ 0 ∷ 0 ∷ 1 ∷ []; partner_node_id = 9 ∷ [] }

abbrev empty : Route
empty = record { current_node_id = 0 ∷ []; buckets = [] }

run-IsValid_example : IsValid (0 ∷ []) (
    run empty (
      adds (1 ∷ []) session 1 true
      ∷ adds (200 ∷ []) session 0 true
      ∷ times (λ s. false)
      ∷ marks (1 ∷ []) session.address
      ∷ []))
run-IsValid_example =
    run-IsValid (0 ∷ [])
      (adds (1 ∷ []) session 1 true
        ∷ adds (200 ∷ []) session 0 true
        ∷ times (λ s. false)
        ∷ marks (1 ∷ []) session.address
        ∷ [])
      empty (refl, tt)
