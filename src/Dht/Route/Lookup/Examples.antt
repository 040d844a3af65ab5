-- ===== src/Dht/Route/Lookup/Examples.antt =====
-- A node that is added to a routing table, at a concrete input.
use vds.Common.{[], ◌∷◌, true}
use vds.Dht.Route.Bucket.{Session, make_node}
use vds.Dht.Route.{Route, add_node}
use vds.Dht.Route.Lookup.{AddedAt, add_node-AddedAt}

abbrev partner : Session
partner = record { address = 10 ∷ 0 ∷ 0 ∷ 7 ∷ []; partner_node_id = 9 ∷ [] }

abbrev table : Route
table = record {
  current_node_id = 0 ∷ [];
  buckets = (0, make_node (200 ∷ []) partner 0 ∷ []) ∷ (4, make_node (9 ∷ []) partner 0 ∷ []) ∷ [];
}

add_node-AddedAt_example :
    AddedAt table (make_node (8 ∷ []) partner 1) 0 (add_node table (8 ∷ []) partner 1 true)
add_node-AddedAt_example = add_node-AddedAt table (8 ∷ []) partner 1 true 0
