-- ===== src/Dht/Route/Search/Examples.antt =====
-- A search in a routing table, at a concrete input.
use vds.Common.{[], ◌∷◌, Bool, not, Expected, value}
use vds.Dht.Route.{Route}
use vds.Dht.Route.Bucket.{Node, Session, make_node, same_bytes}
use vds.Dht.Route.Search.{search_nodes}
use vds.Dht.Route.Search.Sound.{Sound, search_nodes-Sound}

abbrev partner : Session
partner = record { address = 10 ∷ 0 ∷ 0 ∷ 7 ∷ []; partner_node_id = 9 ∷ [] }

abbrev table : Route
table = record {
  current_node_id = 0 ∷ [];
  buckets =
      (0, make_node (200 ∷ []) partner 0 ∷ [])
      ∷ (4, make_node (9 ∷ []) partner 0 ∷ make_node (8 ∷ []) partner 1 ∷ [])
      ∷ [];
}

abbrev not_nine : Node → Expected Bool
not_nine n = value (not (same_bytes n.node_id (9 ∷ [])))

search_nodes-Sound_example :
    Sound table (8 ∷ []) not_nine (search_nodes table (8 ∷ []) 3 not_nine [])
search_nodes-Sound_example = search_nodes-Sound table (8 ∷ []) not_nine 3 [] tt
