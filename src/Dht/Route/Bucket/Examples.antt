-- ===== src/Dht/Route/Bucket/Examples.antt =====
-- Concrete runs of a bucket, and its theorems at concrete inputs.
use vds.Common.{◌≤◌, ◌≡◌, refl, arith, List, [], ◌∷◌, true, false, length}
use vds.Dht.Route.Bucket.{
  Session, Node, make_node, is_good, add_node, max_nodes, same_bytes, matches, any_matches,
  reset_first,
}
use vds.Dht.Route.Bucket.Nodes.{Added, add_node-Added, add_node-fits}
use vds.Dht.Route.Bucket.Actions.{adds, removes, times, marks, run, run-Distinct}
use vds.Dht.Route.Bucket.Distinct.{Distinct}
use vds.Dht.Route.Bucket.Ticks.{ticks, is_good-ticks}

abbrev session : Session
session = record { address = 127 ∷ 0 ∷ 0 ∷ 1 ∷ []; partner_node_id = 9 ∷ [] }

abbrev silent : Node
silent = record { node_id = 5 ∷ []; proxy_session = session; pinged = 12; hops = 2 }

abbrev full : List Node
full =
    silent
    ∷ make_node (1 ∷ []) session 1
    ∷ make_node (2 ∷ []) session 1
    ∷ make_node (3 ∷ []) session 1
    ∷ make_node (4 ∷ []) session 1
    ∷ make_node (6 ∷ []) session 1
    ∷ make_node (7 ∷ []) session 1
    ∷ make_node (8 ∷ []) session 1
    ∷ []

replaced : length ((add_node full (10 ∷ []) session 1 true).1) ≡ 8
unfolding add_node any_matches matches same_bytes reset_first is_good
replaced = refl

grows : length ((add_node full (10 ∷ []) session 0 true).1) ≡ 9
unfolding add_node any_matches matches same_bytes reset_first is_good
grows = refl

add_node-Added_example :
    Added full (make_node (10 ∷ []) session 1) (add_node full (10 ∷ []) session 1 true)
add_node-Added_example = add_node-Added full (10 ∷ []) session 1 true

add_node-fits_example : length ((add_node full (10 ∷ []) session 1 true).1) ≤ max_nodes
add_node-fits_example = add_node-fits full (10 ∷ []) session 1 (omega arith) (omega arith)

is_good-ticks_example : is_good (ticks 250 silent) ≡ true
is_good-ticks_example = is_good-ticks 250 silent (omega arith)

run-Distinct_example : Distinct (
    run [] (
      adds (1 ∷ []) session 1 true
      ∷ times
      ∷ adds (1 ∷ []) session 0 false
      ∷ marks (1 ∷ []) session.address
      ∷ removes session
      ∷ []))
run-Distinct_example =
    run-Distinct
      (adds (1 ∷ []) session 1 true
        ∷ times
        ∷ adds (1 ∷ []) session 0 false
        ∷ marks (1 ∷ []) session.address
        ∷ removes session
        ∷ [])
      [] tt
