-- ===== src/Dht/Route/Bucket.antt =====
-- `node` and `bucket` of libs_server/vds_dht_network/impl/dht_route.cpp: the nodes that are known at one
-- distance. An address is the list of the bytes that `network_address::compare` looks at.
pub mod Nodes
pub mod Distinct
pub mod Actions
pub mod Ticks
pub mod Ids
mod Examples
use vds.Common.{
  ℕ, ◌+◌, ◌%◌, ◌^◌, List, [], ◌∷◌, ◌++◌, map, Option, none, some, Bool, true, false, not, ◌&&◌,
  ◌||◌, ltb, ◌==◌, if◌then◌else◌, length,
}

pub record Session : Type 0 where
  pub address : List ℕ
  pub partner_node_id : List ℕ

pub record Node : Type 0 where
  pub node_id : List ℕ
  pub proxy_session : Session
  pub pinged : ℕ
  pub hops : ℕ

-- The constructor; `reset` leaves the same fields.
abbrev pub make_node : List ℕ → Session → ℕ → Node
make_node id session hops = record {
  node_id = id;
  proxy_session = session;
  pinged = 0;
  hops = hops;
}

unfoldable pub is_good : Node → Bool
is_good p = ltb p.pinged 10

-- `operator ==` of `const_data_buffer`, and of addresses.
unfoldable pub same_bytes : List ℕ → List ℕ → Bool
same_bytes [] [] = true
same_bytes [] (b ∷ ys) = false
same_bytes (a ∷ xs) [] = false
same_bytes (a ∷ xs) (b ∷ ys) = a == b && same_bytes xs ys

-- The test of a node against an id and an address.
unfoldable pub matches : List ℕ → List ℕ → Node → Bool
unfolding same_bytes
matches id address p = same_bytes p.node_id id && same_bytes p.proxy_session.address address

abbrev pub max_nodes : ℕ
max_nodes = 8

unfoldable pub any_matches : List ℕ → List ℕ → List Node → Bool
unfolding matches
any_matches id address [] = false
any_matches id address (p ∷ ps) = matches id address p || any_matches id address ps

-- The loop that resets the first node that is not good; `none` where all are good.
unfoldable pub reset_first : Node → List Node → Option (List Node)
unfolding is_good
reset_first new [] = none
reset_first new (p ∷ ps) =
    let rest = reset_first new ps in
    if not (is_good p) then some (new ∷ ps) else elim rest [ none ↦ none | some qs ↦ some (p ∷ qs) ]

-- Whether the node was taken, and the nodes behind the call.
unfoldable pub add_node : List Node → List ℕ → Session → ℕ → Bool → Bool × List Node
unfolding any_matches reset_first
add_node nodes id session hops allow_skip =
    if any_matches id session.address nodes
    then (false, nodes)
    else (if not allow_skip || hops == 0 || ltb (length nodes) max_nodes
        then (true, nodes ++ (make_node id session hops ∷ []))
        else elim (reset_first (make_node id session hops) nodes) [
          | none ↦ (false, nodes)
          | some qs ↦ (true, qs)
        ])

unfoldable pub remove_session : List Node → Session → List Node
unfolding same_bytes
remove_session [] session = []
remove_session (p ∷ ps) session =
    let rest = remove_session ps session in
    if same_bytes p.proxy_session.address session.address then rest else p ∷ rest

-- `p->pinged_++` on a `uint8_t`.
unfoldable pub tick : Node → Node
tick p = record p { pinged = (p.pinged + 1) % 2 ^ 8 }

-- The nodes behind a timer, and the pings that are sent.
unfoldable pub on_timer : List Node → List Node × List (List ℕ × Session)
unfolding tick
on_timer nodes = (map tick nodes, map (λ p. (p.node_id, p.proxy_session)) nodes)

unfoldable pub contains : List ℕ → List Node → Bool
unfolding same_bytes
contains id [] = false
contains id (p ∷ ps) = same_bytes p.node_id id || contains id ps

unfoldable pub mark_pinged : List Node → List ℕ → List ℕ → List Node
unfolding matches
mark_pinged [] target address = []
mark_pinged (p ∷ ps) target address =
    let rest = mark_pinged ps target address in
    if matches target address p then record p { pinged = 0 } ∷ ps else p ∷ rest

unfoldable pub get_neighbors : List Node → List Node
get_neighbors [] = []
get_neighbors (p ∷ ps) = let rest = get_neighbors ps in if p.hops == 0 then p ∷ rest else rest
