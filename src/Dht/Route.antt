-- ===== src/Dht/Route.antt =====
-- `dht_route` of libs_server/vds_dht_network/impl/dht_route.cpp: a bucket of nodes for each exponent of
-- their distance. A `std::map` is the list of its entries in the order of the keys.
pub mod Bucket
pub mod Placement
pub mod Lookup
pub mod Search
use vds.Common.{
  ℕ, List, [], ◌∷◌, ◌++◌, map, Option, none, some, Bool, true, false, ◌&&◌, ◌||◌, ltb, ◌==◌,
  if◌then◌else◌,
}
use vds.Dht.ObjectId.{distance_exp}
use vds.Dht.Route.Bucket
use vds.Dht.Route.Bucket.{Session, Node, same_bytes}

pub record Route : Type 0 where
  pub current_node_id : List ℕ
  pub buckets : List (ℕ × List Node)

-- `find`, and a new bucket where there is none.
unfoldable pub bucket_at : ℕ → List (ℕ × List Node) → List Node
bucket_at index [] = []
bucket_at index (b ∷ bs) = if index == b.0 then b.1 else bucket_at index bs

unfoldable pub put_bucket : ℕ → List Node → List (ℕ × List Node) → List (ℕ × List Node)
put_bucket index nodes [] = (index, nodes) ∷ []
put_bucket index nodes (b ∷ bs) =
    let rest = put_bucket index nodes bs in
    if ltb index b.0
    then (index, nodes) ∷ b ∷ bs
    else (if index == b.0 then (index, nodes) ∷ bs else b ∷ rest)

unfoldable pub add_node : Route → List ℕ → Session → ℕ → Bool → Bool × Route
unfolding bucket_at put_bucket
add_node r id session hops allow_skip =
    if same_bytes id r.current_node_id || same_bytes session.partner_node_id r.current_node_id
    then (false, r)
    else (let index = distance_exp r.current_node_id id in
        let added = Bucket.add_node (bucket_at index r.buckets) id session hops allow_skip in
        (added.0, record r { buckets = put_bucket index added.1 r.buckets }))

-- The change of the one bucket at an index, if it is there.
unfoldable pub change_bucket :
    ℕ → (List Node → List Node) → List (ℕ × List Node) → List (ℕ × List Node)
change_bucket index f [] = []
change_bucket index f (b ∷ bs) =
    let rest = change_bucket index f bs in if index == b.0 then (b.0, f b.1) ∷ bs else b ∷ rest

unfoldable pub mark_pinged : Route → List ℕ → List ℕ → Route
unfolding change_bucket
mark_pinged r target address = record r {
  buckets =
      change_bucket (distance_exp r.current_node_id target)
        (λ nodes. Bucket.mark_pinged nodes target address) r.buckets;
}

unfoldable pub remove_session : Route → Session → Route
remove_session r session = record r {
  buckets = map (λ b. (b.0, Bucket.remove_session b.1 session)) r.buckets;
}

unfoldable pub all_sent : (List ℕ × Session → Bool) → List (List ℕ × Session) → Bool
all_sent ping [] = true
all_sent ping (s ∷ rest) = ping s && all_sent ping rest

-- Bucket by bucket: the counters, then the pings. `ping` tells whether `ping_node` returns without an
-- error; the first error ends the timer, and the buckets behind it are left as they are.
unfoldable pub ping_buckets :
    (List ℕ × Session → Bool) → List (ℕ × List Node) → List (ℕ × List Node)
unfolding all_sent
ping_buckets ping [] = []
ping_buckets ping (b ∷ bs) =
    let rest = ping_buckets ping bs in
    let timed = Bucket.on_timer b.1 in (b.0, timed.0) ∷ (if all_sent ping timed.1 then rest else bs)

unfoldable pub on_timer : (List ℕ × Session → Bool) → Route → Route
unfolding ping_buckets
on_timer ping r = record r { buckets = ping_buckets ping r.buckets }

unfoldable pub all_neighbors : List (ℕ × List Node) → List Node
all_neighbors [] = []
all_neighbors (b ∷ bs) = Bucket.get_neighbors b.1 ++ all_neighbors bs

unfoldable pub get_neighbors : Route → List Node
unfolding all_neighbors
get_neighbors r = all_neighbors r.buckets
