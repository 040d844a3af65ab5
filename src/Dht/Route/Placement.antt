-- ===== src/Dht/Route/Placement.antt =====
-- Runs of `dht_route` (libs_server/vds_dht_network/impl/dht_route.cpp): every node stands in the bucket of the
-- exponent of its distance.
mod Examples
use vds.Common.{
  ℕ, ◌≡◌, refl, sym, ap, ◌∙◌, subst, arith, List, [], ◌∷◌, ◌++◌, map, Option, none, some, Bool,
  true, false, not, ◌&&◌, ◌||◌, ltb, ◌==◌, ==_iff, if◌then◌else◌, length, All, All-append,
}
use vds.Dht.ObjectId.{distance_exp}
use vds.Dht.Route.Bucket
use vds.Dht.Route.Bucket.{
  Session, Node, make_node, is_good, same_bytes, matches, any_matches, reset_first, tick, max_nodes,
}
use vds.Dht.Route.Bucket.Ids.{add_node-Ids, remove_session-Ids, tick-Ids, mark_pinged-Ids}
use vds.Dht.Route.{
  Route, bucket_at, put_bucket, add_node, change_bucket, mark_pinged, remove_session, on_timer,
  all_sent, ping_buckets,
}

-- The nodes of a bucket are at its distance, seen from the current node.
abbrev InPlace : List ℕ → ℕ → List Node → Type 0
InPlace current k nodes = All (λ p. distance_exp current p.node_id ≡ k) nodes

abbrev pub Placed : List ℕ → List (ℕ × List Node) → Type 0
Placed current buckets = All (λ b. InPlace current b.0 b.1) buckets

eq_of : (a b : ℕ) → (a == b) ≡ true → a ≡ b
eq_of a b e = ground arith

moved :
    (current : List ℕ) (a b : ℕ) (nodes : List Node)
    → (a == b) ≡ true
    → InPlace current b nodes
    → InPlace current a nodes
moved current a b nodes e h = subst (λ k. InPlace current k nodes) (sym (eq_of a b e)) h

found_InPlace :
    (current : List ℕ) (index k : ℕ) (here there : List Node) (t : Bool)
    → (index == k) ≡ t
    → InPlace current k here
    → InPlace current index there
    → InPlace current index (if t then here else there)
found_InPlace current index k here there true e h h' = moved current index k here e h
found_InPlace current index k here there false e h h' = h'

bucket_at-InPlace :
    (current : List ℕ) (index : ℕ) (bs : List (ℕ × List Node))
    → Placed current bs
    → InPlace current index (bucket_at index bs)
unfolding bucket_at
bucket_at-InPlace current index [] h = tt
bucket_at-InPlace current index (b ∷ bs) h =
    found_InPlace current index b.0 b.1 (bucket_at index bs) (index == b.0) refl h.0
      (bucket_at-InPlace current index bs h.1)

if-Placed :
    (current : List ℕ) (t : Bool) (xs ys : List (ℕ × List Node))
    → Placed current xs
    → Placed current ys
    → Placed current (if t then xs else ys)
if-Placed current true xs ys hx hy = hx
if-Placed current false xs ys hx hy = hy

put_bucket-Placed :
    (current : List ℕ) (index : ℕ) (nodes : List Node) (bs : List (ℕ × List Node))
    → InPlace current index nodes
    → Placed current bs
    → Placed current (put_bucket index nodes bs)
unfolding put_bucket
put_bucket-Placed current index nodes [] hn h = (hn, tt)
put_bucket-Placed current index nodes (b ∷ bs) hn h =
    if-Placed current (ltb index b.0) ((index, nodes) ∷ b ∷ bs) _ (hn, h)
      (if-Placed current (index == b.0) ((index, nodes) ∷ bs) (b ∷ put_bucket index nodes bs)
        (hn, h.1) (h.0, put_bucket-Placed current index nodes bs hn h.1))

change_bucket-Placed :
    (current : List ℕ) (index : ℕ) (f : List Node → List Node) (bs : List (ℕ × List Node))
    → ((k : ℕ) (ps : List Node) → InPlace current k ps → InPlace current k (f ps))
    → Placed current bs
    → Placed current (change_bucket index f bs)
unfolding change_bucket
change_bucket-Placed current index f [] keeps h = tt
change_bucket-Placed current index f (b ∷ bs) keeps h =
    if-Placed current (index == b.0) ((b.0, f b.1) ∷ bs) (b ∷ change_bucket index f bs)
      (keeps b.0 b.1 h.0, h.1) (h.0, change_bucket-Placed current index f bs keeps h.1)

map-Placed :
    (current : List ℕ) (f : List Node → List Node) (bs : List (ℕ × List Node))
    → ((k : ℕ) (ps : List Node) → InPlace current k ps → InPlace current k (f ps))
    → Placed current bs
    → Placed current (map (λ b. (b.0, f b.1)) bs)
map-Placed current f [] keeps h = tt
map-Placed current f (b ∷ bs) keeps h = (keeps b.0 b.1 h.0, map-Placed current f bs keeps h.1)

ping_buckets-Placed :
    (current : List ℕ) (ping : List ℕ × Session → Bool) (bs : List (ℕ × List Node))
    → Placed current bs
    → Placed current (ping_buckets ping bs)
unfolding ping_buckets Bucket.on_timer
ping_buckets-Placed current ping [] h = tt
ping_buckets-Placed current ping (b ∷ bs) h = (
  tick-Ids (λ i. distance_exp current i ≡ b.0) b.1 h.0,
  if-Placed current (all_sent ping ((Bucket.on_timer b.1).1)) (ping_buckets ping bs) bs
      (ping_buckets-Placed current ping bs h.1) h.1,
)

pub data Action : Type 0 where
  adds : List ℕ → Session → ℕ → Bool → Action
  removes : Session → Action
  times : (List ℕ × Session → Bool) → Action
  marks : List ℕ → List ℕ → Action

unfoldable pub act : Route → Action → Route
act r (adds id session hops allow_skip) = (add_node r id session hops allow_skip).1
act r (removes session) = remove_session r session
act r (times ping) = on_timer ping r
act r (marks target address) = mark_pinged r target address

unfoldable pub run : Route → List Action → Route
run r [] = r
run r (a ∷ rest) = run (act r a) rest

-- The route table of this id, each node in its place.
abbrev pub IsValid : List ℕ → Route → Type 0
IsValid current r = (r.current_node_id ≡ current) × Placed current r.buckets

abbrev ValidBehind : List ℕ → Bool × Route → Type 0
ValidBehind current r = IsValid current r.1

if-ValidBehind :
    (current : List ℕ) (t : Bool) (x y : Bool × Route)
    → ValidBehind current x
    → ValidBehind current y
    → ValidBehind current (if t then x else y)
if-ValidBehind current true x y hx hy = hx
if-ValidBehind current false x y hx hy = hy

add_node-IsValid :
    (r : Route) (id : List ℕ) (session : Session) (hops : ℕ) (allow_skip : Bool)
    → Placed r.current_node_id r.buckets
    → IsValid r.current_node_id ((add_node r id session hops allow_skip).1)
unfolding add_node
add_node-IsValid r id session hops allow_skip h =
    let index = distance_exp r.current_node_id id in
    let nodes = bucket_at index r.buckets in
    let added = Bucket.add_node nodes id session hops allow_skip in
    if-ValidBehind r.current_node_id
      (same_bytes id r.current_node_id || same_bytes session.partner_node_id r.current_node_id)
      (false, r) (added.0, record r { buckets = put_bucket index added.1 r.buckets }) (refl, h)
      (
        refl,
        put_bucket-Placed r.current_node_id index added.1 r.buckets
            (add_node-Ids (λ i. distance_exp r.current_node_id i ≡ index) nodes id session hops
              allow_skip refl (bucket_at-InPlace r.current_node_id index r.buckets h))
            h,
      )

act-IsValid :
    (r : Route) (a : Action)
    → Placed r.current_node_id r.buckets
    → IsValid r.current_node_id (act r a)
unfolding act remove_session on_timer mark_pinged
act-IsValid r (adds id session hops allow_skip) h = add_node-IsValid r id session hops allow_skip h
act-IsValid r (removes session) h = (
  refl,
  map-Placed r.current_node_id (λ ps. Bucket.remove_session ps session) r.buckets
      (λ k ps hp. remove_session-Ids (λ i. distance_exp r.current_node_id i ≡ k) ps session hp) h,
)
act-IsValid r (times ping) h = (refl, ping_buckets-Placed r.current_node_id ping r.buckets h)
act-IsValid r (marks target address) h = (
  refl,
  change_bucket-Placed r.current_node_id (distance_exp r.current_node_id target)
      (λ ps. Bucket.mark_pinged ps target address) r.buckets
      (λ k ps hp. mark_pinged-Ids (λ i. distance_exp r.current_node_id i ≡ k) ps target address hp)
      h,
)

-- Whatever is done to a routing table in which each node stands in the bucket of the exponent of its
-- distance to the current node (as in a new table), in any order, whichever pings fail: the current node stays the same, and
-- each node stands in the bucket of its exponent.
pub run-IsValid :
    (current : List ℕ) (actions : List Action) (r : Route)
    → IsValid current r
    → IsValid current (run r actions)
unfolding run
run-IsValid current [] r h = h
run-IsValid current (a ∷ rest) r h =
    let placed = subst (λ c. Placed c r.buckets) (sym h.0) h.1 in
    let next = act-IsValid r a placed in
    run-IsValid current rest (act r a)
      (next.0 ∙ h.0, subst (λ c. Placed c (act r a).buckets) h.0 next.1)
