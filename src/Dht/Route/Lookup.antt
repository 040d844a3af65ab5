-- ===== src/Dht/Route/Lookup.antt =====
-- `add_node` of `dht_route` (libs_server/vds_dht_network/impl/dht_route.cpp) seen through lookups of its buckets.
mod Examples
use vds.Common.{
  ℕ, ◌≡◌, refl, sym, ap, ◌∙◌, subst, arith, List, [], ◌∷◌, Bool, true, false, ◌||◌, ◌⊎◌, inl, inr,
  ltb, ◌==◌, if◌then◌else◌,
}
use vds.Dht.ObjectId.{distance_exp}
use vds.Dht.Route.Bucket
use vds.Dht.Route.Bucket.{Session, Node, make_node, is_good, same_bytes}
use vds.Dht.Route.Bucket.Nodes.{Has, Added, add_node-Added}
use vds.Dht.Route.{Route, bucket_at, put_bucket, add_node}

abbrev Entries : Type 0
Entries = List (ℕ × List Node)

same_key : (j index k : ℕ) → (index == k) ≡ true → (j == index) ≡ false → (j == k) ≡ true → ⊥
same_key j index k es ea eb = ground arith

one_key : (j index k : ℕ) → (index == k) ≡ false → (j == index) ≡ true → (j == k) ≡ true → ⊥
one_key j index k es ea eb = ground arith

-- One entry of `put_bucket`, seen at an index: the three cases of the order of the keys.
at_put :
    (j index k : ℕ) (nodes here : List Node) (bs rest : Entries) (less same : Bool)
    → ltb index k ≡ less
    → (index == k) ≡ same
    → bucket_at j rest ≡ (if j == index then nodes else bucket_at j bs)
    → bucket_at j (
        if less
        then (index, nodes) ∷ (k, here) ∷ bs
        else (if same then (index, nodes) ∷ bs else (k, here) ∷ rest))
      ≡ (if j == index then nodes else bucket_at j ((k, here) ∷ bs))
unfolding bucket_at
at_put j index k nodes here bs rest true same el es h = refl
at_put j index k nodes here bs rest false true el es h = other (j == index) (j == k) refl refl
  where
    other :
        (a b : Bool)
        → (j == index) ≡ a
        → (j == k) ≡ b
        → (if a then nodes else bucket_at j bs)
          ≡ (if a then nodes else (if b then here else bucket_at j bs))
    other true b ea eb = refl
    other false true ea eb = absurd (same_key j index k es ea eb)
    other false false ea eb = refl
at_put j index k nodes here bs rest false false el es h = other (j == index) (j == k) refl refl
  where
    other :
        (a b : Bool)
        → (j == index) ≡ a
        → (j == k) ≡ b
        → (if b then here else bucket_at j rest)
          ≡ (if a then nodes else (if b then here else bucket_at j bs))
    other true true ea eb = absurd (one_key j index k es ea eb)
    other true false ea eb = h ∙ rw ea refl
    other false true ea eb = refl
    other false false ea eb = h ∙ rw ea refl

-- A lookup behind `put_bucket` finds the nodes that were put, and every other bucket as it was.
pub bucket_at-put_bucket :
    (j index : ℕ) (nodes : List Node) (bs : Entries)
    → bucket_at j (put_bucket index nodes bs) ≡ (if j == index then nodes else bucket_at j bs)
unfolding put_bucket bucket_at
bucket_at-put_bucket j index nodes [] = refl
bucket_at-put_bucket j index nodes (b ∷ bs) =
    at_put j index b.0 nodes b.1 bs (put_bucket index nodes bs) (ltb index b.0) (index == b.0) refl
      refl (bucket_at-put_bucket j index nodes bs)

-- What `add_node` of the table comes to, with a lookup at `j` behind it: the new node is the current one or
-- comes through it, and nothing changed; or it is not, and the bucket of its exponent is as `add_node` of a bucket
-- leaves it, and the lookup finds that bucket, or another one as it was.
abbrev pub AddedAt : Route → Node → ℕ → Bool × Route → Type 0
AddedAt r new j (added, r') =
    (((same_bytes new.node_id r.current_node_id
          || same_bytes new.proxy_session.partner_node_id r.current_node_id)
        ≡ true)
      × (added ≡ false)
      × (r' ≡ r))
    ⊎ (((same_bytes new.node_id r.current_node_id
            || same_bytes new.proxy_session.partner_node_id r.current_node_id)
          ≡ false)
        × Added (bucket_at (distance_exp r.current_node_id new.node_id) r.buckets) new
            (added, bucket_at (distance_exp r.current_node_id new.node_id) r'.buckets)
        × (bucket_at j r'.buckets ≡ (
            if j == distance_exp r.current_node_id new.node_id
            then bucket_at (distance_exp r.current_node_id new.node_id) r'.buckets
            else bucket_at j r.buckets)))

self_eq : (n : ℕ) → (n == n) ≡ true
self_eq n = ground arith

added_cases :
    (r : Route) (id : List ℕ) (session : Session) (hops : ℕ) (allow_skip : Bool) (j : ℕ)
    (own : Bool)
    → (same_bytes id r.current_node_id || same_bytes session.partner_node_id r.current_node_id)
      ≡ own
    → (let index = distance_exp r.current_node_id id in
        let added = Bucket.add_node (bucket_at index r.buckets) id session hops allow_skip in
        AddedAt r (make_node id session hops) j (
          if own
          then (false, r)
          else (added.0, record r { buckets = put_bucket index added.1 r.buckets })))
added_cases r id session hops allow_skip j true e = inl (e, refl, refl)
added_cases r id session hops allow_skip j false e =
    let index = distance_exp r.current_node_id id in
    let nodes = bucket_at index r.buckets in
    let added = Bucket.add_node nodes id session hops allow_skip in
    let here = bucket_at-put_bucket index index added.1 r.buckets ∙ rw (self_eq index) refl in
    inr (
      e,
      subst (λ ns. Added nodes (make_node id session hops) (added.0, ns)) (sym here)
          (add_node-Added nodes id session hops allow_skip),
      bucket_at-put_bucket j index added.1 r.buckets
          ∙ ap (λ ns. if j == index then ns else bucket_at j r.buckets) (sym here),
    )

-- `add_node` of the table refuses the current node itself, and what comes through it, and changes
-- nothing. With any other node it does with the bucket of the node's exponent what `add_node` of a bucket
-- does: refuse a known node, or any node where all are good, or take the node and keep every good one.
-- A lookup of that bucket sees just this, and of any other bucket no change.
pub add_node-AddedAt :
    (r : Route) (id : List ℕ) (session : Session) (hops : ℕ) (allow_skip : Bool) (j : ℕ)
    → AddedAt r (make_node id session hops) j (add_node r id session hops allow_skip)
unfolding add_node
add_node-AddedAt r id session hops allow_skip j = added_cases r id session hops allow_skip j _ refl
