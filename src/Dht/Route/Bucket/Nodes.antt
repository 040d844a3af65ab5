-- ===== src/Dht/Route/Bucket/Nodes.antt =====
-- `add_node` of a bucket (libs_server/vds_dht_network/impl/dht_route.cpp): what it takes, keeps and drops.
use vds.Common.{
  ℕ, ◌≤◌, ◌<◌, ◌≡◌, refl, arith, List, [], ◌∷◌, ◌++◌, Option, none, some, Bool, true, false, not,
  ◌||◌, ◌⊎◌, inl, inr, ltb, ltb→lt, ◌==◌, if◌then◌else◌, length, length-append, All, ap, suc,
}
use vds.Dht.Route.Bucket.{
  Session, Node, make_node, is_good, any_matches, max_nodes, reset_first, add_node,
}

abbrev pub Has : Node → List Node → Type 0
Has p [] = ⊥
Has p (q ∷ qs) = (p ≡ q) ⊎ Has p qs

Has-append : (p : Node) (ps qs : List Node) → Has p ps → Has p (ps ++ qs)
Has-append p (q ∷ ps) qs (inl e) = inl e
Has-append p (q ∷ ps) qs (inr h) = inr (Has-append p ps qs h)
Has-append p [] qs h = absurd h

Has-last : (p : Node) (ps : List Node) → Has p (ps ++ (p ∷ []))
Has-last p [] = inl refl
Has-last p (q ∷ ps) = inr (Has-last p ps)

-- A reset keeps the good nodes and the number of nodes, and puts the new node in.
abbrev ResetTo : Node → List Node → List Node → Type 0
ResetTo new ps qs =
    (length qs ≡ length ps) × Has new qs × ((p : Node) → is_good p ≡ true → Has p ps → Has p qs)

-- What a reset comes to: with no result every node is good.
abbrev OnReset : Node → List Node → Option (List Node) → Type 0
OnReset new ps none = All (λ p. is_good p ≡ true) ps
OnReset new ps (some qs) = ResetTo new ps qs

reset_step :
    (new p : Node) (ps : List Node) (good : Bool) (rest : Option (List Node))
    → is_good p ≡ good
    → OnReset new ps rest
    → OnReset new
        (p ∷ ps)
        (if not good then some (new ∷ ps) else elim rest [ none ↦ none | some qs ↦ some (p ∷ qs) ])
reset_step new p ps false rest e h = (refl, inl refl, keeps)
  where
    keeps : (q : Node) → is_good q ≡ true → Has q (p ∷ ps) → Has q (new ∷ ps)
    keeps q good (inl same) = cc
    keeps q good (inr has) = inr has
reset_step new p ps true none e h = (e, h)
reset_step new p ps true (some qs) e h = (ap suc h.0, inr h.1, keeps)
  where
    keeps : (q : Node) → is_good q ≡ true → Has q (p ∷ ps) → Has q (p ∷ qs)
    keeps q good (inl same) = inl same
    keeps q good (inr has) = inr (h.2 q good has)

reset_first-OnReset : (new : Node) (ps : List Node) → OnReset new ps (reset_first new ps)
unfolding reset_first
reset_first-OnReset new [] = tt
reset_first-OnReset new (p ∷ ps) =
    reset_step new p ps (is_good p) (reset_first new ps) refl (reset_first-OnReset new ps)

unfoldable pub good_nodes : List Node → List Node
good_nodes [] = []
good_nodes (p ∷ ps) = let rest = good_nodes ps in if is_good p then p ∷ rest else rest

kept_good :
    (ps qs : List Node)
    → ((p : Node) → is_good p ≡ true → Has p ps → Has p qs)
    → All (λ p. Has p qs) (good_nodes ps)
unfolding good_nodes
kept_good [] qs keeps = tt
kept_good (p ∷ ps) qs keeps =
    either (is_good p) refl (kept_good ps qs λ q good has. keeps q good (inr has))
  where
    either :
        (b : Bool)
        → is_good p ≡ b
        → All (λ q. Has q qs) (good_nodes ps)
        → All (λ q. Has q qs) (if b then p ∷ good_nodes ps else good_nodes ps)
    either true e rest = (keeps p e (inl refl), rest)
    either false e rest = rest

-- What `add_node` of a bucket comes to: the new node was refused and nothing changed, since it is known
-- or every node is good; or it was taken, behind the nodes or in the place of one that is not good.
abbrev pub Added : List Node → Node → Bool × List Node → Type 0
Added nodes new r =
    ((r.0 ≡ false)
      × (r.1 ≡ nodes)
      × ((any_matches new.node_id new.proxy_session.address nodes ≡ true)
          ⊎ All (λ p. is_good p ≡ true) nodes))
    ⊎ ((r.0 ≡ true)
        × Has new r.1
        × (any_matches new.node_id new.proxy_session.address nodes ≡ false)
        × All (λ p. Has p r.1) (good_nodes nodes))

Added-cases :
    (nodes : List Node) (new : Node) (known room : Bool) (reset : Option (List Node))
    → any_matches new.node_id new.proxy_session.address nodes ≡ known
    → OnReset new nodes reset
    → Added nodes new (
        if known
        then (false, nodes)
        else (if room
            then (true, nodes ++ (new ∷ []))
            else elim reset [ none ↦ (false, nodes) | some qs ↦ (true, qs) ]))
Added-cases nodes new true room reset e h = inl (refl, refl, inl e)
Added-cases nodes new false true reset e h = inr (
  refl,
  Has-last new nodes,
  e,
  kept_good nodes (nodes ++ (new ∷ [])) λ p good has. Has-append p nodes (new ∷ []) has,
)
Added-cases nodes new false false none e h = inl (refl, refl, inr h)
Added-cases nodes new false false (some qs) e h = inr (refl, h.1, e, kept_good nodes qs h.2)

-- `add_node` of a bucket either refuses the new node and leaves the bucket as it is, and then the node is
-- known or every node in the bucket is good; or it takes the node, which was not known, and keeps
-- every good node of the bucket.
pub add_node-Added :
    (nodes : List Node) (id : List ℕ) (session : Session) (hops : ℕ) (allow_skip : Bool)
    → Added nodes (make_node id session hops) (add_node nodes id session hops allow_skip)
unfolding add_node
add_node-Added nodes id session hops allow_skip =
    let new = make_node id session hops in
    Added-cases nodes new (any_matches id session.address nodes)
      (not allow_skip || hops == 0 || ltb (length nodes) max_nodes) (reset_first new nodes) refl
      (reset_first-OnReset new nodes)

abbrev Fits : Bool × List Node → Type 0
Fits r = length r.1 ≤ max_nodes

Fits-cases :
    (nodes : List Node) (new : Node) (known room : Bool) (reset : Option (List Node))
    → ltb (length nodes) max_nodes ≡ room
    → OnReset new nodes reset
    → length nodes ≤ max_nodes
    → Fits (
        if known
        then (false, nodes)
        else (if room
            then (true, nodes ++ (new ∷ []))
            else elim reset [ none ↦ (false, nodes) | some qs ↦ (true, qs) ]))
Fits-cases nodes new true room reset e h fits = fits
Fits-cases nodes new false true reset e h fits =
    rw (length-append nodes (new ∷ [])) (ground (arith, ltb→lt (length nodes) max_nodes e))
Fits-cases nodes new false false none e h fits = fits
Fits-cases nodes new false false (some qs) e h fits = rw (h.0) fits

far_not : (hops : ℕ) → 0 < hops → (hops == 0) ≡ false
far_not hops far = ground arith

far_skips : (hops : ℕ) (room : Bool) → 0 < hops → (false || hops == 0 || room) ≡ room
far_skips hops room far = rw (far_not hops far) refl

-- A bucket of at most MAX_NODES nodes keeps to that bound when a node that is behind other nodes is
-- added and may be skipped.
pub add_node-fits :
    (nodes : List Node) (id : List ℕ) (session : Session) (hops : ℕ)
    → 0 < hops
    → length nodes ≤ max_nodes
    → length ((add_node nodes id session hops true).1) ≤ max_nodes
unfolding add_node
add_node-fits nodes id session hops far fits =
    let new = make_node id session hops in
    let fit =
      Fits-cases nodes new (any_matches id session.address nodes) (ltb (length nodes) max_nodes)
        (reset_first new nodes) refl (reset_first-OnReset new nodes) fits in
    rw (far_skips hops (ltb (length nodes) max_nodes) far) fit
