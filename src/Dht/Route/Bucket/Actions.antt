-- ===== src/Dht/Route/Bucket/Actions.antt =====
-- Runs of a bucket (libs_server/vds_dht_network/impl/dht_route.cpp): whatever is done to it, no node stands in it
-- twice.
use vds.Common.{ℕ, ◌≡◌, refl, ◌∙◌, List, [], ◌∷◌, map, Bool, true, false, if◌then◌else◌}
use vds.Dht.Route.Bucket.{
  Session, Node, same_bytes, matches, any_matches, add_node, remove_session, on_timer, mark_pinged,
  tick,
}
use vds.Dht.Route.Bucket.Distinct.{Distinct, Free, Free-cons, Free-parts, add_node-Distinct}

pub data Action : Type 0 where
  adds : List ℕ → Session → ℕ → Bool → Action
  removes : Session → Action
  times : Action
  marks : List ℕ → List ℕ → Action

unfoldable pub act : List Node → Action → List Node
act nodes (adds id session hops allow_skip) = (add_node nodes id session hops allow_skip).1
act nodes (removes session) = remove_session nodes session
act nodes times = (on_timer nodes).0
act nodes (marks target address) = mark_pinged nodes target address

unfoldable pub run : List Node → List Action → List Node
run nodes [] = nodes
run nodes (a ∷ rest) = run (act nodes a) rest

-- A change of the counters keeps what is free.
Free-tick :
    (id address : List ℕ) (ps : List Node)
    → any_matches id address (map tick ps) ≡ any_matches id address ps
unfolding any_matches matches tick
Free-tick id address [] = refl
Free-tick id address (p ∷ ps) = rw (Free-tick id address ps) refl

Distinct-tick : (ps : List Node) → Distinct ps → Distinct (map tick ps)
unfolding tick
Distinct-tick [] d = tt
Distinct-tick (p ∷ ps) d =
    (Free-tick p.node_id p.proxy_session.address ps ∙ d.0, Distinct-tick ps d.1)

mark_cases :
    (id address : List ℕ) (p : Node) (ps qs : List Node) (b : Bool)
    → any_matches id address qs ≡ any_matches id address ps
    → any_matches id address (if b then record p { pinged = 0 } ∷ ps else p ∷ qs)
      ≡ any_matches id address (p ∷ ps)
unfolding any_matches matches
mark_cases id address p ps qs true e = refl
mark_cases id address p ps qs false e = rw e refl

Free-mark_pinged :
    (id address target at : List ℕ) (ps : List Node)
    → any_matches id address (mark_pinged ps target at) ≡ any_matches id address ps
unfolding mark_pinged
Free-mark_pinged id address target at [] = refl
Free-mark_pinged id address target at (p ∷ ps) =
    mark_cases id address p ps (mark_pinged ps target at) (matches target at p)
      (Free-mark_pinged id address target at ps)

mark_Distinct :
    (p : Node) (ps qs : List Node) (b : Bool)
    → Distinct (p ∷ ps)
    → Distinct qs
    → any_matches p.node_id p.proxy_session.address qs
      ≡ any_matches p.node_id p.proxy_session.address ps
    → Distinct (if b then record p { pinged = 0 } ∷ ps else p ∷ qs)
mark_Distinct p ps qs true d dq e = d
mark_Distinct p ps qs false d dq e = (e ∙ d.0, dq)

Distinct-mark_pinged :
    (ps : List Node) (target at : List ℕ) → Distinct ps → Distinct (mark_pinged ps target at)
unfolding mark_pinged
Distinct-mark_pinged [] target at d = tt
Distinct-mark_pinged (p ∷ ps) target at d =
    mark_Distinct p ps (mark_pinged ps target at) (matches target at p) d
      (Distinct-mark_pinged ps target at d.1)
      (Free-mark_pinged p.node_id p.proxy_session.address target at ps)

remove_cases :
    (id address : List ℕ) (p : Node) (ps qs : List Node) (b : Bool)
    → Free id address (p ∷ ps)
    → (Free id address ps → Free id address qs)
    → Free id address (if b then qs else p ∷ qs)
remove_cases id address p ps qs true free h = h (Free-parts id address p ps free).1
remove_cases id address p ps qs false free h =
    let parts = Free-parts id address p ps free in Free-cons id address p qs parts.0 (h parts.1)

Free-remove_session :
    (id address : List ℕ) (ps : List Node) (session : Session)
    → Free id address ps
    → Free id address (remove_session ps session)
unfolding remove_session
Free-remove_session id address [] session free = free
Free-remove_session id address (p ∷ ps) session free =
    remove_cases id address p ps (remove_session ps session)
      (same_bytes p.proxy_session.address session.address) free
      (Free-remove_session id address ps session)

remove_Distinct :
    (p : Node) (qs : List Node) (b : Bool)
    → Free p.node_id p.proxy_session.address qs
    → Distinct qs
    → Distinct (if b then qs else p ∷ qs)
remove_Distinct p qs true free d = d
remove_Distinct p qs false free d = (free, d)

Distinct-remove_session :
    (ps : List Node) (session : Session) → Distinct ps → Distinct (remove_session ps session)
unfolding remove_session
Distinct-remove_session [] session d = tt
Distinct-remove_session (p ∷ ps) session d =
    remove_Distinct p (remove_session ps session)
      (same_bytes p.proxy_session.address session.address)
      (Free-remove_session p.node_id p.proxy_session.address ps session d.0)
      (Distinct-remove_session ps session d.1)

act-Distinct : (nodes : List Node) (a : Action) → Distinct nodes → Distinct (act nodes a)
unfolding act on_timer
act-Distinct nodes (adds id session hops allow_skip) d =
    add_node-Distinct nodes id session hops allow_skip d
act-Distinct nodes (removes session) d = Distinct-remove_session nodes session d
act-Distinct nodes times d = Distinct-tick nodes d
act-Distinct nodes (marks target address) d = Distinct-mark_pinged nodes target address d

-- Whatever is done to a bucket, in any order, in which no node stands twice (as in a new bucket), no two
-- of its nodes have the same id and address.
pub run-Distinct :
    (actions : List Action) (nodes : List Node) → Distinct nodes → Distinct (run nodes actions)
unfolding run
run-Distinct [] nodes d = d
run-Distinct (a ∷ rest) nodes d = run-Distinct rest (act nodes a) (act-Distinct nodes a d)
