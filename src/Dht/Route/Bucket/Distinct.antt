-- ===== src/Dht/Route/Bucket/Distinct.antt =====
-- Nodes of a bucket (libs_server/vds_dht_network/impl/dht_route.cpp) with different ids or addresses, and `add_node`.
use vds.Common.{
  ℕ, ◌≡◌, refl, ◌∙◌, arith, List, [], ◌∷◌, ◌++◌, Option, none, some, Bool, true, false, not, ◌||◌,
  ltb, ◌==◌, if◌then◌else◌, length,
}
use vds.Dht.Route.Bucket.{
  Session, Node, make_node, is_good, same_bytes, matches, any_matches, reset_first, add_node,
  max_nodes,
}

-- No later node has the id and the address of an earlier one.
abbrev pub Distinct : List Node → Type 0
Distinct [] = Unit {0}
Distinct (p ∷ ps) = (any_matches p.node_id p.proxy_session.address ps ≡ false) × Distinct ps

or_false : (a b : Bool) → (a || b) ≡ false → (a ≡ false) × (b ≡ false)
or_false false false h = (refl, refl)
or_false false true h = cc
or_false true b h = cc

same_bytes_comm : (xs ys : List ℕ) → same_bytes xs ys ≡ same_bytes ys xs
unfolding same_bytes
same_bytes_comm [] [] = refl
same_bytes_comm [] (y ∷ ys) = refl
same_bytes_comm (x ∷ xs) [] = refl
same_bytes_comm (x ∷ xs) (y ∷ ys) = rw (same_bytes_comm xs ys, ==_comm x y) refl
  where
    ==_comm : (a b : ℕ) → (a == b) ≡ (b == a)
    ==_comm a b = ground arith

matches_comm :
    (p q : Node)
    → matches p.node_id p.proxy_session.address q ≡ matches q.node_id q.proxy_session.address p
unfolding matches
matches_comm p q =
    rw
      (
        same_bytes_comm q.node_id p.node_id,
        same_bytes_comm q.proxy_session.address p.proxy_session.address,
      )
      refl

-- No node of the list is the one with this id and address.
abbrev pub Free : List ℕ → List ℕ → List Node → Type 0
Free id address ps = any_matches id address ps ≡ false

pub Free-cons :
    (id address : List ℕ) (p : Node) (ps : List Node)
    → matches id address p ≡ false
    → Free id address ps
    → Free id address (p ∷ ps)
unfolding any_matches
Free-cons id address p ps h free = rw (h, free) refl

pub Free-parts :
    (id address : List ℕ) (p : Node) (ps : List Node)
    → Free id address (p ∷ ps)
    → (matches id address p ≡ false) × Free id address ps
unfolding any_matches
Free-parts id address p ps h = or_false (matches id address p) (any_matches id address ps) h

Free-append :
    (id address : List ℕ) (ps : List Node) (new : Node)
    → Free id address ps
    → matches id address new ≡ false
    → Free id address (ps ++ (new ∷ []))
unfolding any_matches
Free-append id address [] new free h = rw h refl
Free-append id address (p ∷ ps) new free h =
    let parts = Free-parts id address p ps free in
    Free-cons id address p (ps ++ (new ∷ [])) parts.0 (Free-append id address ps new parts.1 h)

Distinct-append :
    (ps : List Node) (new : Node)
    → Distinct ps
    → Free new.node_id new.proxy_session.address ps
    → Distinct (ps ++ (new ∷ []))
unfolding any_matches
Distinct-append [] new d free = (refl, tt)
Distinct-append (p ∷ ps) new d free =
    let parts = Free-parts new.node_id new.proxy_session.address p ps free in
    (
      Free-append p.node_id p.proxy_session.address ps new d.0 (matches_comm p new ∙ parts.0),
      Distinct-append ps new d.1 parts.1,
    )

-- A reset that comes to something leaves the nodes distinct, and free what was free.
abbrev OnReset : Node → List Node → Option (List Node) → Type 0
OnReset new ps none = Unit {0}
OnReset new ps (some qs) =
    Distinct qs
    × ((id address : List ℕ)
        → matches id address new ≡ false
        → Free id address ps
        → Free id address qs)

reset_step :
    (new p : Node) (ps : List Node) (good : Bool) (rest : Option (List Node))
    → Distinct (p ∷ ps)
    → Free new.node_id new.proxy_session.address (p ∷ ps)
    → OnReset new ps rest
    → OnReset new
        (p ∷ ps)
        (if not good then some (new ∷ ps) else elim rest [ none ↦ none | some qs ↦ some (p ∷ qs) ])
reset_step new p ps false rest d free h = (
  ((Free-parts new.node_id new.proxy_session.address p ps free).1, d.1),
  λ id address other fp. Free-cons id address new ps other (Free-parts id address p ps fp).1,
)
reset_step new p ps true none d free h = tt
reset_step new p ps true (some qs) d free h = (
  (
    h.1 p.node_id p.proxy_session.address
        (matches_comm p new ∙ (Free-parts new.node_id new.proxy_session.address p ps free).0) d.0,
    h.0,
  ),
  λ id address other fp.
      let parts = Free-parts id address p ps fp in
      Free-cons id address p qs parts.0 (h.1 id address other parts.1),
)

reset_first-OnReset :
    (new : Node) (ps : List Node)
    → Distinct ps
    → Free new.node_id new.proxy_session.address ps
    → OnReset new ps (reset_first new ps)
unfolding reset_first
reset_first-OnReset new [] d free = tt
reset_first-OnReset new (p ∷ ps) d free =
    reset_step new p ps (is_good p) (reset_first new ps) d free (
      reset_first-OnReset new ps d.1 (Free-parts new.node_id new.proxy_session.address p ps free).1)

abbrev DistinctBehind : Bool × List Node → Type 0
DistinctBehind r = Distinct r.1

add_cases :
    (nodes : List Node) (new : Node) (known room : Bool) (reset : Option (List Node))
    → any_matches new.node_id new.proxy_session.address nodes ≡ known
    → Distinct nodes
    → (Free new.node_id new.proxy_session.address nodes → OnReset new nodes reset)
    → DistinctBehind (
        if known
        then (false, nodes)
        else (if room
            then (true, nodes ++ (new ∷ []))
            else elim reset [ none ↦ (false, nodes) | some qs ↦ (true, qs) ]))
add_cases nodes new true room reset e d h = d
add_cases nodes new false true reset e d h = Distinct-append nodes new d e
add_cases nodes new false false none e d h = d
add_cases nodes new false false (some qs) e d h = (h e).0

pub add_node-Distinct :
    (nodes : List Node) (id : List ℕ) (session : Session) (hops : ℕ) (allow_skip : Bool)
    → Distinct nodes
    → Distinct ((add_node nodes id session hops allow_skip).1)
unfolding add_node
add_node-Distinct nodes id session hops allow_skip d =
    let new = make_node id session hops in
    add_cases nodes new (any_matches id session.address nodes)
      (not allow_skip || hops == 0 || ltb (length nodes) max_nodes) (reset_first new nodes) refl d
      (reset_first-OnReset new nodes d)
