-- ===== src/Dht/Route/Bucket/Ids.antt =====
-- What holds of the ids in a bucket (libs_server/vds_dht_network/impl/dht_route.cpp) is kept by its operations.
use vds.Common.{
  ℕ, ◌≡◌, refl, arith, List, [], ◌∷◌, ◌++◌, map, ◌&&◌, Option, none, some, Bool, true, false, not,
  ◌||◌, ltb, ◌==◌, if◌then◌else◌, length, All, All-append,
}
use mathlib.Core.Path.{ap₂}
use vds.Dht.Route.Bucket.{
  Session, Node, make_node, is_good, same_bytes, matches, any_matches, reset_first, tick, max_nodes,
  add_node, remove_session, mark_pinged,
}

-- What holds of the ids of the nodes of a bucket is kept by its operations.
module _ (Q : List ℕ → Type 0) where
  abbrev pub Ids : List Node → Type 0
  Ids = All (λ p. Q p.node_id)

  abbrev ResetIds : Option (List Node) → Type 0
  ResetIds none = Unit {0}
  ResetIds (some qs) = Ids qs

  reset_step-Ids :
      (new p : Node) (ps : List Node) (good : Bool) (rest : Option (List Node))
      → Q new.node_id
      → Ids (p ∷ ps)
      → ResetIds rest
      → ResetIds (
          if not good then some (new ∷ ps) else elim rest [ none ↦ none | some qs ↦ some (p ∷ qs) ])
  reset_step-Ids new p ps false rest q h r = (q, h.1)
  reset_step-Ids new p ps true none q h r = tt
  reset_step-Ids new p ps true (some qs) q h r = (h.0, r)

  reset_first-Ids :
      (new : Node) (ps : List Node) → Q new.node_id → Ids ps → ResetIds (reset_first new ps)
  unfolding reset_first
  reset_first-Ids new [] q h = tt
  reset_first-Ids new (p ∷ ps) q h =
      reset_step-Ids new p ps (is_good p) (reset_first new ps) q h (reset_first-Ids new ps q h.1)

  abbrev IdsBehind : Bool × List Node → Type 0
  IdsBehind r = Ids r.1

  add_cases :
      (nodes : List Node) (new : Node) (known room : Bool) (reset : Option (List Node))
      → Q new.node_id
      → Ids nodes
      → ResetIds reset
      → IdsBehind (
          if known
          then (false, nodes)
          else (if room
              then (true, nodes ++ (new ∷ []))
              else elim reset [ none ↦ (false, nodes) | some qs ↦ (true, qs) ]))
  add_cases nodes new true room reset q h r = h
  add_cases nodes new false true reset q h r =
      All-append (λ p. Q p.node_id) nodes (new ∷ []) h (q, tt)
  add_cases nodes new false false none q h r = h
  add_cases nodes new false false (some qs) q h r = r

  pub add_node-Ids :
      (nodes : List Node) (id : List ℕ) (session : Session) (hops : ℕ) (allow_skip : Bool)
      → Q id
      → Ids nodes
      → Ids ((add_node nodes id session hops allow_skip).1)
  unfolding add_node
  add_node-Ids nodes id session hops allow_skip q h =
      let new = make_node id session hops in
      add_cases nodes new (any_matches id session.address nodes)
        (not allow_skip || hops == 0 || ltb (length nodes) max_nodes) (reset_first new nodes) q h
        (reset_first-Ids new nodes q h)

  if-Ids : (b : Bool) (ps qs : List Node) → Ids ps → Ids qs → Ids (if b then ps else qs)
  if-Ids true ps qs hp hq = hp
  if-Ids false ps qs hp hq = hq

  pub remove_session-Ids :
      (ps : List Node) (session : Session) → Ids ps → Ids (remove_session ps session)
  unfolding remove_session
  remove_session-Ids [] session h = tt
  remove_session-Ids (p ∷ ps) session h =
      let rest = remove_session-Ids ps session h.1 in
      if-Ids (same_bytes p.proxy_session.address session.address) (remove_session ps session)
        (p ∷ remove_session ps session) rest (h.0, rest)

  pub tick-Ids : (ps : List Node) → Ids ps → Ids (map tick ps)
  unfolding tick
  tick-Ids [] h = tt
  tick-Ids (p ∷ ps) h = (h.0, tick-Ids ps h.1)

  pub mark_pinged-Ids :
      (ps : List Node) (target at : List ℕ) → Ids ps → Ids (mark_pinged ps target at)
  unfolding mark_pinged
  mark_pinged-Ids [] target at h = tt
  mark_pinged-Ids (p ∷ ps) target at h =
      if-Ids (matches target at p) (record p { pinged = 0 } ∷ ps) (p ∷ mark_pinged ps target at) h
        (h.0, mark_pinged-Ids ps target at h.1)

pub same_bytes→eq : (xs ys : List ℕ) → same_bytes xs ys ≡ true → xs ≡ ys
unfolding same_bytes
same_bytes→eq [] [] h = refl
same_bytes→eq [] (y ∷ ys) h = cc
same_bytes→eq (x ∷ xs) [] h = cc
same_bytes→eq (x ∷ xs) (y ∷ ys) h =
    ap₂ ◌∷◌ (heads x y (same_bytes xs ys) h)
      (same_bytes→eq xs ys (tails (x == y) (same_bytes xs ys) h))
  where
    heads : (a b : ℕ) (c : Bool) → (a == b && c) ≡ true → a ≡ b
    heads a b c h = ground arith

    tails : (a b : Bool) → (a && b) ≡ true → b ≡ true
    tails true true h = refl
    tails true false h = cc
    tails false b h = cc
