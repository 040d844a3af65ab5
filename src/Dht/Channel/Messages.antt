-- ===== src/Dht/Channel/Messages.antt =====
-- A message of the sender, in one or more datagrams, at the receiver
-- (libs_server/vds_dht_network/impl/dht_datagram_protocol.cpp).
use vds.Common.{
  ℕ, suc, ◌+◌, ◌-◌, ◌%◌, ◌^◌, ◌≤◌, ◌<◌, ◌≡◌, refl, sym, ap, ◌∙◌, subst, arith, List, [], ◌∷◌, none,
  some, Bool, true, false, not, ◌||◌, ltb, ltb→lt, if◌then◌else◌, length, length-take, length-drop,
  take, drop, ◌⊎◌, inl, inr,
}
use mathlib.Core.Option.{some-injective}
use vds.Dht.Route.Bucket.{same_bytes}
use vds.Dht.Route.Bucket.Ids.{same_bytes→eq}
use vds.Dht.Protocol.{Hmac, Protocol}
use vds.Dht.Protocol.Receive.{step_at, gather}
use vds.Dht.Protocol.Send.{
  Way, direct, routed, way_of, way_size, part, asserted, first_many, continued, datagrams,
}
use vds.Dht.Channel.{Outgoing, datagrams_of, IsSendable, IsReadable}
use vds.Dht.Channel.Parts.{ReadAs, length-way_bytes}
use vds.Dht.Channel.Single.{single, single_at-single}
use vds.Dht.Channel.Many.{taken, many_at-first_many, length-first_many}
use vds.Dht.Channel.Fragments.{Agrees, Gathers, Ready, gather-continued, take-drop}

-- The datagrams of a message are one with the whole of it, or a first one with the piece that fits and
-- those that go on with the rest.
abbrev pub Datagrams :
    Hmac → ℕ → ℕ → ℕ → Way → List ℕ → List (List ℕ) → List ℕ → List (List ℕ) → Type 0
Datagrams h mtu index t way target hops body ds =
    ((1 + 4 + 32 + length body + way_size way hops < mtu)
      × (ds ≡ single h index t way target hops body ∷ []))
    ⊎ ((mtu ≤ 1 + 4 + 32 + length body + way_size way hops)
        × (41 + way_size way hops ≤ mtu)
        × (ds
            ≡ first_many h index t (length body) way target hops
                (take (mtu - (41 + way_size way hops)) body)
              ∷ continued h mtu (suc (length body)) ((index + 1) % 2 ^ 32)
                  (drop (mtu - (41 + way_size way hops)) body)))

or_left : (a b : Bool) → (a || b) ≡ false → a ≡ false
or_left false b h = refl
or_left true b h = cc

split_cases :
    (n m o : ℕ) (ok small over : Bool) (xs : List (List ℕ)) (ys : List ℕ → List (List ℕ))
    (body : List ℕ) (ds : List (List ℕ))
    → ltb n m ≡ small
    → (ltb m o || ok) ≡ over
    → (if small
        then some xs
        else (if over
            then none
            else elim (part (m - o) body) [ none ↦ none | some piece ↦ some (ys piece) ]))
      ≡ some ds
    → ((n < m) × (ds ≡ xs)) ⊎ ((m ≤ n) × (o ≤ m) × (ds ≡ ys (take (m - o) body)))
split_cases n m o ok true over xs ys body ds es eo e =
    inl (ltb→lt n m es, sym (some-injective xs ds e))
split_cases n m o ok false true xs ys body ds es eo e = cc
split_cases n m o ok false false xs ys body ds es eo e = piece (ltb (length body) (m - o)) e
  where
    piece :
        (short : Bool)
        → elim (if short then none else some (take (m - o) body)) [
          | none ↦ none
          | some piece ↦ some (ys piece)
        ]
          ≡ some ds
        → ((n < m) × (ds ≡ xs)) ⊎ ((m ≤ n) × (o ≤ m) × (ds ≡ ys (take (m - o) body)))
    piece true e = cc
    piece false e = inr (
      ground (arith, es),
      ground (arith, or_left (ltb m o) ok eo),
      sym (some-injective (ys (take (m - o) body)) ds e),
    )

pub datagrams-Datagrams :
    (h : Hmac) (mtu index t : ℕ) (way : Way) (target : List ℕ) (hops : List (List ℕ))
    (body : List ℕ) (ds : List (List ℕ))
    → datagrams h mtu index t way target hops body ≡ some ds
    → Datagrams h mtu index t way target hops body ds
unfolding datagrams
datagrams-Datagrams h mtu index t way target hops body ds e =
    split_cases (1 + 4 + 32 + length body + way_size way hops) mtu (41 + way_size way hops)
      (not (asserted way target hops)) _ _ (single h index t way target hops body ∷ [])
      (λ piece.
        first_many h index t (length body) way target hops piece
        ∷ continued h mtu (suc (length body)) ((index + 1) % 2 ^ 32)
            (drop (mtu - (41 + way_size way hops)) body))
      body ds refl refl e

-- The way of a message is the one that its target and hops ask for.
way-ReadAs :
    (partner target : List ℕ) (hops : List (List ℕ))
    → ReadAs (way_of partner target hops) partner target hops
unfolding way_of
way-ReadAs partner target [] = direct_or (same_bytes partner target) refl
  where
    direct_or :
        (b : Bool)
        → same_bytes partner target ≡ b
        → ReadAs (if b then direct else routed) partner target []
    direct_or true e = (sym (same_bytes→eq partner target e), refl)
    direct_or false e = refl
way-ReadAs partner target (hop ∷ hops) = omega arith

-- What the receiver does where the first datagram of a message stands at the expected index, and nothing
-- but the others of that message behind it.
abbrev pub Takes : Protocol → Outgoing → List (List ℕ) → Type 0
Takes p o [] = ⊥
Takes p o (d ∷ rest) =
    Gathers (taken p o.message_type o.target_node o.hops) p.input_messages (p.expected_index + 1)
      rest o.body (1 + length rest) (step_at p d)

Takes-single :
    (p : Protocol) (h : Hmac) (o : Outgoing)
    → IsSendable o
    → Takes p o (
        single h p.expected_index o.message_type
          (way_of p.this_node_id o.target_node o.hops)
          o.target_node
          o.hops
          o.body
        ∷ [])
Takes-single p h o ok = inr (
    single_at-single p h p.expected_index o.message_type
      (way_of p.this_node_id o.target_node o.hops) o.target_node o.hops o.body ok.small_type
      ok.target_id ok.hop_ids ok.few_hops (way-ReadAs p.this_node_id o.target_node o.hops))

Takes-many :
    (p : Protocol) (h : Hmac) (mtu room : ℕ) (o : Outgoing) (way : Way) (rest : List (List ℕ))
    → way ≡ way_of p.this_node_id o.target_node o.hops
    → IsSendable o
    → mtu < length o.body + 106
    → mtu ≤ 37 + length o.body + way_size way o.hops
    → 41 + way_size way o.hops + room ≡ mtu
    → 0 < room
    → rest
      ≡ continued h mtu (suc (length o.body)) ((p.expected_index + 1) % 2 ^ 32) (drop room o.body)
    → p.expected_index + 1 + length rest < 2 ^ 32
    → Agrees p.input_messages (p.expected_index + 1) rest
    → Takes p o (
        first_many h p.expected_index o.message_type
          (length o.body)
          way
          o.target_node
          o.hops
          (take room o.body)
        ∷ rest)
Takes-many p h mtu room o way rest ew ok readable big split some_room er fits agrees =
    let n : length (take room o.body) ≡ room = length-take room o.body (omega arith) in
    let m = length-drop room o.body in
    let w = length-way_bytes way o.target_node o.hops ok.target_id ok.hop_ids in
    let first =
      many_at-first_many p h p.expected_index o.message_type (length o.body) way o.target_node
        o.hops (take room o.body) ok.small_type ok.target_id ok.hop_ids ok.few_hops
        (subst (λ v. ReadAs v p.this_node_id o.target_node o.hops) (sym ew)
          (way-ReadAs p.this_node_id o.target_node o.hops))
        (omega (arith, n)) (omega (arith, n))
        (omega (
          arith,
          n,
          w,
          length-first_many h p.expected_index o.message_type (length o.body) way o.target_node
              o.hops (take room o.body),
        ))
        ok.small_body in
    let same : rest
        ≡ continued h mtu (suc (length o.body)) (p.expected_index + 1) (drop room o.body) =
      er
      ∙ ap (λ (j : ℕ). continued h mtu (suc (length o.body)) j (drop room o.body)) (omega arith) in
    let left : length (drop room o.body) ≡ length o.body - length (take room o.body) =
      omega (arith, n, m) in
    let finish = taken p o.message_type o.target_node o.hops in
    let fuel = suc (length o.body - length (take room o.body)) in
    let ready =
      subst
        (λ ds.
          Ready finish p.input_messages p.expected_index fuel 1 (drop room o.body)
            (take room o.body) ds)
        (sym same)
        (gather-continued finish p.input_messages p.expected_index h mtu (suc (length o.body)) fuel
          1 (drop room o.body) (take room o.body) (omega arith) (omega (arith, n, m))
          (omega (arith, m)) (omega (arith, n, m))) in
    let gathered =
      subst
        (λ (body : List ℕ).
          Gathers finish p.input_messages (p.expected_index + 1) rest body (1 + length rest) (
            gather finish p.input_messages p.expected_index fuel 1 (length (drop room o.body))
              (take room o.body)))
        (take-drop room o.body) (ready fits agrees) in
    subst (Gathers finish p.input_messages (p.expected_index + 1) rest o.body (1 + length rest))
      (ap (λ (j : ℕ). gather finish p.input_messages p.expected_index fuel 1 j (take room o.body))
          left
        ∙ sym first)
      gathered

-- The sender's assertion that a datagram has room for more than its head.
abbrev pub HasRoom : List ℕ → ℕ → Outgoing → Type 0
HasRoom partner mtu o = 41 + way_size (way_of partner o.target_node o.hops) o.hops < mtu

pub datagrams_of-Takes :
    (p : Protocol) (h : Hmac) (mtu : ℕ) (o : Outgoing) (ds : List (List ℕ))
    → datagrams_of h p.this_node_id mtu p.expected_index o ≡ some ds
    → IsSendable o
    → HasRoom p.this_node_id mtu o
    → IsReadable p.this_node_id mtu o
    → p.expected_index + length ds < 2 ^ 32
    → Agrees p.input_messages p.expected_index ds
    → Takes p o ds
datagrams_of-Takes p h mtu o ds e ok has_room readable fits agrees =
    let way = way_of p.this_node_id o.target_node o.hops in
    elim (datagrams-Datagrams h mtu p.expected_index o.message_type way o.target_node o.hops o.body
      ds e) [
        | inl whole ↦ subst (Takes p o) (sym whole.1) (Takes-single p h o ok)
        | inr pieces ↦
            let head : List ℕ =
              first_many h p.expected_index o.message_type (length o.body) way o.target_node o.hops
                (take (mtu - (41 + way_size way o.hops)) o.body) in
            let rest : List (List ℕ) =
              continued h mtu (suc (length o.body)) ((p.expected_index + 1) % 2 ^ 32)
                (drop (mtu - (41 + way_size way o.hops)) o.body) in
            let same : ds ≡ head ∷ rest = pieces.2 in
            let fits' : p.expected_index + length (head ∷ rest) < 2 ^ 32 =
              subst (λ (xs : List (List ℕ)). p.expected_index + length xs < 2 ^ 32) same fits in
            let agrees' : Agrees p.input_messages p.expected_index (head ∷ rest) =
              subst (Agrees p.input_messages p.expected_index) same agrees in
            subst (Takes p o) (sym same) (
              Takes-many p h mtu (mtu - (41 + way_size way o.hops)) o way rest refl ok
                (long readable pieces.0) (omega (arith, pieces.0)) (omega (arith, pieces.1))
                (omega (arith, has_room)) refl (omega (arith, fits')) agrees'.1)
      ]
  where
    long :
        IsReadable p.this_node_id mtu o
        → mtu ≤ 37 + length o.body + way_size (way_of p.this_node_id o.target_node o.hops) o.hops
        → mtu < length o.body + 106
    long (inl fits) le = absurd (omega arith)
    long (inr big) le = big
