-- ===== src/Dht/Channel/Bounds.antt =====
-- The sizes of the datagrams that `prepare_to_send` of libs_server/vds_dht_network/impl/dht_datagram_protocol.cpp makes.
pub mod Examples
use vds.Common.{
  ℕ, zero, suc, ◌+◌, ◌-◌, ◌*◌, ◌/◌, ◌%◌, ◌^◌, ◌≤◌, ◌<◌, ◌≡◌, refl, sym, ap, ◌∙◌, subst, arith, List,
  [], ◌∷◌, ◌++◌, Option, some, Bool, true, false, ltb, leb, if◌then◌else◌, length, length-append,
  length-take, length-drop, take, drop, All, ◌⊎◌, inl, inr,
}
use vds.Dht.Protocol.{Hmac, be32, sign, continue_data}
use vds.Dht.Protocol.Send.{Way, way_of, way_size, way_bytes, first_many, continued}
use vds.Dht.Channel.{Outgoing, datagrams_of, IsSendable}
use vds.Dht.Channel.Header.{length-sign}
use vds.Dht.Channel.Parts.{length-way_bytes}
use vds.Dht.Channel.Single.{length-single}
use vds.Dht.Channel.Many.{length-first_many}
use vds.Dht.Channel.Messages.{datagrams-Datagrams}

-- At most so many datagrams of at most so many bytes, with room for a head and a signature in each.
abbrev pub FitsMtu : ℕ → ℕ → List (List ℕ) → Type 0
FitsMtu mtu count ds = (length ds ≤ count) × All (λ d. (37 ≤ length d) × (length d ≤ mtu)) ds

continued-piece :
    (h : Hmac) (mtu count index size : ℕ) (rest : List ℕ) (last : Bool) (more : List (List ℕ))
    → 37 ≤ mtu
    → size ≤ mtu - 37
    → size ≤ length rest
    → FitsMtu mtu count more
    → FitsMtu mtu
        (suc count)
        (sign h (continue_data ∷ (be32 index ++ take size rest)) ∷ (if last then [] else more))
continued-piece h mtu count index size rest last more big le le' (few, fits) =
    let n = length-sign h (continue_data ∷ (be32 index ++ take size rest)) in
    let m = length-take size rest le' in either last (omega (arith, n, m), omega (arith, n, m))
  where
    either :
        (b : Bool)
        → (37 ≤ length (sign h (continue_data ∷ (be32 index ++ take size rest))))
          × (length (sign h (continue_data ∷ (be32 index ++ take size rest))) ≤ mtu)
        → FitsMtu mtu
            (suc count)
            (sign h (continue_data ∷ (be32 index ++ take size rest)) ∷ (if b then [] else more))
    either true head = (omega arith, (head, tt))
    either false head = (omega (arith, few), (head, fits))

continued-FitsMtu :
    (h : Hmac) (mtu fuel index : ℕ) (rest : List ℕ)
    → 37 ≤ mtu
    → FitsMtu mtu fuel (continued h mtu fuel index rest)
unfolding continued
continued-FitsMtu h mtu zero index rest big = (omega arith, tt)
continued-FitsMtu h mtu (suc fuel) index rest big =
    let size = if ltb (length rest) (mtu - (1 + 4 + 32)) then length rest else mtu - (1 + 4 + 32) in
    continued-piece h mtu fuel index size rest (leb (length rest) size) _ big (ground arith)
      (ground arith) (continued-FitsMtu h mtu fuel ((index + 1) % 2 ^ 32) (drop size rest) big)

-- No datagram of a message is longer than the MTU, and each one has at least its code, index and signature.
-- A message has at most two datagrams more than its body has bytes. The ids of the target and the hops have 32
-- bytes, and the other conditions of `IsSendable` hold.
pub datagrams_of-FitsMtu :
    (h : Hmac) (partner : List ℕ) (mtu index : ℕ) (o : Outgoing) (ds : List (List ℕ))
    → datagrams_of h partner mtu index o ≡ some ds
    → IsSendable o
    → FitsMtu mtu (2 + length o.body) ds
datagrams_of-FitsMtu h partner mtu index o ds e ok =
    let way = way_of partner o.target_node o.hops in
    let w = length-way_bytes way o.target_node o.hops ok.target_id ok.hop_ids in
    elim (datagrams-Datagrams h mtu index o.message_type way o.target_node o.hops o.body ds e) [
      | inl whole ↦
          let n = length-single h index o.message_type way o.target_node o.hops o.body in
          subst (FitsMtu mtu (2 + length o.body)) (sym whole.1)
            (omega arith, ((omega (arith, n), omega (arith, n, w, whole.0)), tt))
      | inr pieces ↦
          let room = mtu - (41 + way_size way o.hops) in
          let n =
            length-first_many h index o.message_type (length o.body) way o.target_node o.hops
              (take room o.body) in
          let m : length (take room o.body) ≡ room =
            length-take room o.body (omega (arith, pieces.0)) in
          let more =
            continued-FitsMtu h mtu (suc (length o.body)) ((index + 1) % 2 ^ 32) (drop room o.body)
              (omega (arith, pieces.1)) in
          subst (FitsMtu mtu (2 + length o.body)) (sym pieces.2)
            (omega (arith, more.0), ((omega (arith, n), omega (arith, n, m, w, pieces.1)), more.1))
    ]
