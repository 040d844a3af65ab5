-- ===== src/Dht/Channel/Delivery/Complete.antt =====
-- A session of libs_server/vds_dht_network/impl/dht_datagram_protocol.cpp in which every datagram arrives at last.
use vds.Common.{
  ℕ, zero, suc, ◌^◌, ◌≤◌, ◌<◌, ◌≡◌, refl, sym, ◌∙◌, subst, arith, List, [], ◌∷◌, some, Bool, false,
  ◌==◌, length, get_or, get_elem?, All, ◌⊎◌, inl, inr,
}
use vds.Dht.Protocol.{Hmac, Protocol, Outcome, done, failed, fault, acknowledgment}
use vds.Dht.Protocol.Table.{find}
use vds.Dht.Protocol.Acknowledge.{opened, process_acknowledgment, take_datagram, receive}
use vds.Dht.Channel.{Outgoing, all_datagrams}
use vds.Dht.Channel.InStep.{inbound_all, Present, Proper, all_handed_on}
use vds.Dht.Channel.Arrivals.{Steady, Taken, process_datagram-Taken}
use vds.Dht.Channel.Delivery.{opened-Steady, framed}
use vds.Dht.Channel.Delivery.Running.{
  Among, Seen, Running, Follows, Taken-Follows, acknowledged, Timely,
}

module _ (h : Hmac) (sender me : List ℕ) (calls : List (ℕ × Outgoing)) (ds : List (List ℕ))
    (start : ℕ) where
  abbrev pub Delivers : Outcome → Type 0
  Delivers (done q) = q.delivered ≡ inbound_all sender calls
  Delivers (failed e q) = ⊥
  Delivers fault = ⊥

  module _ (proper : All (Proper me) calls) (small : length ds < 2 ^ 32)
      (sent : all_datagrams h me 0 calls ≡ some ds) where
    -- The index of what has arrived is the one that it carries.
    one_index : (i k : ℕ) (d : List ℕ) → get_elem? ds i ≡ some d → get_elem? ds k ≡ some d → i ≡ k
    one_index i k d a b =
        sym (framed h sender me calls ds proper small sent i d a).index_read
        ∙ (framed h sender me calls ds proper small sent k d b).index_read

    Brings : Protocol → List ℕ → Outcome → Type 0
    Brings p d (done q) =
        Running h sender me calls ds start q
        × ((k : ℕ) → Seen k p → Seen k q)
        × ((k : ℕ) → get_elem? ds k ≡ some d → Seen k q)
    Brings p d (failed e q) = ⊥
    Brings p d fault = ⊥

    brought :
        (now k : ℕ) (p : Protocol) (d : List ℕ) (o : Outcome)
        → get_elem? ds k ≡ some d
        → Taken h sender me calls ds now k p o
        → Follows h sender me calls ds start p o
        → Brings p d o
    unfolding Brings
    brought now k p d (done q) here t f =
        (f.0, f.1, λ i e. subst (λ (j : ℕ). Seen j q) (one_index k i d here e) t.1)
    brought now k p d (failed e q) here t f = f
    brought now k p d fault here t f = f

    unasked :
        (p : Protocol) (d : List ℕ) (o : Outcome)
        → get_or d 0 0 ≡ acknowledgment
        → Follows h sender me calls ds start p o
        → Brings p d o
    unfolding Brings
    unasked p d (done q) code f = (
      f.0,
      f.1,
      λ i e. absurd (clash (framed h sender me calls ds proper small sent i d e).not_ack),
    )
      where
        clash : (get_or d 0 0 == acknowledgment) ≡ false → ⊥
        clash no_ack = ground arith
    unasked p d (failed e q) code f = f
    unasked p d fault code f = f

    arrived :
        (writes : ℕ → ℕ → Bool) (p : Protocol) (a : ℕ × List ℕ)
        → Running h sender me calls ds start p
        → Timely h sender me calls ds start a
        → Brings p a.1 (take_datagram h (writes a.0) a.0 p a.1)
    arrived writes p a r (from, until, inl (k, here)) =
        let t =
          process_datagram-Taken h sender me calls ds proper small
            (λ p d. (process_acknowledgment (writes a.0) p d).0) a.0 k p a.1 r.steady here
            (framed h sender me calls ds proper small sent k a.1 here) in
        brought a.0 k p a.1 (take_datagram h (writes a.0) a.0 p a.1) here t (
          Taken-Follows h sender me calls ds start a.0 k p (take_datagram h (writes a.0) a.0 p a.1)
            r from until t)
    arrived writes p a r (from, until, inr (code, long)) =
        unasked p a.1 (take_datagram h (writes a.0) a.0 p a.1) code
          (acknowledged h sender me calls ds start (writes a.0) a.0 p a.1 code long r)

    -- The state behind all arrivals has every datagram among them.
    Ends : Protocol → List (ℕ × List ℕ) → Outcome → Type 0
    Ends p arrivals (done q) =
        Steady h sender me calls ds q
        × ((k : ℕ) → Seen k p → Seen k q)
        × ((k : ℕ) (d : List ℕ) → get_elem? ds k ≡ some d → Among d arrivals → Seen k q)
    Ends p arrivals (failed e q) = ⊥
    Ends p arrivals fault = ⊥

    longer :
        (p q : Protocol) (a : ℕ × List ℕ) (arrivals : List (ℕ × List ℕ)) (o : Outcome)
        → ((k : ℕ) → Seen k p → Seen k q)
        → ((k : ℕ) → get_elem? ds k ≡ some a.1 → Seen k q)
        → Ends q arrivals o
        → Ends p (a ∷ arrivals) o
    unfolding Ends
    longer p q a arrivals (done r) old new ends = (ends.0, λ k seen. ends.1 k (old k seen), among)
      where
        among :
            (k : ℕ) (d : List ℕ) → get_elem? ds k ≡ some d → (a.1 ≡ d) ⊎ Among d arrivals → Seen k r
        among k d here (inl e) =
            ends.1 k (new k (subst (λ (x : List ℕ). get_elem? ds k ≡ some x) (sym e) here))
        among k d here (inr m) = ends.2 k d here m
    longer p q a arrivals (failed e r) old new ends = ends
    longer p q a arrivals fault old new ends = ends

    received :
        (writes : ℕ → ℕ → Bool) (arrivals : List (ℕ × List ℕ)) (p : Protocol)
        → Running h sender me calls ds start p
        → All (Timely h sender me calls ds start) arrivals
        → Ends p arrivals (receive h writes arrivals p)
    unfolding receive Brings Ends
    received writes [] p r all = (r.steady, λ k seen. seen, λ k d here m. absurd m)
    received writes (a ∷ arrivals) p r all =
        elim (take_datagram h (writes a.0) a.0 p a.1)
            as (λ o.
              Brings p a.1 o
              → Ends p (a ∷ arrivals) (elim o [
                | done q ↦ receive h writes arrivals q
                | failed e q ↦ failed e q
                | fault ↦ fault
              ])) [
                | done q ↦ λ b.
                    longer p q a arrivals (receive h writes arrivals q) b.1 b.2
                      (received writes arrivals q b.0 all.1)
                | failed e q ↦ λ b. b
                | fault ↦ λ b. b
              ]
          (arrived writes p a r all.0)

    delivered_all :
        (p : Protocol) (arrivals : List (ℕ × List ℕ)) (o : Outcome)
        → ((k : ℕ) (d : List ℕ) → get_elem? ds k ≡ some d → Among d arrivals)
        → Ends p arrivals o
        → Delivers o
    unfolding Ends
    delivered_all p arrivals (done q) all ends =
        let s = ends.0.0.1 in
        all_handed_on h sender me calls ds q.expected_index q.delivered s.before s.after s.post
          s.split s.handed_on s.sent s.behind (ends.0.1 present)
      where
        index_of :
            (xs : List (List ℕ)) (k : ℕ) → k < length xs → (d : List ℕ) × (get_elem? xs k ≡ some d)
        index_of [] k lt = absurd (omega arith)
        index_of (x ∷ xs) zero lt = (x, refl)
        index_of (x ∷ xs) (suc k) lt = index_of xs k (omega arith)

        present : Present ds q.input_messages q.expected_index
        present k le lt =
            let (d, here) = index_of ds k lt in found k le (ends.2 k d here (all k d here))
          where
            found :
                (k : ℕ)
                → q.expected_index ≤ k
                → Seen k q
                → (d : List ℕ) × (find k q.input_messages ≡ some d)
            found k le (inl lt) = absurd (omega arith)
            found k le (inr f) = f
    delivered_all p arrivals (failed e q) all ends = ends
    delivered_all p arrivals fault all ends = ends

    -- Where each datagram of the sender arrives at last, once or more, and in any order, with acknowledgments in
    -- between, all within ten minutes from the start of the session, the receiver ends without an error and
    -- has handed on every message, each once, unchanged and in order. The sender's calls must meet its own
    -- assertions, and the receiver's test of the size of a split message (`IsReadable`); there are less than
    -- 2 ^ 32 datagrams.
    pub receive-Delivers :
        (writes : ℕ → ℕ → Bool) (arrivals : List (ℕ × List ℕ))
        → All (Timely h sender me calls ds start) arrivals
        → ((k : ℕ) (d : List ℕ) → get_elem? ds k ≡ some d → Among d arrivals)
        → Delivers (receive h writes arrivals (opened me sender start))
    receive-Delivers writes arrivals timely all =
        delivered_all (opened me sender start) arrivals
          (receive h writes arrivals (opened me sender start)) all
          (received writes arrivals (opened me sender start)
            (record {
              steady = opened-Steady h sender me calls ds start sent;
              works = refl;
              sends = omega arith;
              recent = omega arith;
              idle = refl;
            })
            timely)
