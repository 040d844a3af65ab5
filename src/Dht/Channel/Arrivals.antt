-- ===== src/Dht/Channel/Arrivals.antt =====
-- `process_datagram` of libs_server/vds_dht_network/impl/dht_datagram_protocol.cpp on what arrives from the network.
use vds.Common.{
  ◌≢◌, ℕ, ◌+◌, ◌-◌, ◌^◌, ◌≤◌, ◌<◌, ◌≡◌, refl, sym, ◌∙◌, subst, arith, List, Option, none, some,
  Bool, true, false, ltb, ltb→lt, ◌==◌, if◌then◌else◌, length, take, drop, get_or, get_elem?, All,
  ◌⊎◌, inl, inr, in_failed_state, send_timeout, process_timeout,
}
use vds.Dht.Protocol.{Hmac, Protocol, Outcome, done, failed, fault, mtu_test, acknowledgment}
use vds.Dht.Protocol.Table.{find, emplace, Sorted-emplace, Entries-emplace, find-emplace}
use vds.Dht.Protocol.Receive.{
  accept, send_limit, process_datagram, continue_process_messages, rounds,
}
use vds.Dht.Channel.{Outgoing}
use vds.Dht.Channel.Frames.{Framed}
use vds.Dht.Channel.InStep.{Present, InStep, Proper}
use vds.Dht.Channel.Loop.{Settled, Settles, Settles-trans, stops}
use vds.Dht.Channel.Rounds.{continue_process_messages-Settles}

-- Bytes that are no datagram of the sender and no acknowledgment: the test of the path's MTU, or what does
-- not carry a signature by the session key.
abbrev pub Foreign : Hmac → List ℕ → Type 0
Foreign h d =
    (0 < length d)
    × (get_or d 0 0 ≢ acknowledgment)
    × ((get_or d 0 0 ≡ mtu_test)
        ⊎ (length d < 33)
        ⊎ (h.verify (take (length d - 32) d) (drop (length d - 32) d) ≡ false))

module _ (h : Hmac) (sender me : List ℕ) (calls : List (ℕ × Outgoing)) (ds : List (List ℕ)) where
  abbrev pub Fits : Protocol → Type 0
  Fits p =
      ((p.this_node_id ≡ me) × (p.partner_node_id ≡ sender))
      × InStep h sender me calls ds p.expected_index p.input_messages p.delivered

  Fits-emplace :
      (p : Protocol) (k : ℕ) (d : List ℕ)
      → Fits p
      → get_elem? ds k ≡ some d
      → Fits (record p { input_messages = emplace k d p.input_messages })
  Fits-emplace p k d (ids, s) here = (
    ids,
    record {
      before = s.before;
      after = s.after;
      post = s.post;
      split = s.split;
      handed_on = s.handed_on;
      sent = s.sent;
      stands = s.stands;
      behind = s.behind;
      entries =
          Entries-emplace (λ i e. get_elem? ds i ≡ some e) k d p.input_messages here s.entries;
      sorted = Sorted-emplace k d p.input_messages s.sorted;
    },
  )

  abbrev pub Steady : Protocol → Type 0
  Steady p =
      Fits p × (Present ds p.input_messages p.expected_index → ¬ (p.expected_index < length ds))

  -- The session no longer takes datagrams.
  abbrev pub Late : ℕ → Protocol → Type 0
  Late now p = (p.failed_state ≡ true) ⊎ (send_limit < p.last_sent) ⊎ (p.last_processed + 600 < now)

  -- What comes of the datagram at the index `k` of the sender.
  abbrev pub Taken : ℕ → ℕ → Protocol → Outcome → Type 0
  Taken now k p (done q) =
      Settled h sender me calls ds now p q
      × ((k < q.expected_index) ⊎ ((d : List ℕ) × (find k q.input_messages ≡ some d)))
  Taken now k p (failed e q) = Fits q × Late now p
  Taken now k p fault = ⊥

  settled_new :
      (now k : ℕ) (d : List ℕ) (p : Protocol) (o : Outcome)
      → find k p.input_messages ≡ none
      → Settles h sender me calls ds now
          (record p { input_messages = emplace k d p.input_messages })
          o
      → Taken now k p o
  settled_new now k d p (done q) absent w = (
    Settles-trans h sender me calls ds now p
        (record p { input_messages = emplace k d p.input_messages }) (done q)
        (λ i e found. inr (others i e found (i == k) refl)) (omega arith) (refl, refl) (refl, refl)
        refl (inl refl) w,
    there (w.keeps k d (find-emplace k k d p.input_messages absent ∙ itself k)),
  )
    where
      itself : (k : ℕ) → (if k == k then some d else find k p.input_messages) ≡ some d
      itself k = let e : (k == k) ≡ true = ground arith in rw e refl

      others :
          (i : ℕ) (e : List ℕ)
          → find i p.input_messages ≡ some e
          → (same : Bool) → (i == k) ≡ same
          → find i (emplace k d p.input_messages) ≡ some e
      others i e found true eq = absurd (
          clash (
            sym (subst (λ (j : ℕ). find j p.input_messages ≡ some e) (equal i k eq) found)
            ∙ absent))
        where
          equal : (a b : ℕ) → (a == b) ≡ true → a ≡ b
          equal a b h = ground arith

          clash : some e ≡ none → ⊥
          clash h = cc
      others i e found false eq = find-emplace i k d p.input_messages absent ∙ rw eq found

      there :
          (k < q.expected_index) ⊎ (find k q.input_messages ≡ some d)
          → (k < q.expected_index) ⊎ ((e : List ℕ) × (find k q.input_messages ≡ some e))
      there (inl lt) = inl lt
      there (inr f) = inr (d, f)
  settled_new now k d p (failed e q) absent w = absurd w
  settled_new now k d p fault absent w = w

  module _ (proper : All (Proper me) calls) (small : length ds < 2 ^ 32) where
    accept-Taken :
        (now k : ℕ) (p : Protocol) (d : List ℕ)
        → Steady p
        → get_elem? ds k ≡ some d
        → Framed h k d
        → Taken now k p (accept now p d)
    unfolding accept
    accept-Taken now k p d s here framed =
        subst
          (λ (j : ℕ). Taken now k p (
            if ltb (p.last_processed + 600) now
            then failed process_timeout p
            else elim (find j p.input_messages) [
              | some old ↦ done p
              | none ↦
                  let q = record p { input_messages = emplace j d p.input_messages } in
                  continue_process_messages (rounds q) now q
            ]))
          (sym framed.index_read) (late (ltb (p.last_processed + 600) now) refl)
      where
        looked :
            (o : Option (List ℕ))
            → find k p.input_messages ≡ o
            → Taken now k p (elim o [
              | some old ↦ done p
              | none ↦
                  let q = record p { input_messages = emplace k d p.input_messages } in
                  continue_process_messages (rounds q) now q
            ])
        looked (some old) e = (stops h sender me calls ds now p s.0.1 s.1, inr (old, e))
        looked none e =
            let q = record p { input_messages = emplace k d p.input_messages } in
            settled_new now k d p _ e (
              continue_process_messages-Settles h sender me calls ds proper small now q s.0.0
                (Fits-emplace p k d s.0 here).1)

        late :
            (b : Bool)
            → ltb (p.last_processed + 600) now ≡ b
            → Taken now k p (
                if b then failed process_timeout p else elim (find k p.input_messages) [
                  | some old ↦ done p
                  | none ↦
                      let q = record p { input_messages = emplace k d p.input_messages } in
                      continue_process_messages (rounds q) now q
                ])
        late true e = (s.0, inr (inr (ltb→lt (p.last_processed + 600) now e)))
        late false e = looked (find k p.input_messages) refl

    pub process_datagram-Taken :
        (a : Protocol → List ℕ → Outcome) (now k : ℕ) (p : Protocol) (d : List ℕ)
        → Steady p
        → get_elem? ds k ≡ some d
        → Framed h k d
        → Taken now k p (process_datagram h a now p d)
    unfolding process_datagram
    process_datagram-Taken a now k p d s here framed =
        let empty : (length d == 0) ≡ false = long_enough (length d) framed.long in
        let short : ltb (length d) 33 ≡ false = not_short (length d) framed.long in
        rw (empty, framed.not_test, framed.not_ack)
          (rw (short, framed.verified, framed.data_code)
            (running p.failed_state (ltb send_limit p.last_sent) (ltb p.input_mtu (length d)) refl
              refl))
      where
        long_enough : (n : ℕ) → 33 ≤ n → (n == 0) ≡ false
        long_enough n le = ground arith

        not_short : (n : ℕ) → 33 ≤ n → ltb n 33 ≡ false
        not_short n le = ground arith

        wide : (o : Outcome) → Taken now k (record p { input_mtu = length d }) o → Taken now k p o
        wide (done q) (w, f) = (
          Settles-trans h sender me calls ds now p (record p { input_mtu = length d }) (done q)
              (λ i e f. inr f) (omega arith) (refl, refl) (refl, refl) refl (inl refl) w,
          f,
        )
        wide (failed e q) w = w
        wide fault w = w

        running :
            (stop sent more : Bool)
            → p.failed_state ≡ stop
            → ltb send_limit p.last_sent ≡ sent
            → Taken now k p (
                if stop
                then failed in_failed_state p
                else (if sent
                    then failed send_timeout p
                    else accept now (if more then record p { input_mtu = length d } else p) d))
        running true sent more e f = (s.0, inl e)
        running false true more e f = (s.0, inr (inl (ltb→lt send_limit p.last_sent f)))
        running false false true e f =
            wide (accept now (record p { input_mtu = length d }) d)
              (accept-Taken now k (record p { input_mtu = length d }) d s here framed)
        running false false false e f = accept-Taken now k p d s here framed

-- Nothing has changed but the size of the largest datagram.
abbrev pub Same : Protocol → List ℕ → Protocol → Type 0
Same p d q = (q ≡ p) ⊎ (q ≡ record p { input_mtu = length d })

abbrev pub KeptOut : Protocol → List ℕ → Outcome → Type 0
KeptOut p d (done q) = (get_or d 0 0 ≡ mtu_test) × Same p d q
KeptOut p d (failed e q) = Same p d q
KeptOut p d fault = ⊥
