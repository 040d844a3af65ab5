-- ===== src/Dht/Channel/Delivery/Running.antt =====
-- A session of libs_server/vds_dht_network/impl/dht_datagram_protocol.cpp that has not ended.
use Prim.Native.Nat.{bit_and}
use vds.Common.{
  none, refl, zero, suc, ◌/◌, ℕ, ◌+◌, ◌≤◌, ◌<◌, ◌≡◌, ◌∙◌, subst, arith, List, [], ◌∷◌, some, Bool,
  true, false, ltb, ◌==◌, if◌then◌else◌, length, get_or, get_elem?, ◌⊎◌, inl, inr, in_failed_state,
  send_timeout,
}
use vds.Dht.Protocol.{Hmac, Protocol, Outcome, done, failed, fault, read32, acknowledgment}
use vds.Dht.Protocol.Table.{find}
use vds.Dht.Protocol.Receive.{send_limit, next_index, process_datagram}
use vds.Dht.Protocol.Send.{write_found, after_writes}
use vds.Dht.Protocol.Acknowledge.{erase_below, resend, process_acknowledgment, take_datagram}
use vds.Dht.Channel.{Outgoing}
use vds.Dht.Channel.Loop.{Settled}
use vds.Dht.Channel.Arrivals.{Steady, Late, Taken}
use vds.Dht.Channel.Delivery.{Settled-Steady}

-- The datagram is one of those that arrive.
abbrev pub Among : List ℕ → List (ℕ × List ℕ) → Type 0
Among d [] = ⊥
Among d (a ∷ arrivals) = (a.1 ≡ d) ⊎ Among d arrivals

-- The receiver has the datagram at the index, or has handed its message on.
abbrev pub Seen : ℕ → Protocol → Type 0
Seen k p = (k < p.expected_index) ⊎ ((d : List ℕ) × (find k p.input_messages ≡ some d))

-- A session that has sent nothing has nothing to write again.
erase_below-nothing :
    (last : ℕ) (output : List (ℕ × List ℕ)) → output ≡ [] → erase_below last output ≡ []
unfolding erase_below
erase_below-nothing last [] e = refl
erase_below-nothing last (x ∷ output) e = cc

resend-nothing :
    (writes : ℕ → Bool) (last fuel i mask : ℕ) → (resend writes [] last fuel i mask).1 ≡ true
unfolding resend find
resend-nothing writes last zero i mask = refl
resend-nothing writes last (suc fuel) i mask =
    either _ (mask == 0) (bit_and mask 1 == 1) (resend-nothing writes last fuel (i + 1) (mask / 2))
  where
    either :
        (rest : List (List ℕ) × Bool) (stop bit : Bool)
        → rest.1 ≡ true
        → (if stop
            then ([], true)
            else (if bit then write_found writes (next_index last (i + 1)) none rest else rest)).1
          ≡ true
    either rest true bit e = refl
    either rest false true e = e
    either rest false false e = e

write_nothing :
    (writes : ℕ → Bool) (last mask : ℕ) (output : List (ℕ × List ℕ))
    → output ≡ []
    → (write_found writes last
        (find last (erase_below last output))
        (resend writes (erase_below last output) last 32 0 mask)).1
      ≡ true
unfolding erase_below find
write_nothing writes last mask [] e = resend-nothing writes last 32 0 mask
write_nothing writes last mask (x ∷ output) e = cc

module _ (h : Hmac) (sender me : List ℕ) (calls : List (ℕ × Outgoing)) (ds : List (List ℕ))
    (start : ℕ) where
  -- A datagram of the sender, or an acknowledgment, within the ten minutes in which a session may stand still.
  abbrev pub Timely : ℕ × List ℕ → Type 0
  Timely a =
      (start ≤ a.0)
      × (a.0 ≤ start + 600)
      × (((k : ℕ) × (get_elem? ds k ≡ some a.1))
          ⊎ ((get_or a.1 0 0 ≡ acknowledgment) × (11 ≤ length a.1)))

  pub record Running (p : Protocol) : Type 0 where
    pub steady : Steady h sender me calls ds p
    pub works : p.failed_state ≡ false
    pub sends : p.last_sent ≤ send_limit
    pub recent : start ≤ p.last_processed
    pub idle : p.output_messages ≡ []

  -- A state that has what the one before has had.
  abbrev pub Follows : Protocol → Outcome → Type 0
  Follows p (done q) = Running q × ((k : ℕ) → Seen k p → Seen k q)
  Follows p (failed e q) = ⊥
  Follows p fault = ⊥

  Settled-Seen :
      (now k : ℕ) (p q : Protocol) → Settled h sender me calls ds now p q → Seen k p → Seen k q
  Settled-Seen now k p q w (inl lt) = inl (omega (arith, w.grows))
  Settled-Seen now k p q w (inr (d, found)) = kept (w.keeps k d found)
    where
      kept : (k < q.expected_index) ⊎ (find k q.input_messages ≡ some d) → Seen k q
      kept (inl lt) = inl lt
      kept (inr f) = inr (d, f)

  not-Late :
      (p : Protocol) (now : ℕ) → Running p → now ≤ start + 600 → Late h sender me calls ds now p → ⊥
  not-Late p now r le (inl stop) = clash (p.failed_state) r.works stop
    where
      clash : (b : Bool) → b ≡ false → b ≡ true → ⊥
      clash b x y = cc
  not-Late p now r le (inr (inl long)) = omega (arith, r.sends)
  not-Late p now r le (inr (inr late)) = omega (arith, r.recent)

  pub Taken-Follows :
      (now k : ℕ) (p : Protocol) (o : Outcome)
      → Running p
      → start ≤ now
      → now ≤ start + 600
      → Taken h sender me calls ds now k p o
      → Follows p o
  Taken-Follows now k p (done q) r from until (w, seen) = (
    record {
      steady = Settled-Steady h sender me calls ds now p q r.steady w;
      works = w.same_failed ∙ r.works;
      sends = omega (arith, w.same_sent, r.sends);
      recent = later w.processed;
      idle = w.same_output ∙ r.idle;
    },
    λ i. Settled-Seen now i p q w,
  )
    where
      later :
          (q.last_processed ≡ p.last_processed) ⊎ (q.last_processed ≡ now)
          → start ≤ q.last_processed
      later (inl e) = omega (arith, r.recent)
      later (inr e) = omega arith
  Taken-Follows now k p (failed e q) r from until t = not-Late p now r until t.1
  Taken-Follows now k p fault r from until t = t

  Taken-Seen :
      (now k : ℕ) (p q : Protocol) (o : Outcome)
      → o ≡ done q
      → Taken h sender me calls ds now k p o
      → Seen k q
  Taken-Seen now k p q o e t = (subst (Taken h sender me calls ds now k p) e t).1

  process_acknowledgment-Running :
      (writes : ℕ → Bool) (p : Protocol) (d : List ℕ)
      → 11 ≤ length d
      → Running p
      → Follows p (process_acknowledgment writes p d).0
  unfolding process_acknowledgment
  process_acknowledgment-Running writes p d long r =
      let last = read32 (get_or d 1 0) (get_or d 2 0) (get_or d 3 0) (get_or d 4 0) in
      let mask = read32 (get_or d 5 0) (get_or d 6 0) (get_or d 7 0) (get_or d 8 0) in
      rw (short (length d) long) (
        ended _ _ _ (write_nothing writes last mask p.output_messages r.idle) (
          record {
            steady = r.steady;
            works = r.works;
            sends = either _ r.sends;
            recent = r.recent;
            idle = erase_below-nothing last p.output_messages r.idle;
          },
          λ k seen. seen,
        ))
    where
      ended :
          (q t : Protocol) (written : Bool)
          → written ≡ true
          → Running t × ((k : ℕ) → Seen k p → Seen k t)
          → Follows p (after_writes written q t)
      ended q t true e f = f
      ended q t false e f = cc

      short : (n : ℕ) → 11 ≤ n → ltb n 11 ≡ false
      short n le = ground arith

      either : (b : Bool) → p.last_sent ≤ send_limit → (if b then p.last_sent else 0) ≤ send_limit
      either true le = le
      either false le = omega arith

  pub acknowledged :
      (writes : ℕ → Bool) (now : ℕ) (p : Protocol) (d : List ℕ)
      → get_or d 0 0 ≡ acknowledgment
      → 11 ≤ length d
      → Running p
      → Follows p (take_datagram h writes now p d)
  unfolding process_datagram
  acknowledged writes now p d code long r =
      rw (code, empty (length d) long)
        (measured p.failed_state (ltb send_limit p.last_sent) (ltb p.input_mtu (length d)) r.works
          (below p.last_sent r.sends))
    where
      empty : (n : ℕ) → 11 ≤ n → (n == 0) ≡ false
      empty n le = ground arith

      below : (n : ℕ) → n ≤ send_limit → ltb send_limit n ≡ false
      below n le = ground arith

      measured :
          (stop sent more : Bool)
          → stop ≡ false
          → sent ≡ false
          → Follows p (
              if stop
              then failed in_failed_state p
              else (if sent
                  then failed send_timeout p
                  else (process_acknowledgment writes
                      (if more then record p { input_mtu = length d } else p)
                      d).0))
      measured true sent more e f = cc
      measured false true more e f = cc
      measured false false true e f =
          process_acknowledgment-Running writes (record p { input_mtu = length d }) d long
            (record {
              steady = r.steady;
              works = r.works;
              sends = r.sends;
              recent = r.recent;
              idle = r.idle;
            })
      measured false false false e f = process_acknowledgment-Running writes p d long r
