-- ===== src/Dht/Channel/Delivery.antt =====
-- A session of libs_server/vds_dht_network/impl/dht_datagram_protocol.cpp from its start, over a network that loses,
-- repeats and reorders datagrams and brings others in between.
pub mod Running
pub mod Complete
pub mod Examples
use vds.Common.{
  ℕ, zero, suc, ◌+◌, ◌%◌, ◌^◌, ◌≤◌, ◌<◌, ◌≡◌, refl, sym, ap, ◌∙◌, subst, arith, List, [], ◌∷◌, ◌++◌,
  Option, none, some, Bool, in_failed_state, send_timeout, true, false, ltb, ◌==◌, if◌then◌else◌,
  length, length-append, get_or, get_elem?, All, ◌⊎◌, inl, inr,
}
use vds.Dht.Protocol.{Hmac, Message, Protocol, Outcome, done, failed, fault, acknowledgment}
use vds.Dht.Protocol.Table.{find}
use vds.Dht.Protocol.Receive.{send_limit, process_datagram}
use vds.Dht.Protocol.Send.{after_writes}
use vds.Dht.Protocol.Acknowledge.{opened, process_acknowledgment, take_datagram, receive}
use vds.Dht.Channel.{Outgoing, all_datagrams, IsSendable}
use vds.Dht.Channel.Frames.{Framed, get_elem?-Framed, all_datagrams-AllFramed}
use vds.Dht.Channel.InStep.{
  inbound_all, Stands, Present, InStep, Proper, get_elem?→lt, all_handed_on,
}
use vds.Dht.Channel.Loop.{Settled}
use vds.Dht.Channel.Arrivals.{
  Foreign, Fits, Steady, Late, Taken, Same, KeptOut, process_datagram-Taken,
}
use vds.Dht.Channel.Forged.{process_datagram-Foreign}

module _ (h : Hmac) (sender me : List ℕ) (calls : List (ℕ × Outgoing)) (ds : List (List ℕ)) where
  -- A datagram of the sender, an acknowledgment of full size, or anything that the session key has not signed.
  abbrev pub Arrives : ℕ × List ℕ → Type 0
  Arrives a =
      ((k : ℕ) × (get_elem? ds k ≡ some a.1))
      ⊎ ((get_or a.1 0 0 ≡ acknowledgment) × (11 ≤ length a.1))
      ⊎ Foreign h a.1

  -- The messages that have been handed on are those of the first calls.
  abbrev pub Prefix : List Message → Type 0
  Prefix delivered =
      (before : List (ℕ × Outgoing)) × (after : List (ℕ × Outgoing)) × (calls ≡ before ++ after)
      × (delivered ≡ inbound_all sender before)

  abbrev pub InOrder : Outcome → Type 0
  InOrder (done q) = Prefix q.delivered
  InOrder (failed e q) = Prefix q.delivered
  InOrder fault = ⊥

  abbrev Reached : Outcome → Type 0
  Reached (done q) = Steady h sender me calls ds q
  Reached (failed e q) = Prefix q.delivered
  Reached fault = ⊥

  pub opened-Steady :
      (now : ℕ)
      → all_datagrams h me 0 calls ≡ some ds
      → Steady h sender me calls ds (opened me sender now)
  unfolding find
  opened-Steady now sent = (
    (
      (refl, refl),
      record {
        before = [];
        after = calls;
        post = ds;
        split = refl;
        handed_on = refl;
        sent = sent;
        stands = λ i d e. subst (λ (j : ℕ). get_elem? ds j ≡ some d) (from_0 i) e;
        behind = omega arith;
        entries = tt;
        sorted = tt;
      },
    ),
    λ all lt. nothing (all 0 (omega arith) lt),
  )
    where
      from_0 : (i : ℕ) → i ≡ 0 + i
      from_0 i = omega arith

      nothing : (d : List ℕ) × (find 0 [] ≡ some d) → ⊥
      nothing (d, e) = cc

  pub Settled-Steady :
      (now : ℕ) (p q : Protocol)
      → Steady h sender me calls ds p
      → Settled h sender me calls ds now p q
      → Steady h sender me calls ds q
  Settled-Steady now p q s w =
      (((w.same_ids.0 ∙ s.0.0.0, w.same_ids.1 ∙ s.0.0.1), w.in_step), w.quiet)

  pub Same-Steady :
      (p q : Protocol) (d : List ℕ)
      → Steady h sender me calls ds p
      → Same p d q
      → Steady h sender me calls ds q
  Same-Steady p q d s (inl e) = subst (Steady h sender me calls ds) (sym e) s
  Same-Steady p q d s (inr e) = subst (Steady h sender me calls ds) (sym e) s

  Steady-Prefix : (p : Protocol) → Steady h sender me calls ds p → Prefix p.delivered
  Steady-Prefix p s = (s.0.1.before, s.0.1.after, s.0.1.split, s.0.1.handed_on)

  Taken-Reached :
      (now k : ℕ) (p : Protocol) (o : Outcome)
      → Steady h sender me calls ds p
      → Taken h sender me calls ds now k p o
      → Reached o
  Taken-Reached now k p (done q) s t = Settled-Steady now p q s t.0
  Taken-Reached now k p (failed e q) s t = (t.0.1.before, t.0.1.after, t.0.1.split, t.0.1.handed_on)
  Taken-Reached now k p fault s t = t

  KeptOut-Reached :
      (p : Protocol) (d : List ℕ) (o : Outcome)
      → Steady h sender me calls ds p
      → KeptOut p d o
      → Reached o
  KeptOut-Reached p d (done q) s t = Same-Steady p q d s t.1
  KeptOut-Reached p d (failed e q) s t = Steady-Prefix q (Same-Steady p q d s t)
  KeptOut-Reached p d fault s t = t

  process_acknowledgment-Steady :
      (writes : ℕ → Bool) (p : Protocol) (d : List ℕ)
      → 11 ≤ length d
      → Steady h sender me calls ds p
      → Reached (process_acknowledgment writes p d).0
  unfolding process_acknowledgment
  process_acknowledgment-Steady writes p d long s = rw (short (length d) long) (ended _ _ _ s s)
    where
      ended :
          (q r : Protocol) (written : Bool)
          → Steady h sender me calls ds q
          → Steady h sender me calls ds r
          → Reached (after_writes written q r)
      ended q r true a b = b
      ended q r false a b = Steady-Prefix q a

      short : (n : ℕ) → 11 ≤ n → ltb n 11 ≡ false
      short n le = ground arith

  acknowledged :
      (writes : ℕ → Bool) (now : ℕ) (p : Protocol) (d : List ℕ)
      → get_or d 0 0 ≡ acknowledgment
      → 11 ≤ length d
      → Steady h sender me calls ds p
      → Reached (take_datagram h writes now p d)
  unfolding process_datagram
  acknowledged writes now p d code long s =
      rw (code, empty (length d) long)
        (running p.failed_state (ltb send_limit p.last_sent) (ltb p.input_mtu (length d)))
    where
      empty : (n : ℕ) → 11 ≤ n → (n == 0) ≡ false
      empty n le = ground arith

      running :
          (stop sent more : Bool)
          → Reached (
              if stop
              then failed in_failed_state p
              else (if sent
                  then failed send_timeout p
                  else (process_acknowledgment writes
                      (if more then record p { input_mtu = length d } else p)
                      d).0))
      running true sent more = Steady-Prefix p s
      running false true more = Steady-Prefix p s
      running false false true =
          process_acknowledgment-Steady writes (record p { input_mtu = length d }) d long s
      running false false false = process_acknowledgment-Steady writes p d long s

  module _ (proper : All (Proper me) calls) (small : length ds < 2 ^ 32)
      (sent : all_datagrams h me 0 calls ≡ some ds) where
    pub framed : (k : ℕ) (d : List ℕ) → get_elem? ds k ≡ some d → Framed h k d
    framed k d here =
        subst (λ (j : ℕ). Framed h j d) (from_0 k)
          (get_elem?-Framed h 0 ds k d
            (all_datagrams-AllFramed h me 0 calls ds sent (sendable calls proper) (omega arith))
            here)
      where
        from_0 : (i : ℕ) → 0 + i ≡ i
        from_0 i = omega arith

        sendable : (cs : List (ℕ × Outgoing)) → All (Proper me) cs → All (λ c. IsSendable c.1) cs
        sendable [] a = tt
        sendable (c ∷ cs) a = (a.0.0, sendable cs a.1)

    arrived :
        (writes : ℕ → ℕ → Bool) (p : Protocol) (a : ℕ × List ℕ)
        → Steady h sender me calls ds p
        → Arrives a
        → Reached (take_datagram h (writes a.0) a.0 p a.1)
    arrived writes p a s (inl (k, here)) =
        Taken-Reached a.0 k p (take_datagram h (writes a.0) a.0 p a.1) s (
          process_datagram-Taken h sender me calls ds proper small _ a.0 k p a.1 s here
            (framed k a.1 here))
    arrived writes p a s (inr (inl (code, long))) = acknowledged (writes a.0) a.0 p a.1 code long s
    arrived writes p a s (inr (inr foreign)) =
        KeptOut-Reached p a.1 (take_datagram h (writes a.0) a.0 p a.1) s
          (process_datagram-Foreign h a.0 p a.1 _ foreign)

    received :
        (writes : ℕ → ℕ → Bool) (arrivals : List (ℕ × List ℕ)) (p : Protocol)
        → Steady h sender me calls ds p
        → All Arrives arrivals
        → InOrder (receive h writes arrivals p)
    unfolding receive
    received writes [] p s all = Steady-Prefix p s
    received writes (a ∷ arrivals) p s all =
        elim (take_datagram h (writes a.0) a.0 p a.1)
            as (λ o.
              Reached o
              → InOrder (elim o [
                | done q ↦ receive h writes arrivals q
                | failed e q ↦ failed e q
                | fault ↦ fault
              ])) [
                | done q ↦ λ r. received writes arrivals q r all.1
                | failed e q ↦ λ r. r
                | fault ↦ λ r. r
              ]
          (arrived writes p a s all.0)

    -- Whatever the network does with the datagrams of a session - some lost, some more than once, in any
    -- order, at any times, with acknowledgments of at least 11 bytes and bytes that the session key has not
    -- signed in between - the receiver does not fault, and has at the end handed on the messages of the
    -- first calls of the sender, each once, unchanged and in order. The sender's calls must meet its own
    -- assertions, and the receiver's test of the size of a split message (`IsReadable`); there are less than
    -- 2 ^ 32 datagrams.
    pub receive-InOrder :
        (writes : ℕ → ℕ → Bool) (start : ℕ) (arrivals : List (ℕ × List ℕ))
        → All Arrives arrivals
        → InOrder (receive h writes arrivals (opened me sender start))
    receive-InOrder writes start arrivals all =
        received writes arrivals (opened me sender start) (opened-Steady start sent) all
