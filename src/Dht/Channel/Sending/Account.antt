-- ===== src/Dht/Channel/Sending/Account.antt =====
-- What a sender of libs_server/vds_dht_network/impl/dht_datagram_protocol.cpp has written: a call more.
use vds.Common.{
  ℕ, ◌+◌, ◌-◌, ◌%◌, ◌^◌, ◌<◌, ◌≡◌, refl, sym, ap, ◌∙◌, subst, arith, List, [], ◌∷◌, ◌++◌, some,
  Bool, true, false, if◌then◌else◌, length, length-append, get_elem?, All-append, ◌⊎◌, inl, inr,
}
use mathlib.Core.Path.{ap₂}
use vds.Dht.Protocol.{Hmac, Protocol, Outcome}
use vds.Dht.Protocol.Send.{queue, sent_from, send_message_async}
use vds.Dht.Channel.{Outgoing, datagrams_of, all_datagrams, IsSendable}
use vds.Dht.Channel.Bounds.{datagrams_of-FitsMtu}
use vds.Dht.Channel.InStep.{Kept, Stands}
use vds.Dht.Channel.Sending.Queued.{Free, Wrote, sent_from-queue, Kept-queue}
use vds.Dht.Channel.Sending.Calls.{Leaves, sending, prepare_to_send-cases, send_message_async-cases}
use vds.Dht.Channel.Sending.Repeats.{
  all_datagrams-snoc, Kept-append, Kept-Free, Stands-append, Repeats, Repeats-append,
  Repeats-sent_from,
}

-- What the state of a sender says of what it has written: `ds` are the datagrams of all calls.
pub record Account (h : Hmac) (partner : List ℕ) (p : Protocol) (calls : List (ℕ × Outgoing))
    (ds first again : List (List ℕ)) (whole : Bool) : Type 0 where
  pub same_partner : p.partner_node_id ≡ partner
  pub counted : p.last_output_index ≡ length ds
  pub fits : length ds < 2 ^ 32
  pub cut : all_datagrams h partner 0 calls ≡ some ds
  pub queued : Kept ds p.output_messages
  pub wrote : Repeats ds first
  pub complete : (whole ≡ false) ⊎ (first ≡ ds)
  pub repeats : Repeats ds again

-- A call that can be sent, with less than 2 ^ 32 - 2 bytes in its body.
abbrev pub IsBounded : ℕ × Outgoing → Type 0
IsBounded c = IsSendable c.1 × (2 + length c.1.body < 2 ^ 32)

-- All is written when all was before, and no write of the call fails.
both_complete :
    (ds first xs : List (List ℕ)) (r : List (List ℕ) × Bool) (whole all : Bool)
    → r.1 ≡ all
    → (whole ≡ false) ⊎ (first ≡ ds)
    → Wrote xs r
    → ((if all then whole else false) ≡ false) ⊎ (first ++ r.0 ≡ ds ++ xs)
both_complete ds first xs r whole false e a b = inl refl
both_complete ds first xs r whole true e (inl some_failed) b = inl some_failed
both_complete ds first xs r whole true e (inr same) (inl failing) = cc
both_complete ds first xs r whole true e (inr same) (inr own) =
    inr (ap₂ (λ (x y : List (List ℕ)). x ++ y) same own)

Account-sends :
    (h : Hmac) (partner : List ℕ) (writes : ℕ → Bool) (p q : Protocol) (calls : List (ℕ × Outgoing))
    (ds first again ys : List (List ℕ)) (whole all : Bool) (o : Outgoing)
    → IsBounded (p.mtu, o)
    → Account h partner p calls ds first again whole
    → datagrams_of h p.partner_node_id p.mtu p.last_output_index o ≡ some ys
    → record p {
      last_output_index = (p.last_output_index + length ys) % 2 ^ 32;
      output_messages = queue p.last_output_index ys p.output_messages;
    }
      ≡ q
    → p.last_output_index < (p.last_output_index + length ys) % 2 ^ 32
    → (sending writes p.last_output_index q).1 ≡ all
    → Account h partner q
        (calls ++ ((p.mtu, o) ∷ []))
        (ds ++ ys)
        (first ++ (sending writes p.last_output_index q).0)
        again
        (if all then whole else false)
Account-sends h partner writes p q calls ds first again ys whole all o ok a cut same more written =
    let start = p.last_output_index in
    let few = (datagrams_of-FitsMtu h p.partner_node_id p.mtu start o ys cut ok.0).0 in
    let plain : (start + length ys) % 2 ^ 32 ≡ start + length ys =
      omega (arith, few, ok.1, a.counted, a.fits, more) in
    let below : start + length ys < 2 ^ 32 = omega (arith, plain) in
    let free : Free p.output_messages start =
      subst (Free p.output_messages) (sym a.counted) (Kept-Free ds p.output_messages a.queued) in
    let n = length-append ds ys in
    let kept_all : Kept (ds ++ ys) (queue start ys p.output_messages) =
      Kept-queue (ds ++ ys) p.output_messages start ys below
        (Kept-append ds ys p.output_messages a.queued)
        (subst (λ (j : ℕ). Stands (ds ++ ys) j ys) (sym a.counted) (Stands-append ds ys)) in
    let queued : Kept (ds ++ ys) q.output_messages =
      subst (λ (r : Protocol). Kept (ds ++ ys) r.output_messages) same kept_all in
    let own : Wrote ys (sending writes start q) =
      subst (λ (r : Protocol). Wrote ys (sending writes start r)) same
        (subst (λ (k : ℕ). Wrote ys (sent_from writes start k (queue start ys p.output_messages)))
          (omega (arith, plain)) (sent_from-queue writes p.output_messages start ys below free)) in
    record {
      same_partner = subst (λ (r : Protocol). r.partner_node_id ≡ partner) same a.same_partner;
      counted =
          subst (λ (r : Protocol). r.last_output_index ≡ length (ds ++ ys)) same
            (omega (arith, plain, a.counted, n));
      fits = omega (arith, below, a.counted, n);
      cut =
          all_datagrams-snoc h partner 0 calls (p.mtu, o) ds ys a.cut
            (subst (λ (m : List ℕ). datagrams_of h m p.mtu (0 + length ds) o ≡ some ys)
              a.same_partner
              (subst (λ (j : ℕ). datagrams_of h p.partner_node_id p.mtu j o ≡ some ys)
                (omega (arith, a.counted)) cut));
      queued = queued;
      wrote =
          All-append (λ d. (k : ℕ) × (get_elem? (ds ++ ys) k ≡ some d)) first _
            (Repeats-append ds ys first a.wrote)
            (Repeats-sent_from (ds ++ ys) q.output_messages writes start
              (q.last_output_index - start) queued);
      complete =
          both_complete ds first ys (sending writes start q) whole all written a.complete own;
      repeats = Repeats-append ds ys again a.repeats;
    }

-- A call by what it returns: `all` tells whether it is without an error.
pub Account-calls :
    (h : Hmac) (partner : List ℕ) (writes : ℕ → Bool) (p q : Protocol) (calls : List (ℕ × Outgoing))
    (ds first again xs : List (List ℕ)) (whole all : Bool) (o : Outgoing)
    → IsBounded (p.mtu, o)
    → Account h partner p calls ds first again whole
    → (c : Outcome × List (List ℕ))
    → send_message_async h writes p o.message_type o.target_node o.hops o.body ≡ c
    → Leaves all c.0 q
    → c.1 ≡ xs
    → (ys : List (List ℕ)) × Account h partner q
        (calls ++ ((p.mtu, o) ∷ []))
        (ds ++ ys)
        (first ++ xs)
        again
        (if all then whole else false)
Account-calls h partner writes p q calls ds first again xs whole all o ok a c e leaves same =
    let (prepared, sent) =
      send_message_async-cases h writes p q o all
        (subst (λ (t : Outcome × List (List ℕ)). Leaves all t.0 q) (sym e) leaves) in
    let (ys, cut, new, more) = prepare_to_send-cases h p q o prepared in
    (
      ys,
      subst
          (λ (zs : List (List ℕ)).
            Account h partner q (calls ++ ((p.mtu, o) ∷ [])) (ds ++ ys) (first ++ zs) again
              (if all then whole else false))
          (ap (λ t. t.0) sent ∙ ap (λ t. t.1) e ∙ same)
          (Account-sends h partner writes p q calls ds first again ys whole all o ok a cut new more
            (ap (λ t. t.1) sent)),
    )
