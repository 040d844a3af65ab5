-- ===== src/Dht/Channel/Loop.antt =====
-- `continue_process_messages` of libs_server/vds_dht_network/impl/dht_datagram_protocol.cpp on datagrams of the sender.
use vds.Common.{
  ℕ, suc, ◌+◌, ◌^◌, ◌≤◌, ◌<◌, ◌≡◌, refl, sym, ap, ◌∙◌, subst, arith, List, [], ◌∷◌, ◌++◌, Option,
  some, length, length-append, get_elem?, All, ◌⊎◌, inl, inr,
}
use mathlib.Core.List.{append_assoc}
use mathlib.Core.Path.{ap₂}
use vds.Dht.Protocol.{Hmac, Message, Protocol, Outcome, done, failed, fault}
use vds.Dht.Protocol.Table.{find, Sorted}
use vds.Dht.Protocol.Receive.{delivers, waits, next_index, step_at}
use vds.Dht.Channel.{Outgoing, inbound, all_datagrams, datagrams_of, IsReadable}
use vds.Dht.Channel.Messages.{HasRoom, Takes, datagrams_of-Takes}
use vds.Dht.Channel.Frames.{all_datagrams-cons}
use vds.Dht.Channel.InStep.{
  inbound_all, inbound_all-append, get_elem?→lt, Stands, Stands-front, Stands-back, Stands-head,
  Kept, Kept-Agrees, Present, Present-Holds, InStep, Proper,
}

-- An entry that is there is still there, or is one that has been passed.
abbrev pub Keeps : List (ℕ × List ℕ) → ℕ → List (ℕ × List ℕ) → Type 0
Keeps old expected input =
    (k : ℕ) (d : List ℕ) → find k old ≡ some d → (k < expected) ⊎ (find k input ≡ some d)

module _ (h : Hmac) (sender me : List ℕ) (calls : List (ℕ × Outgoing)) (ds : List (List ℕ)) where
  -- How the loop ends that starts in the state `p` at the time `now`.
  pub record Settled (now : ℕ) (p q : Protocol) : Type 0 where
    pub in_step : InStep h sender me calls ds q.expected_index q.input_messages q.delivered
    pub keeps : Keeps p.input_messages q.expected_index q.input_messages
    pub grows : p.expected_index ≤ q.expected_index
    pub quiet : Present ds q.input_messages q.expected_index → ¬ (q.expected_index < length ds)
    pub same_ids : (q.this_node_id ≡ p.this_node_id) × (q.partner_node_id ≡ p.partner_node_id)
    pub same_failed : q.failed_state ≡ p.failed_state
    pub same_sent : q.last_sent ≡ p.last_sent
    pub same_output : q.output_messages ≡ p.output_messages
    pub processed : (q.last_processed ≡ p.last_processed) ⊎ (q.last_processed ≡ now)

  abbrev pub Settles : ℕ → Protocol → Outcome → Type 0
  Settles now p (done q) = Settled now p q
  Settles now p (failed e q) = ⊥
  Settles now p fault = ⊥

  -- The loop of a later round settles the earlier one.
  pub Settles-trans :
      (now : ℕ) (p r : Protocol) (o : Outcome)
      → Keeps p.input_messages r.expected_index r.input_messages
      → p.expected_index ≤ r.expected_index
      → (r.this_node_id ≡ p.this_node_id) × (r.partner_node_id ≡ p.partner_node_id)
      → (r.failed_state ≡ p.failed_state) × (r.output_messages ≡ p.output_messages)
      → r.last_sent ≡ p.last_sent
      → (r.last_processed ≡ p.last_processed) ⊎ (r.last_processed ≡ now)
      → Settles now r o
      → Settles now p o
  Settles-trans now p r (done q) k g ids f s t w = record {
    in_step = w.in_step;
    keeps = λ i d e. both i d (k i d e);
    grows = omega (arith, g, w.grows);
    quiet = w.quiet;
    same_ids = (w.same_ids.0 ∙ ids.0, w.same_ids.1 ∙ ids.1);
    same_failed = w.same_failed ∙ f.0;
    same_sent = w.same_sent ∙ s;
    same_output = w.same_output ∙ f.1;
    processed = last w.processed t;
  }
    where
      both :
          (i : ℕ) (d : List ℕ)
          → (i < r.expected_index) ⊎ (find i r.input_messages ≡ some d)
          → (i < q.expected_index) ⊎ (find i q.input_messages ≡ some d)
      both i d (inl lt) = inl (omega (arith, lt, w.grows))
      both i d (inr e) = w.keeps i d e

      last :
          (q.last_processed ≡ r.last_processed) ⊎ (q.last_processed ≡ now)
          → (r.last_processed ≡ p.last_processed) ⊎ (r.last_processed ≡ now)
          → (q.last_processed ≡ p.last_processed) ⊎ (q.last_processed ≡ now)
      last (inl a) (inl b) = inl (a ∙ b)
      last (inl a) (inr b) = inr (a ∙ b)
      last (inr a) b = inr a
  Settles-trans now p r (failed e q) k g ids f s t w = w
  Settles-trans now p r fault k g ids f s t w = w

  -- The loop stops where nothing more can be handed on.
  pub stops :
      (now : ℕ) (p : Protocol)
      → InStep h sender me calls ds p.expected_index p.input_messages p.delivered
      → (Present ds p.input_messages p.expected_index → ¬ (p.expected_index < length ds))
      → Settled now p p
  stops now p s quiet = record {
    in_step = s;
    keeps = λ i d e. inr e;
    grows = omega arith;
    quiet = quiet;
    same_ids = (refl, refl);
    same_failed = refl;
    same_sent = refl;
    same_output = refl;
    processed = inl refl;
  }

  -- The datagram at the expected index is the first one of a message that is sent: the receiver waits for
  -- the others, or hands the message on.
  abbrev pub Steps : Protocol → List ℕ → Type 0
  Steps p d =
      ((step_at p d ≡ waits) × ¬ (Present ds p.input_messages p.expected_index))
      ⊎ ((m : Message) × (index : ℕ) × (step_at p d ≡ delivers m index)
          × (p.expected_index < index)
          × InStep h sender me calls ds index p.input_messages (p.delivered ++ (m ∷ [])))

  module _ (proper : All (Proper me) calls) (small : length ds < 2 ^ 32) where
    stepped :
        (p : Protocol) (d : List ℕ) (before after : List (ℕ × Outgoing)) (c : ℕ × Outgoing)
        (xs ys : List (List ℕ))
        → p.partner_node_id ≡ sender
        → calls ≡ before ++ (c ∷ after)
        → p.delivered ≡ inbound_all sender before
        → all_datagrams h me (p.expected_index + length xs) after ≡ some ys
        → Stands ds p.expected_index (xs ++ ys)
        → p.expected_index + length (xs ++ ys) ≡ length ds
        → Kept ds p.input_messages
        → Sorted p.input_messages
        → get_elem? ds p.expected_index ≡ some d
        → Takes p c.1 xs
        → Steps p d
    stepped p d before after c [] ys ids split handed sent stands behind entries sorted here takes =
        absurd takes
    stepped p d before after c (x ∷ xs) ys ids split handed sent stands behind entries sorted here
          takes =
        let same : x ≡ d = some_same (Stands-head ds p.expected_index x (xs ++ ys) stands) here in
        let l = length-append (x ∷ xs) ys in
        let stands' = Stands-front ds p.expected_index (x ∷ xs) ys stands in
        let next : next_index p.expected_index (1 + length xs)
            ≡ p.expected_index + length (x ∷ xs) =
          omega (arith, l, behind, small) in
        elim takes [
          | inl stop ↦ inl (
            subst (λ (y : List ℕ). step_at p y ≡ waits) same stop.0,
            λ all. stop.1 (
                Present-Holds ds p.input_messages (p.expected_index + 1) xs entries
                  (λ i e g. shift i e (stands' (suc i) e g)) (λ k le. all k (omega arith))),
          )
          | inr fin ↦ inr (
            inbound p.partner_node_id c.1,
            p.expected_index + length (x ∷ xs),
            subst
                (λ (y : List ℕ).
                  step_at p y
                  ≡ delivers (inbound p.partner_node_id c.1) (p.expected_index + length (x ∷ xs)))
                same (fin ∙ ap (delivers (inbound p.partner_node_id c.1)) next),
            omega arith,
            record {
              before = before ++ (c ∷ []);
              after = after;
              post = ys;
              split = split ∙ sym (append_assoc before (c ∷ []) after);
              handed_on =
                  ap₂ (λ (a : List Message) (b : List ℕ). a ++ (inbound b c.1 ∷ [])) handed ids
                  ∙ sym (inbound_all-append sender before (c ∷ []));
              sent = sent;
              stands = Stands-back ds p.expected_index (x ∷ xs) ys stands;
              behind = omega (arith, l, behind);
              entries = entries;
              sorted = sorted;
            },
          )
        ]
      where
        some_same : {o : Option (List ℕ)} {a b : List ℕ} → o ≡ some a → o ≡ some b → a ≡ b
        some_same {o} {a} {b} e f = cc

        shift :
            (i : ℕ) (e : List ℕ)
            → get_elem? ds (p.expected_index + suc i) ≡ some e
            → get_elem? ds (p.expected_index + 1 + i) ≡ some e
        shift i e g = subst (λ (j : ℕ). get_elem? ds j ≡ some e) (omega arith) g

    Proper-call :
        (before after : List (ℕ × Outgoing)) (c : ℕ × Outgoing)
        → calls ≡ before ++ (c ∷ after)
        → Proper me c
    Proper-call before after c e = later before (subst (All (Proper me)) e proper)
      where
        later : (xs : List (ℕ × Outgoing)) → All (Proper me) (xs ++ (c ∷ after)) → Proper me c
        later [] a = a.0
        later (x ∷ xs) a = later xs a.1

    pub step_at-Steps :
        (p : Protocol) (d : List ℕ)
        → (p.this_node_id ≡ me) × (p.partner_node_id ≡ sender)
        → InStep h sender me calls ds p.expected_index p.input_messages p.delivered
        → get_elem? ds p.expected_index ≡ some d
        → Steps p d
    unfolding all_datagrams
    step_at-Steps p d ids s here = from s.after s.split s.sent
      where
        from :
            (after : List (ℕ × Outgoing))
            → calls ≡ s.before ++ after
            → all_datagrams h me p.expected_index after ≡ some s.post
            → Steps p d
        from [] split sent = absurd (
            omega (
              arith,
              s.behind,
              get_elem?→lt ds p.expected_index d here,
              ap length (none_left s.post sent),
            ))
          where
            none_left :
                (post : List (List ℕ))
                → all_datagrams h me p.expected_index [] ≡ some post
                → post ≡ []
            none_left post e = cc
        from (c ∷ after) split sent =
            let (xs, ys, first, others, same) =
              all_datagrams-cons h me p.expected_index c after s.post sent in
            let stands = subst (Stands ds p.expected_index) same s.stands in
            let behind =
              subst (λ (zs : List (List ℕ)). p.expected_index + length zs ≡ length ds) same
                s.behind in
            let l = length-append xs ys in
            let (ok, room, readable) = Proper-call s.before after c split in
            stepped p d s.before after c xs ys ids.1 split s.handed_on others stands behind
              s.entries s.sorted here
              (datagrams_of-Takes p h c.0 c.1 xs
                (subst (λ (m : List ℕ). datagrams_of h m c.0 p.expected_index c.1 ≡ some xs)
                  (sym ids.0) first)
                ok (subst (λ (m : List ℕ). HasRoom m c.0 c.1) (sym ids.0) room)
                (subst (λ (m : List ℕ). IsReadable m c.0 c.1) (sym ids.0) readable)
                (omega (arith, l, behind, small))
                (Kept-Agrees ds p.input_messages p.expected_index xs s.entries
                  (Stands-front ds p.expected_index xs ys stands)))
