-- ===== src/Dht/Channel/Rounds.antt =====
-- The rounds of `continue_process_messages` of libs_server/vds_dht_network/impl/dht_datagram_protocol.cpp: the loop
-- ends, and hands on every message whose datagrams are there.
use vds.Common.{
  invalid_data, ℕ, zero, suc, ◌+◌, ◌*◌, ◌^◌, ◌<◌, ◌≡◌, refl, subst, arith, List, [], ◌∷◌, ◌++◌,
  Option, none, some, Bool, true, false, ltb, ltb→lt, ◌==◌, if◌then◌else◌, length, get_elem?, All,
  ◌⊎◌, inl, inr,
}
use vds.Dht.Protocol.{Hmac, Message, Protocol, Outcome, done, failed, fault}
use vds.Dht.Protocol.Table.{find, Sorted, find-Above}
use vds.Dht.Protocol.Receive.{
  Step, delivers, waits, refused, broken, step_at, advance, continue_process_messages, rounds,
}
use vds.Dht.Channel.{Outgoing}
use vds.Dht.Channel.InStep.{Present, InStep, Proper}
use vds.Dht.Channel.Loop.{Keeps, Settles, Settles-trans, stops, step_at-Steps}

-- Fuel for so many entries: two rounds for each, and one less where the first one has been passed.
abbrev pub Enough : ℕ → ℕ → List (ℕ × List ℕ) → Type 0
Enough fuel expected [] = 0 < fuel
Enough fuel expected (e ∷ es) =
    (2 * length es + 3 < fuel) ⊎ ((2 * length es + 2 < fuel) × (e.0 < expected))

Enough-behind :
    (fuel expected : ℕ) (e : ℕ × List ℕ) (es : List (ℕ × List ℕ))
    → Enough (suc fuel) expected (e ∷ es)
    → Enough fuel expected es
Enough-behind fuel expected e [] (inl lt) = omega arith
Enough-behind fuel expected e [] (inr lt) = omega (arith, lt.0)
Enough-behind fuel expected e (x ∷ es) (inl lt) = inl (omega arith)
Enough-behind fuel expected e (x ∷ es) (inr lt) = inl (omega (arith, lt.0))

Enough-here :
    (fuel expected index : ℕ) (e : ℕ × List ℕ) (es : List (ℕ × List ℕ))
    → Enough (suc fuel) expected (e ∷ es)
    → ¬ (e.0 < expected)
    → e.0 < index
    → Enough fuel index (e ∷ es)
Enough-here fuel expected index e es (inl lt) here next = inr (omega (arith, lt), next)
Enough-here fuel expected index e es (inr lt) here next = absurd (here lt.1)

Sorted-behind : (e : ℕ × List ℕ) (es : List (ℕ × List ℕ)) → Sorted (e ∷ es) → Sorted es
Sorted-behind e [] s = tt
Sorted-behind e (x ∷ es) s = s.1

Keeps-behind :
    (expected : ℕ) (e : ℕ × List ℕ) (es : List (ℕ × List ℕ))
    → e.0 < expected
    → Keeps (e ∷ es) expected es
unfolding find
Keeps-behind expected e es passed k d found = looked (k == e.0) refl found
  where
    looked :
        (same : Bool)
        → (k == e.0) ≡ same
        → (if same then some e.1 else find k es) ≡ some d
        → (k < expected) ⊎ (find k es ≡ some d)
    looked true eq f = inl (below k e.0 expected eq passed)
      where
        below : (a b c : ℕ) → (a == b) ≡ true → b < c → a < c
        below a b c eq lt = ground arith
    looked false eq f = inr f

module _ (h : Hmac) (sender me : List ℕ) (calls : List (ℕ × Outgoing)) (ds : List (List ℕ))
    (proper : All (Proper me) calls) (small : length ds < 2 ^ 32) where
  -- The state in a round: what is kept, and the index up to which all has come.
  abbrev at : Protocol → ℕ → List (ℕ × List ℕ) → Protocol
  at p last input = record p { last_input_index = last; input_messages = input }

  abbrev Fits : Protocol → List (ℕ × List ℕ) → Type 0
  Fits p input = InStep h sender me calls ds p.expected_index input p.delivered

  Fits-behind :
      (p : Protocol) (e : ℕ × List ℕ) (es : List (ℕ × List ℕ)) → Fits p (e ∷ es) → Fits p es
  Fits-behind p e es s = record {
    before = s.before;
    after = s.after;
    post = s.post;
    split = s.split;
    handed_on = s.handed_on;
    sent = s.sent;
    stands = s.stands;
    behind = s.behind;
    entries = s.entries.1;
    sorted = Sorted-behind e es s.sorted;
  }

  -- What one round does, from what the others do.
  round :
      (now : ℕ) (p : Protocol) (e : ℕ × List ℕ) (es : List (ℕ × List ℕ)) (last : ℕ)
      (later sooner : Bool) (erased : Outcome) (handed : Message → ℕ → Outcome)
      → (p.this_node_id ≡ me) × (p.partner_node_id ≡ sender)
      → Fits p (e ∷ es)
      → ltb p.expected_index e.0 ≡ later
      → ltb e.0 p.expected_index ≡ sooner
      → (e.0 < p.expected_index → Settles h sender me calls ds now (at p last es) erased)
      → ((m : Message) (index : ℕ)
          → ¬ (e.0 < p.expected_index)
          → p.expected_index < index
          → e.0 < index
          → InStep h sender me calls ds index (e ∷ es) (p.delivered ++ (m ∷ []))
          → Settles h sender me calls ds now (at p last (e ∷ es)) (handed m index))
      → Settles h sender me calls ds now (at p last (e ∷ es)) (
          if later
          then done (at p last (e ∷ es))
          else (if sooner then erased else elim (step_at (at p last (e ∷ es)) e.1) [
            | delivers m index ↦ handed m index
            | waits ↦ done (at p last (e ∷ es))
            | refused ↦ failed invalid_data (at p last (e ∷ es))
            | broken ↦ fault
          ]))
  unfolding find
  round now p e es last true sooner erased handed ids s el es' erases hands =
      stops h sender me calls ds now (at p last (e ∷ es)) s λ all lt.
        missing (find p.expected_index (e ∷ es))
          (find-Above p.expected_index p.expected_index (e ∷ es) (omega arith)
            (ltb→lt p.expected_index e.0 el, s.sorted))
          (all p.expected_index (omega arith) lt)
    where
      missing : (o : Option (List ℕ)) → o ≡ none → (d : List ℕ) × (o ≡ some d) → ⊥
      missing o a (d, b) = cc
  round now p e es last false true erased handed ids s el es' erases hands =
      let passed = ltb→lt e.0 p.expected_index es' in
      Settles-trans h sender me calls ds now (at p last (e ∷ es)) (at p last es) erased
        (Keeps-behind p.expected_index e es passed) (omega arith) (refl, refl) (refl, refl) refl
        (inl refl) (erases passed)
  round now p e es last false false erased handed ids s el es' erases hands =
      let here : e.0 ≡ p.expected_index = ground arith in
      stepped (step_at (at p last (e ∷ es)) e.1) (
        step_at-Steps h sender me calls ds proper small (at p last (e ∷ es)) e.1 ids s
          (subst (λ (j : ℕ). get_elem? ds j ≡ some e.1) here s.entries.0))
    where
      stepped :
          (step : Step)
          → ((step ≡ waits) × ¬ (Present ds (e ∷ es) p.expected_index))
            ⊎ ((m : Message) × (index : ℕ) × (step ≡ delivers m index)
                × (p.expected_index < index)
                × InStep h sender me calls ds index (e ∷ es) (p.delivered ++ (m ∷ [])))
          → Settles h sender me calls ds now (at p last (e ∷ es)) (elim step [
            | delivers m index ↦ handed m index
            | waits ↦ done (at p last (e ∷ es))
            | refused ↦ failed invalid_data (at p last (e ∷ es))
            | broken ↦ fault
          ])
      stepped step (inl (stop, absent)) =
          rw stop (stops h sender me calls ds now (at p last (e ∷ es)) s λ all lt. absent all)
      stepped step (inr (m, index, delivered, more, s')) =
          rw delivered (hands m index (ground (arith, el, es')) more (ground (arith, el, es')) s')

  looped :
      (fuel now : ℕ) (p : Protocol) (input : List (ℕ × List ℕ)) (last : ℕ)
      → (p.this_node_id ≡ me) × (p.partner_node_id ≡ sender)
      → Fits p input
      → Enough fuel p.expected_index input
      → Settles h sender me calls ds now
          (at p last input)
          (continue_process_messages fuel now (at p last input))
  unfolding continue_process_messages find
  looped zero now p [] last ids s enough = absurd (omega arith)
  looped zero now p (e ∷ es) last ids s enough = absurd (none_left enough)
    where
      none_left : Enough zero p.expected_index (e ∷ es) → ⊥
      none_left (inl lt) = omega arith
      none_left (inr lt) = omega (arith, lt.0)
  looped (suc fuel) now p [] last ids s enough =
      Settles-trans h sender me calls ds now (at p last []) (at p (advance 0 last []) [])
        (done (at p (advance 0 last []) [])) (λ k d e. inr e) (omega arith) (refl, refl)
        (refl, refl) refl (inl refl)
        (stops h sender me calls ds now (at p (advance 0 last []) []) s
          λ all lt. nothing (all p.expected_index (omega arith) lt))
    where
      nothing : (d : List ℕ) × (find p.expected_index [] ≡ some d) → ⊥
      nothing (d, e) = cc
  looped (suc fuel) now p (e ∷ es) last ids s enough =
      let last' = advance (length (e ∷ es)) last (e ∷ es) in
      Settles-trans h sender me calls ds now (at p last (e ∷ es)) (at p last' (e ∷ es))
        (continue_process_messages (suc fuel) now (at p last (e ∷ es))) (λ k d f. inr f)
        (omega arith) (refl, refl) (refl, refl) refl (inl refl)
        (round now p e es last' (ltb p.expected_index e.0) (ltb e.0 p.expected_index)
          (continue_process_messages fuel now (at p last' es))
          (λ m index. continue_process_messages fuel now (record (at p last' (e ∷ es)) {
            expected_index = index;
            last_processed = now;
            delivered = p.delivered ++ (m ∷ []);
          }))
          ids s refl refl
          (λ passed.
            looped fuel now p es last' ids (Fits-behind p e es s)
              (Enough-behind fuel p.expected_index e es enough))
          (λ m index here more next s'.
            Settles-trans h sender me calls ds now (at p last' (e ∷ es))
              (record (at p last' (e ∷ es)) {
                expected_index = index;
                last_processed = now;
                delivered = p.delivered ++ (m ∷ []);
              })
              (continue_process_messages fuel now (record (at p last' (e ∷ es)) {
                expected_index = index;
                last_processed = now;
                delivered = p.delivered ++ (m ∷ []);
              }))
              (λ k d f. inr f) (omega arith) (refl, refl) (refl, refl) refl (inr refl)
              (looped fuel now
                (record p {
                  expected_index = index;
                  last_processed = now;
                  delivered = p.delivered ++ (m ∷ []);
                })
                (e ∷ es) last' ids s'
                (Enough-here fuel p.expected_index index e es enough here next))))

  pub continue_process_messages-Settles :
      (now : ℕ) (p : Protocol)
      → (p.this_node_id ≡ me) × (p.partner_node_id ≡ sender)
      → InStep h sender me calls ds p.expected_index p.input_messages p.delivered
      → Settles h sender me calls ds now p (continue_process_messages (rounds p) now p)
  continue_process_messages-Settles now p ids s =
      looped (rounds p) now p p.input_messages p.last_input_index ids s (plenty p.input_messages)
    where
      plenty : (input : List (ℕ × List ℕ)) → Enough (2 * length input + 2) p.expected_index input
      plenty [] = omega arith
      plenty (e ∷ es) = inl (omega arith)
