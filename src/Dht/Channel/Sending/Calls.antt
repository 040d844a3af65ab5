-- ===== src/Dht/Channel/Sending/Calls.antt =====
-- The results of `prepare_to_send` and `send_message_async` of
-- libs_server/vds_dht_network/impl/dht_datagram_protocol.cpp.
use vds.Common.{
  ℕ, ◌+◌, ◌-◌, ◌%◌, ◌^◌, ◌<◌, ◌≡◌, refl, sym, ap, ◌∙◌, List, [], Option, none, some, Bool, true,
  false, ltb, ltb→lt, if◌then◌else◌, length, Error, write_failed,
}
use vds.Dht.Protocol.{Hmac, Protocol, Outcome, done, failed, fault}
use vds.Dht.Protocol.Send.{queue, sent_from, after_writes, prepare_to_send, send_message_async}
use vds.Dht.Channel.{Outgoing, datagrams_of}

-- What `prepare_to_send` has done where it ends without a fault.
prepared_cases :
    (p q : Protocol) (first : Option (List (List ℕ)))
    → elim first [
      | none ↦ fault
      | some ds ↦
          let final = (p.last_output_index + length ds) % 2 ^ 32 in
          if ltb p.last_output_index final
          then done (record p {
            last_output_index = final;
            output_messages = queue p.last_output_index ds p.output_messages;
          })
          else fault
    ]
      ≡ done q
    → (xs : List (List ℕ)) × (first ≡ some xs)
      × (record p {
        last_output_index = (p.last_output_index + length xs) % 2 ^ 32;
        output_messages = queue p.last_output_index xs p.output_messages;
      }
          ≡ q)
      × (p.last_output_index < (p.last_output_index + length xs) % 2 ^ 32)
prepared_cases p q none e = cc
prepared_cases p q (some xs) e =
    let (same, more) =
      counted (ltb p.last_output_index ((p.last_output_index + length xs) % 2 ^ 32)) refl e in
    (xs, refl, same, more)
  where
    counted :
        {r : Protocol} {a b : ℕ} (more : Bool)
        → ltb a b ≡ more
        → (if more then done r else fault) ≡ done q
        → (r ≡ q) × (a < b)
    counted {r} {a} {b} true f e = (cc, ltb→lt a b f)
    counted {r} {a} {b} false f e = cc

pub prepare_to_send-cases :
    (h : Hmac) (p q : Protocol) (o : Outgoing)
    → prepare_to_send h p o.message_type o.target_node o.hops o.body ≡ done q
    → (xs : List (List ℕ)) × (datagrams_of h p.partner_node_id p.mtu p.last_output_index o
        ≡ some xs)
      × (record p {
        last_output_index = (p.last_output_index + length xs) % 2 ^ 32;
        output_messages = queue p.last_output_index xs p.output_messages;
      }
          ≡ q)
      × (p.last_output_index < (p.last_output_index + length xs) % 2 ^ 32)
unfolding prepare_to_send
prepare_to_send-cases h p q o e =
    prepared_cases p q (datagrams_of h p.partner_node_id p.mtu p.last_output_index o) e

unprepared :
    (p q : Protocol) (x : Error) (first : Option (List (List ℕ)))
    → elim first [
      | none ↦ fault
      | some ds ↦
          let final = (p.last_output_index + length ds) % 2 ^ 32 in
          if ltb p.last_output_index final
          then done (record p {
            last_output_index = final;
            output_messages = queue p.last_output_index ds p.output_messages;
          })
          else fault
    ]
      ≡ failed x q
    → ⊥
unprepared p q x none e = cc
unprepared p q x (some ds) e =
    counted _ (ltb p.last_output_index ((p.last_output_index + length ds) % 2 ^ 32)) e
  where
    counted : (r : Protocol) (more : Bool) → (if more then done r else fault) ≡ failed x q → ⊥
    counted r true e = cc
    counted r false e = cc

-- `prepare_to_send` ends without an error, or with a fault.
prepare_to_send-failed :
    (h : Hmac) (p q : Protocol) (o : Outgoing) (x : Error)
    → prepare_to_send h p o.message_type o.target_node o.hops o.body ≡ failed x q
    → ⊥
unfolding prepare_to_send
prepare_to_send-failed h p q o x e =
    unprepared p q x (datagrams_of h p.partner_node_id p.mtu p.last_output_index o) e

-- The session after a call, whether all was written or not.
abbrev pub Leaves : Bool → Outcome → Protocol → Type 0
Leaves true o q = o ≡ done q
Leaves false o q = o ≡ failed write_failed q

-- The writing of a session's datagrams.
abbrev pub sending : (ℕ → Bool) → ℕ → Protocol → List (List ℕ) × Bool
sending writes start q = sent_from writes start (q.last_output_index - start) q.output_messages

abbrev sent_result : (ℕ → Bool) → ℕ → Outcome → Outcome × List (List ℕ)
sent_result writes start r = elim r as (λ _. Outcome × List (List ℕ)) [
  | done q ↦ let sent = sending writes start q in (after_writes sent.1 q q, sent.0)
  | o ↦ (o, [])
]

Leaves-after :
    (written all : Bool) (r q : Protocol)
    → Leaves all (after_writes written r r) q
    → (done r ≡ done q) × (written ≡ all)
Leaves-after true true r q e = (e, refl)
Leaves-after true false r q e = cc
Leaves-after false true r q e = cc
Leaves-after false false r q e = (cc, refl)

pub send_message_async-cases :
    (h : Hmac) (writes : ℕ → Bool) (p q : Protocol) (o : Outgoing) (all : Bool)
    → Leaves all (send_message_async h writes p o.message_type o.target_node o.hops o.body).0 q
    → (prepare_to_send h p o.message_type o.target_node o.hops o.body ≡ done q)
      × (sending writes p.last_output_index q
          ≡ ((send_message_async h writes p o.message_type o.target_node o.hops o.body).1, all))
unfolding send_message_async
send_message_async-cases h writes p q o all e =
    ended (prepare_to_send h p o.message_type o.target_node o.hops o.body) refl e
  where
    ended :
        (r : Outcome)
        → prepare_to_send h p o.message_type o.target_node o.hops o.body ≡ r
        → Leaves all (sent_result writes p.last_output_index r).0 q
        → (r ≡ done q)
          × (sending writes p.last_output_index q
              ≡ ((sent_result writes p.last_output_index r).1, all))
    ended (done r) f e =
        let (same, written) = Leaves-after (sending writes p.last_output_index r).1 all r q e in
        let rq : r ≡ q = done_same same in
        (
          same,
          ap (sending writes p.last_output_index) (sym rq)
              ∙ ap (λ (b : Bool). ((sending writes p.last_output_index r).0, b)) written,
        )
      where
        done_same : {a b : Protocol} → done a ≡ done b → a ≡ b
        done_same e = cc
    ended (failed x r) f e = absurd (prepare_to_send-failed h p r o x f)
    ended fault f e = absurd (clash all e)
      where
        clash : (b : Bool) → Leaves b fault q → ⊥
        clash true e = cc
        clash false e = cc
