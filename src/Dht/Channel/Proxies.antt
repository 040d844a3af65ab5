-- ===== src/Dht/Channel/Proxies.antt =====
-- A split message with hops at the receiver (libs_server/vds_dht_network/impl/dht_datagram_protocol.cpp): its test of
-- the size does not count the hops.
pub mod Examples
use vds.Common.{
  ℕ, zero, suc, ◌+◌, ◌-◌, ◌*◌, ◌/◌, ◌%◌, ◌^◌, ◌≤◌, ◌<◌, ◌≡◌, refl, sym, ap, ◌∙◌, subst, arith, List,
  [], ◌∷◌, ◌++◌, Option, none, some, Bool, true, false, not, ◌||◌, ltb, leb, ◌==◌, if◌then◌else◌,
  length, length-take, take, drop, get_or, All, ◌⊎◌, inl, inr, invalid_data, process_timeout,
}
use vds.Dht.Protocol.{Hmac, Message, Protocol, Outcome, done, failed, fault, read32, sign}
use vds.Dht.Protocol.Table.{find, emplace}
use vds.Dht.Protocol.Receive.{
  Step, delivers, waits, refused, broken, step_at, many_at, too_small, accept, process_datagram,
  continue_process_messages, advance, rounds,
}
use vds.Dht.Protocol.Send.{proxied, way_of, way_size, way_bytes, first_many, many_code, continued}
use vds.Dht.Protocol.Acknowledge.{opened, process_acknowledgment, take_datagram}
use vds.Dht.Channel.{Outgoing, datagrams_of, IsSendable}
use vds.Dht.Channel.Header.{IsId, many_kind, read32-be32}
use vds.Dht.Channel.Parts.{length-way_bytes}
use vds.Dht.Channel.Single.{single, step_at_many}
use vds.Dht.Channel.Many.{length-first_many}
use vds.Dht.Channel.Messages.{datagrams-Datagrams}
use vds.Dht.Channel.Frames.{Framed, AllFramed, datagrams_of-AllFramed}

step_at-first_many :
    (p : Protocol) (h : Hmac) (index t size : ℕ) (target : List ℕ) (hops : List (List ℕ))
    (piece : List ℕ)
    → t < 32
    → IsId target
    → All IsId hops
    → size < 2 ^ 32
    → size + 106 ≤ 41 + way_size proxied hops + length piece
    → step_at p (first_many h index t size proxied target hops piece) ≡ refused
unfolding many_at sign
step_at-first_many p h index t size target hops piece ht it ih small wide =
    let d = first_many h index t size proxied target hops piece in
    let kind = many_kind proxied t ht in
    let w = length-way_bytes proxied target hops it ih in
    let n = length-first_many h index t size proxied target hops piece in
    let checked : too_small size (length d) 106 ≡ true = ground (arith, n, w) in
    step_at_many p d proxied kind.0 ∙ rw (kind.0) (rw (read32-be32 size small) (rw (checked) refl))

-- An error, and nothing handed on.
abbrev pub Refuses : Outcome → Type 0
Refuses (done q) = ⊥
Refuses (failed e q) = (e ≡ invalid_data) × (q.delivered ≡ [])
Refuses fault = ⊥

module _ (h : Hmac) (sender me : List ℕ) (writes : ℕ → Bool) (start now : ℕ) (x : List ℕ)
    (framed : Framed h 0 x) (in_time : now ≤ start + 600) where
  accept_refused :
      (mtu : ℕ)
      → ((p : Protocol) → step_at p x ≡ refused)
      → Refuses (accept now (record (opened me sender start) { input_mtu = mtu }) x)
  unfolding accept continue_process_messages emplace find advance
  accept_refused mtu e =
      let p = record (opened me sender start) { input_mtu = mtu } in
      subst
        (λ (j : ℕ). Refuses (
          if ltb (start + 600) now
          then failed process_timeout p
          else elim (find {A = List ℕ} j []) [
            | some old ↦ done p
            | none ↦
                let q = record p { input_messages = emplace j x [] } in
                continue_process_messages (rounds q) now q
          ]))
        (sym framed.index_read)
        (rw (early)
          (rw (e (record p { input_messages = (0, x) ∷ []; last_input_index = 1 })) (refl, refl)))
    where
      early : ltb (start + 600) now ≡ false
      early = ground arith

  process_datagram-refused :
      ((p : Protocol) → step_at p x ≡ refused)
      → Refuses (take_datagram h writes now (opened me sender start) x)
  unfolding process_datagram
  process_datagram-refused e =
      rw (empty (length x) framed.long, framed.not_test, framed.not_ack)
        (rw (short (length x) framed.long, framed.verified, framed.data_code)
          (measured (ltb 0 (length x))))
    where
      empty : (n : ℕ) → 33 ≤ n → (n == 0) ≡ false
      empty n le = ground arith

      short : (n : ℕ) → 33 ≤ n → ltb n 33 ≡ false
      short n le = ground arith

      measured :
          (more : Bool)
          → Refuses (
              accept now
                (if more
                  then record (opened me sender start) { input_mtu = length x }
                  else opened me sender start)
                x)
      measured true = accept_refused (length x) e
      measured false = accept_refused 0 e

split_head :
    (h : Hmac) (me : List ℕ) (mtu : ℕ) (o : Outgoing) (x : List ℕ) (rest : List (List ℕ))
    → datagrams_of h me mtu 0 o ≡ some (x ∷ rest)
    → mtu ≤ 37 + length o.body + way_size (way_of me o.target_node o.hops) o.hops
    → (41 + way_size (way_of me o.target_node o.hops) o.hops ≤ mtu)
      × (x
          ≡ first_many h 0 o.message_type
              (length o.body)
              (way_of me o.target_node o.hops)
              o.target_node
              o.hops
              (take (mtu - (41 + way_size (way_of me o.target_node o.hops) o.hops)) o.body))
split_head h me mtu o x rest e long =
    elim (datagrams-Datagrams h mtu 0 o.message_type (way_of me o.target_node o.hops) o.target_node
      o.hops o.body (x ∷ rest) e) [
        | inl whole ↦ absurd (omega (arith, whole.0))
        | inr pieces ↦ (pieces.1, head pieces.2)
      ]
  where
    head : {y : List ℕ} {ys : List (List ℕ)} → x ∷ rest ≡ y ∷ ys → x ≡ y
    head {y} {ys} same = cc

-- A message with hops that the sender splits is refused as "Invalid data" by a new session whenever its body
-- is at least 106 bytes shorter than the MTU: the receiver's test of the size supposes a first datagram with no
-- hop in it. Such bodies are those of mtu - 70 - 32 * n bytes, n the number of hops, up to mtu - 106.
pub take_datagram-refused :
    (h : Hmac) (sender me : List ℕ) (writes : ℕ → Bool) (start now mtu : ℕ) (target hop : List ℕ)
    (hops : List (List ℕ)) (t : ℕ) (body x : List ℕ) (rest : List (List ℕ))
    → datagrams_of h me mtu 0
        (record { message_type = t; target_node = target; hops = hop ∷ hops; body = body })
      ≡ some (x ∷ rest)
    → IsSendable (record { message_type = t; target_node = target; hops = hop ∷ hops; body = body })
    → 1 + length rest < 2 ^ 32
    → mtu ≤ 70 + 32 * length (hop ∷ hops) + length body
    → length body + 106 ≤ mtu
    → now ≤ start + 600
    → Refuses (take_datagram h writes now (opened me sender start) x)
unfolding way_of way_size
take_datagram-refused h sender me writes start now mtu target hop hops t body x rest sent ok few
      long short in_time =
    let o : Outgoing = record {
      message_type = t;
      target_node = target;
      hops = hop ∷ hops;
      body = body;
    } in
    let (room, same) = split_head h me mtu o x rest sent (omega arith) in
    let n : length (take (mtu - (41 + way_size proxied (hop ∷ hops))) body)
        ≡ mtu - (41 + way_size proxied (hop ∷ hops)) =
      length-take (mtu - (41 + way_size proxied (hop ∷ hops))) body (omega arith) in
    process_datagram-refused h sender me writes start now x
      (datagrams_of-AllFramed h me mtu 0 o (x ∷ rest) sent ok (omega arith)).0 in_time
      λ p.
        subst (λ (y : List ℕ). step_at p y ≡ refused) (sym same)
          (step_at-first_many p h 0 t (length body) target (hop ∷ hops)
            (take (mtu - (41 + way_size proxied (hop ∷ hops))) body) ok.small_type ok.target_id
            ok.hop_ids ok.small_body (omega (arith, n, room)))
