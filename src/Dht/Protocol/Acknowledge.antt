-- ===== src/Dht/Protocol/Acknowledge.antt =====
-- The constructor, `set_mtu`, `on_timer`, `send_acknowledgment` and `process_acknowledgment` of
-- libs_server/vds_dht_network/impl/dht_datagram_protocol.cpp. Times of waiting and metrics are left out.
pub mod Mask
pub mod Missing
pub mod Resend
pub mod Examples
use Prim.Native.Nat.{bit_or, bit_and}
use vds.Common.{
  ℕ, zero, suc, ◌+◌, ◌-◌, ◌*◌, ◌/◌, ◌%◌, ◌^◌, List, [], ◌∷◌, ◌++◌, Option, none, some, Bool, true,
  false, ltb, leb, ◌==◌, if◌then◌else◌, length, get_or,
}
use vds.Dht.Protocol.{
  Hmac, Protocol, Outcome, done, failed, fault, be32, read32, mtu_test, acknowledgment,
}
use vds.Dht.Protocol.Table.{find}
use vds.Dht.Protocol.Send.{write_found, after_writes}
use vds.Dht.Protocol.Receive.{next_index, process_datagram}

abbrev pub min_mtu : ℕ
min_mtu = 508

abbrev pub check_mtu_timeout : ℕ
check_mtu_timeout = 10

-- A new session, at the time `now`.
abbrev pub opened : List ℕ → List ℕ → ℕ → Protocol
opened this_node partner now = record {
  this_node_id = this_node;
  partner_node_id = partner;
  failed_state = false;
  check_mtu = 0;
  last_sent = 0;
  mtu = min_mtu;
  input_mtu = 0;
  last_output_index = 0;
  output_messages = [];
  last_input_index = 0;
  expected_index = 0;
  last_processed = now;
  input_messages = [];
  delivered = [];
}

abbrev pub set_mtu : Protocol → ℕ → Protocol
set_mtu p value = record p { mtu = value }

-- 1 if the table has no entry with the key, and the loop that shifts these bits into the mask, for the
-- `i` indices behind the last one.
unfoldable pub is_missing : List (ℕ × List ℕ) → ℕ → ℕ
unfolding find
is_missing input index = elim (find index input) [ none ↦ 1 | some d ↦ 0 ]

unfoldable pub missing_mask : List (ℕ × List ℕ) → ℕ → ℕ → ℕ → ℕ
unfolding is_missing
missing_mask input last zero mask = mask
missing_mask input last (suc i) mask =
    missing_mask input last i
      (bit_or (mask * 2 % 2 ^ 32) (is_missing input (next_index last (suc i))))

-- The datagram that `send_acknowledgment` writes.
unfoldable pub send_acknowledgment : Protocol → List ℕ
unfolding missing_mask
send_acknowledgment p =
    acknowledgment
    ∷ (be32 p.last_input_index
        ++ (be32 (missing_mask p.input_messages p.last_input_index 32 0)
            ++ (p.input_mtu / 2 ^ 8 % 2 ^ 8 ∷ p.input_mtu % 2 ^ 8 ∷ [])))

-- The entries in front, below the index, are erased.
unfoldable pub erase_below : ℕ → List (ℕ × List ℕ) → List (ℕ × List ℕ)
erase_below last [] = []
erase_below last (e ∷ es) = let rest = erase_below last es in if ltb e.0 last then rest else e ∷ es

-- The loop over the bits of the mask.
unfoldable pub resend : (ℕ → Bool) → List (ℕ × List ℕ) → ℕ → ℕ → ℕ → ℕ → List (List ℕ) × Bool
unfolding find
resend writes output last zero i mask = ([], true)
resend writes output last (suc fuel) i mask =
    let rest = resend writes output last fuel (i + 1) (mask / 2) in
    let index = next_index last (i + 1) in
    if mask == 0
    then ([], true)
    else (if bit_and mask 1 == 1 then write_found writes index (find index output) rest else rest)

-- The session, and the datagrams that are sent again. The bytes of an acknowledgment are read without a
-- look at its size. A write that fails is an error, and the MTU stays.
unfoldable pub process_acknowledgment : (ℕ → Bool) → Protocol → List ℕ → Outcome × List (List ℕ)
unfolding find erase_below resend
process_acknowledgment writes p d =
    let last = read32 (get_or d 1 0) (get_or d 2 0) (get_or d 3 0) (get_or d 4 0) in
    let mask = read32 (get_or d 5 0) (get_or d 6 0) (get_or d 7 0) (get_or d 8 0) in
    let mtu = bit_or (get_or d 9 0 * 2 ^ 8) (get_or d 10 0) in
    let output = erase_below last p.output_messages in
    let sent = write_found writes last (find last output) (resend writes output last 32 0 mask) in
    let q = record p {
      output_messages = output;
      last_sent = if length output == length p.output_messages then p.last_sent else 0;
    } in
    if ltb (length d) 11
    then (fault, [])
    else (after_writes sent.1 q (record q { mtu = if ltb p.mtu mtu then mtu else p.mtu }), sent.0)

-- The session, and what the timer sends. An error of a write changes nothing but the metrics, which are left
-- out, and is left out too. `padding` are the bytes of the test of the MTU behind its code,
-- which the source does not set.
unfoldable pub on_timer : (ℕ → List ℕ) → Protocol → Protocol × List (List ℕ)
unfolding send_acknowledgment
on_timer padding p =
    let q = record p { check_mtu = p.check_mtu + 1; last_sent = p.last_sent + 1 } in
    let acked = send_acknowledgment q ∷ [] in
    (
      q,
      if ltb q.check_mtu check_mtu_timeout
          then (if ltb q.mtu (0xFFFF - 256)
              then (mtu_test ∷ padding (q.mtu + 255)) ∷ acked
              else acked)
          else acked,
    )

-- `process_datagram` with all that it calls.
abbrev pub take_datagram : Hmac → (ℕ → Bool) → ℕ → Protocol → List ℕ → Outcome
take_datagram h writes = process_datagram h λ p d. (process_acknowledgment writes p d).0

-- `continue_read` of impl/udp_transport.cpp for the session: after an error it is removed, and takes
-- nothing more. `writes` tells of each time and index whether a write is without an error.
unfoldable pub receive : Hmac → (ℕ → ℕ → Bool) → List (ℕ × List ℕ) → Protocol → Outcome
unfolding process_datagram process_acknowledgment
receive h writes [] p = done p
receive h writes (a ∷ arrivals) p = elim (take_datagram h (writes a.0) a.0 p a.1) [
  | done q ↦ receive h writes arrivals q
  | failed e q ↦ failed e q
  | fault ↦ fault
]
