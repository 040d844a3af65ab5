-- ===== src/Dht/Protocol/Receive.antt =====
-- `process_datagram` and `continue_process_messages` of libs_server/vds_dht_network/impl/dht_datagram_protocol.cpp.
use Prim.Native.Nat.{bit_and}
use vds.Common.{
  ℕ, zero, suc, ◌+◌, ◌-◌, ◌*◌, ◌%◌, ◌^◌, List, [], ◌∷◌, ◌++◌, none, some, Bool, not, ◌||◌, ltb, leb,
  ◌==◌, if◌then◌else◌, length, take, drop, get_or, invalid_data, in_failed_state, send_timeout,
  invalid_signature, process_timeout,
}
use vds.Dht.Protocol.{
  Hmac, Message, Protocol, Outcome, done, failed, fault, read32, continue_data, mtu_test,
  acknowledgment, special_command, single_data, many_data, route_single_data, route_data,
  proxy_single_data, proxy_data,
}
use vds.Dht.Protocol.Table.{find, emplace}

-- What stands at the expected index comes to: a message, and the index behind it; or more datagrams are
-- waited for; or "Invalid data"; or a fault.
pub data Step : Type 0 where
  delivers : Message → ℕ → Step
  waits refused broken : Step

abbrev pub next_index : ℕ → ℕ → ℕ
next_index index n = (index + n) % 2 ^ 32

-- The bytes between an offset and the signature.
abbrev pub payload : ℕ → List ℕ → List ℕ
payload offset d = take (length d - offset - 32) (drop offset d)

-- Ids of 32 bytes, one after the other.
unfoldable pub read_hops : ℕ → List ℕ → List (List ℕ)
read_hops zero d = []
read_hops (suc n) d = take 32 d ∷ read_hops n (drop 32 d)

abbrev pub incoming : Protocol → ℕ → List ℕ → List (List ℕ) → List ℕ → Message
incoming p code target hops body = record {
  message_type = bit_and code 0b00011111;
  target_node = target;
  hops = p.partner_node_id ∷ hops;
  body = body;
}

-- A message in one datagram.
unfoldable pub single_at : Protocol → ℕ → List ℕ → Step
unfolding read_hops
single_at p code d =
    let kind = bit_and special_command code in
    let count = get_or d 37 0 in
    if kind == single_data
    then (if ltb (length d) (1 + 4 + 32)
        then broken
        else delivers (incoming p code p.this_node_id [] (payload 5 d))
            (next_index p.expected_index 1))
    else (if kind == route_single_data
        then (if ltb (length d) (1 + 4 + 32 + 32)
            then broken
            else delivers (incoming p code (take 32 (drop 5 d)) [] (payload 37 d))
                (next_index p.expected_index 1))
        else (if ltb (length d) (1 + 4 + 32 + 1 + 32 + count * 32)
            then broken
            else delivers
                (incoming p code (take 32 (drop 5 d)) (read_hops count (drop 38 d))
                  (payload (38 + count * 32) d))
                (next_index p.expected_index 1)))

-- The loop over the datagrams that go on with a message of which `size` bytes are missing. Each one
-- brings at least one byte, so `fuel` above `size` is not used up.
unfoldable pub gather : (List ℕ → ℕ → Step) → List (ℕ × List ℕ) → ℕ → ℕ → ℕ → ℕ → List ℕ → Step
unfolding find
gather finish input expected zero index size message = broken
gather finish input expected (suc fuel) index size message =
    elim (find (next_index expected index) input) [
      | none ↦ waits
      | some d ↦
          let more =
            gather finish input expected fuel (index + 1) (size - (length d - 37))
              (message ++ payload 5 d) in
          if not (get_or d 0 0 == continue_data)
          then refused
          else (if ltb (length d) 37 || ltb size (length d - 37)
              then refused
              else (if length d == 37
                  then broken
                  else (if size == length d - 37
                      then finish (message ++ payload 5 d) (index + 1)
                      else more)))
    ]

-- The test of the size against the bytes in the first datagram. The subtraction is on `size_t`.
abbrev pub too_small : ℕ → ℕ → ℕ → Bool
too_small size len overhead = ltb len overhead || leb size (len - overhead)

-- The rest of a message of which the first datagram has the bytes from `offset` on.
unfoldable pub gather_from : Protocol → ℕ → List ℕ → List (List ℕ) → ℕ → List ℕ → ℕ → Step
unfolding gather
gather_from p code target hops size d offset =
    let missing = (size + 2 ^ 64 - (length d - offset - 32)) % 2 ^ 64 in
    gather
      (λ message index.
        delivers (incoming p code target hops message) (next_index p.expected_index index))
      p.input_messages p.expected_index (suc missing) 1 missing (payload offset d)

-- A message in several datagrams. The test for a proxied message does not count its hops.
unfoldable pub many_at : Protocol → ℕ → List ℕ → Step
unfolding gather_from read_hops
many_at p code d =
    let kind = bit_and special_command code in
    let len = length d in
    let size = read32 (get_or d 5 0) (get_or d 6 0) (get_or d 7 0) (get_or d 8 0) in
    let count = get_or d 41 0 in
    if kind == many_data
    then (if too_small size len (1 + 4 + 4 + 32)
        then refused
        else (if leb len (1 + 4 + 4 + 32)
            then broken
            else gather_from p code p.this_node_id [] size d 9))
    else (if kind == route_data
        then (if too_small size len (1 + 4 + 4 + 32 + 32)
            then refused
            else (if leb len (1 + 4 + 4 + 32 + 32)
                then broken
                else gather_from p code (take 32 (drop 9 d)) [] size d 41))
        else (if too_small size len (1 + 4 + 4 + 32 + 32 + 1 + 32)
            then refused
            else (if leb len (1 + 4 + 4 + 32 + 1 + 32 * count + 32)
                then broken
                else gather_from p code (take 32 (drop 9 d)) (read_hops count (drop 42 d)) size d
                    (42 + count * 32))))

-- The switch on the kind of the datagram at the expected index.
unfoldable pub step_at : Protocol → List ℕ → Step
unfolding single_at many_at
step_at p d =
    let code = get_or d 0 0 in
    let kind = bit_and special_command code in
    if kind == single_data || kind == route_single_data || kind == proxy_single_data
    then single_at p code d
    else (if kind == many_data || kind == route_data || kind == proxy_data
        then many_at p code d
        else broken)

-- `while (… find(last_input_index_)) last_input_index_++`; there are no more rounds than entries.
unfoldable pub advance : ℕ → ℕ → List (ℕ × List ℕ) → ℕ
unfolding find
advance zero index input = index
advance (suc fuel) index input =
    let further = advance fuel (next_index index 1) input in
    elim (find index input) [ none ↦ index | some d ↦ further ]

-- The loop of `continue_process_messages`, at the time `now`. A round removes an entry, or delivers a
-- message, whose first entry the next round removes.
unfoldable pub continue_process_messages : ℕ → ℕ → Protocol → Outcome
unfolding advance step_at
continue_process_messages zero now p = fault
continue_process_messages (suc fuel) now p =
    let q = record p {
      last_input_index = advance (length p.input_messages) p.last_input_index p.input_messages;
    } in
    elim p.input_messages [
      | [] ↦ done q
      | e ∷ es ↦
          let erased = continue_process_messages fuel now (record q { input_messages = es }) in
          if ltb q.expected_index e.0
          then done q
          else (if ltb e.0 q.expected_index then erased else elim (step_at q e.1) [
            | delivers m index ↦ continue_process_messages fuel now (record q {
              expected_index = index;
              last_processed = now;
              delivered = q.delivered ++ (m ∷ []);
            })
            | waits ↦ done q
            | refused ↦ failed invalid_data q
            | broken ↦ fault
          ])
    ]

abbrev pub rounds : Protocol → ℕ
rounds p = 2 * length p.input_messages + 2

-- The kinds of datagrams that carry data.
abbrev pub is_data : ℕ → Bool
is_data code =
    let kind = bit_and special_command code in
    kind == single_data
    || kind == route_single_data
    || kind == proxy_single_data
    || kind == many_data
    || kind == route_data
    || kind == proxy_data
    || code == continue_data

-- The part of `process_datagram` behind the signature: the datagram is kept, unless one with its index is.
unfoldable pub accept : ℕ → Protocol → List ℕ → Outcome
unfolding continue_process_messages find emplace
accept now p d =
    let index = read32 (get_or d 1 0) (get_or d 2 0) (get_or d 3 0) (get_or d 4 0) in
    if ltb (p.last_processed + 600) now
    then failed process_timeout p
    else elim (find index p.input_messages) [
      | some old ↦ done p
      | none ↦
          let q = record p { input_messages = emplace index d p.input_messages } in
          continue_process_messages (rounds q) now q
    ]

abbrev pub send_limit : ℕ
send_limit = 600

-- `process_datagram`; `acknowledge` is what it does with an acknowledgment. The assertion that the size of
-- the datagram fits into `input_mtu_`, 16 bits, is left out: UDP has no longer datagrams.
unfoldable pub process_datagram :
    Hmac → (Protocol → List ℕ → Outcome) → ℕ → Protocol → List ℕ → Outcome
unfolding accept
process_datagram h acknowledge now p d =
    let q = if ltb p.input_mtu (length d) then record p { input_mtu = length d } else p in
    let code = get_or d 0 0 in
    if p.failed_state
    then failed in_failed_state p
    else (if ltb send_limit p.last_sent
        then failed send_timeout p
        else (if length d == 0
            then fault
            else (if code == mtu_test
                then done q
                else (if code == acknowledgment
                    then acknowledge q d
                    else (if ltb (length d) 33
                        then failed invalid_data q
                        else (if not (h.verify (take (length d - 32) d) (drop (length d - 32) d))
                            then failed invalid_signature q
                            else (if not (is_data code)
                                then failed invalid_data q
                                else accept now q d)))))))
