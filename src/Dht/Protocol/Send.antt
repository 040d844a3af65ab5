-- ===== src/Dht/Protocol/Send.antt =====
-- `prepare_to_send` and `send_message_async` of libs_server/vds_dht_network/impl/dht_datagram_protocol.cpp.
use Prim.Native.Nat.{bit_or, bit_and}
use vds.Common.{
  write_failed, ℕ, zero, suc, ◌+◌, ◌-◌, ◌*◌, ◌%◌, ◌^◌, List, [], ◌∷◌, ◌++◌, Option, none, some,
  Bool, true, false, not, ◌&&◌, ◌||◌, ltb, leb, ◌==◌, if◌then◌else◌, length, take, drop,
}
use vds.Dht.Route.Bucket.{same_bytes}
use vds.Dht.Protocol.{
  Hmac, Protocol, Outcome, failed, special_command, done, fault, be32, sign, continue_data,
  single_data, many_data, route_single_data, route_data, proxy_single_data, proxy_data,
}
use vds.Dht.Protocol.Table.{find, emplace}

-- A message to the partner itself, through the partner to another node, or passed on for other nodes.
pub data Way : Type 0 where
  direct routed proxied : Way

unfoldable pub way_of : List ℕ → List ℕ → List (List ℕ) → Way
unfolding same_bytes
way_of partner target [] = if same_bytes partner target then direct else routed
way_of partner target (hop ∷ hops) = proxied

abbrev pub single_code : Way → ℕ
single_code direct = single_data
single_code routed = route_single_data
single_code proxied = proxy_single_data

abbrev pub many_code : Way → ℕ
many_code direct = many_data
many_code routed = route_data
many_code proxied = proxy_data

-- The bytes between the numbers of a datagram and its message, and their number as the source adds it up.
unfoldable pub concat : List (List ℕ) → List ℕ
concat [] = []
concat (hop ∷ hops) = hop ++ concat hops

unfoldable pub way_bytes : Way → List ℕ → List (List ℕ) → List ℕ
unfolding concat
way_bytes direct target hops = []
way_bytes routed target hops = target
way_bytes proxied target hops = target ++ (length hops % 2 ^ 8 ∷ concat hops)

unfoldable pub way_size : Way → List (List ℕ) → ℕ
way_size direct hops = 0
way_size routed hops = 32
way_size proxied hops = 32 + 1 + length hops * 32

-- The assertions on the sizes of the ids, which are made before a message is split.
unfoldable pub all_ids : List (List ℕ) → Bool
all_ids [] = true
all_ids (hop ∷ hops) = length hop == 32 && all_ids hops

abbrev pub asserted : Way → List ℕ → List (List ℕ) → Bool
asserted direct target hops = true
asserted routed target hops = length target == 32
asserted proxied target hops = length target == 32 && all_ids hops

-- The datagrams that follow the first one, from the index on; `fuel` bounds their number.
unfoldable pub continued : Hmac → ℕ → ℕ → ℕ → List ℕ → List (List ℕ)
unfolding sign
continued h mtu zero index rest = []
continued h mtu (suc fuel) index rest =
    let size = if ltb (length rest) (mtu - (1 + 4 + 32)) then length rest else mtu - (1 + 4 + 32) in
    let more = continued h mtu fuel ((index + 1) % 2 ^ 32) (drop size rest) in
    sign h (continue_data ∷ (be32 index ++ take size rest))
    ∷ (if leb (length rest) size then [] else more)

-- `buffer.add(message.data(), size)`: `none` past the end of the message.
abbrev pub part : ℕ → List ℕ → Option (List ℕ)
part size message = if ltb (length message) size then none else some (take size message)

abbrev pub first_many : Hmac → ℕ → ℕ → ℕ → Way → List ℕ → List (List ℕ) → List ℕ → List ℕ
first_many h index message_type size way target hops piece = sign h (
    bit_or (many_code way) message_type
    ∷ (be32 index ++ (be32 size ++ (way_bytes way target hops ++ piece))))

-- The datagrams of a message, at the indices from `index` on. Ids are taken to have 32 bytes, so that no
-- datagram is longer than the MTU, which is asserted.
unfoldable pub datagrams :
    Hmac → ℕ → ℕ → ℕ → Way → List ℕ → List (List ℕ) → List ℕ → Option (List (List ℕ))
unfolding sign way_bytes way_size continued all_ids
datagrams h mtu index message_type way target hops message =
    let room = mtu - (1 + 4 + 4 + 32 + way_size way hops) in
    if ltb (1 + 4 + 32 + length message + way_size way hops) mtu
    then some (
        sign h (
          bit_or (single_code way) message_type
          ∷ (be32 index ++ (way_bytes way target hops ++ message)))
        ∷ [])
    else (if ltb mtu (1 + 4 + 4 + 32 + way_size way hops) || not (asserted way target hops)
        then none
        else elim (part room message) [
          | none ↦ none
          | some piece ↦ some (
              first_many h index message_type (length message) way target hops piece
              ∷ continued h mtu (suc (length message)) ((index + 1) % 2 ^ 32) (drop room message))
        ])

-- `output_messages_.emplace`, one after the other.
unfoldable pub queue : ℕ → List (List ℕ) → List (ℕ × List ℕ) → List (ℕ × List ℕ)
unfolding emplace
queue index [] output = output
queue index (d ∷ ds) output = queue ((index + 1) % 2 ^ 32) ds (emplace index d output)

-- `last_output_index_` after so many datagrams must be larger than before: an assertion. The test for an
-- overflow behind it is not reached.
unfoldable pub prepare_to_send : Hmac → Protocol → ℕ → List ℕ → List (List ℕ) → List ℕ → Outcome
unfolding datagrams queue way_of
prepare_to_send h p message_type target hops message =
    let start = p.last_output_index in
    let way = way_of p.partner_node_id target hops in
    elim (datagrams h p.mtu start message_type way target hops message) [
      | none ↦ fault
      | some ds ↦
          let final = (start + length ds) % 2 ^ 32 in
          if ltb start final
          then done (record p {
            last_output_index = final;
            output_messages = queue start ds p.output_messages;
          })
          else fault
    ]

-- A datagram that is found is written, before the rest. `writes` tells of each index whether `write_async`
-- returns without an error: the first error ends the writing. The result is what was written, and whether
-- all of it was.
abbrev pub write_found :
    (ℕ → Bool) → ℕ → Option (List ℕ) → List (List ℕ) × Bool → List (List ℕ) × Bool
write_found writes index none rest = rest
write_found writes index (some d) rest = if writes index then (d ∷ rest.0, rest.1) else ([], false)

-- The loop of `send_message_async`, from the index on, over the datagrams that are still in the queue.
unfoldable pub sent_from : (ℕ → Bool) → ℕ → ℕ → List (ℕ × List ℕ) → List (List ℕ) × Bool
unfolding find
sent_from writes index zero output = ([], true)
sent_from writes index (suc count) output =
    write_found writes index (find index output) (sent_from writes (index + 1) count output)

-- How a call ends whose last step is to write.
abbrev pub after_writes : Bool → Protocol → Protocol → Outcome
after_writes written p q = if written then done q else failed write_failed p

-- The session and what is written. The message stays in the queue when a write fails.
unfoldable pub send_message_async :
    Hmac → (ℕ → Bool) → Protocol → ℕ → List ℕ → List (List ℕ) → List ℕ → Outcome × List (List ℕ)
unfolding prepare_to_send sent_from
send_message_async h writes p message_type target hops message =
    elim (prepare_to_send h p message_type target hops message) [
      | done q ↦
          let sent =
            sent_from writes p.last_output_index (q.last_output_index - p.last_output_index)
              q.output_messages in
          (after_writes sent.1 q q, sent.0)
      | o ↦ (o, [])
    ]

-- What `send_message` and `proxy_message` both assert of their arguments.
unfoldable pub is_own_message : List ℕ → ℕ → List ℕ → List ℕ → Bool
unfolding same_bytes
is_own_message this_node message_type target message =
    leb (length message) 0xFFFFFFFF
    && not (same_bytes target this_node)
    && bit_and message_type special_command == 0

unfoldable pub send_message :
    Hmac → (ℕ → Bool) → Protocol → ℕ → List ℕ → List ℕ → Outcome × List (List ℕ)
unfolding send_message_async is_own_message
send_message h writes p message_type target message =
    if is_own_message p.this_node_id message_type target message
    then send_message_async h writes p message_type target [] message
    else (fault, [])

-- The hops of a proxied message begin with another node than the partner, and its datagrams have room.
unfoldable pub are_hops : List ℕ → ℕ → List (List ℕ) → Bool
unfolding same_bytes
are_hops partner mtu [] = false
are_hops partner mtu (hop ∷ hops) =
    not (same_bytes hop partner)
    && ltb (length (hop ∷ hops)) 0xFF
    && ltb (1 + 4 + 4 + 32 + 1 + length (hop ∷ hops) * 32 + 32) mtu

unfoldable pub proxy_message :
    Hmac → (ℕ → Bool) → Protocol → ℕ → List ℕ → List (List ℕ) → List ℕ → Outcome × List (List ℕ)
unfolding send_message_async is_own_message are_hops
proxy_message h writes p message_type target hops message =
    if is_own_message p.this_node_id message_type target message
      && are_hops p.partner_node_id p.mtu hops
    then send_message_async h writes p message_type target hops message
    else (fault, [])
