-- ===== src/Dht/Channel/Sending/Ready.antt =====
-- When `prepare_to_send` of libs_server/vds_dht_network/impl/dht_datagram_protocol.cpp does not fail.
use vds.Common.{ℕ, ◌+◌, ◌≡◌, List, some, length}
use vds.Dht.Protocol.{Hmac, Protocol, Outcome, done, failed, fault}
use vds.Dht.Protocol.Send.{queue, prepare_to_send}
use vds.Dht.Channel.{Outgoing, datagrams_of}

-- The datagrams are queued behind one another, and the next index is the one behind the last of them.
abbrev pub Prepared : Protocol → List (List ℕ) → Outcome → Type 0
Prepared p ds (done q) =
    (q.last_output_index ≡ p.last_output_index + length ds)
    × (q.output_messages ≡ queue p.last_output_index ds p.output_messages)
Prepared p ds (failed e q) = ⊥
Prepared p ds fault = ⊥

abbrev pub IsPrepared : Hmac → Protocol → Outgoing → Type 0
IsPrepared h p o =
    (ds : List (List ℕ)) × (datagrams_of h p.partner_node_id p.mtu p.last_output_index o ≡ some ds)
    × Prepared p ds (prepare_to_send h p o.message_type o.target_node o.hops o.body)
