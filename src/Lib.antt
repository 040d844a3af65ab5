-- ===== src/Lib.antt =====
-- The Virtual Distributed System: a store of encrypted data that is spread over the nodes of a
-- distributed hash table (DHT). Nodes are found by the distance of their ids; messages are
-- written and read by a binary serializer; texts are encoded as hex, base64, URL escapes and UTF-8;
-- configuration and web requests come as JSON.
--
-- The parts, and the files that model them:
--   Common: tests on ℕ, lists, bit operations, and `Expected`, which is `vds::expected`: a value or an
--     error (kernel/vds_core/expected.h). The macros CHECK_EXPECTED and GET_EXPECTED are its `>>=`.
--   Serialize: kernel/vds_core/binary_serialize.cpp and .h. A serializer is the list of the bytes that were
--     added; a deserializer is the list of the bytes that are left, and `Read` is a result with the bytes
--     left behind it. `put_u16` and so on stand for the overloads of `put`, `get_u16` for those of `get`.
--     The operators for lists take the operator of the items as an argument; `Codec` is the interface of
--     an item type.
--   Encoding: kernel/vds_core/encoding.cpp, a child module for each of its classes: Hex, Base64, Url, Utf8.
--     A `std::string` is the list of its bytes. A base64 buffer is allocated with bytes that are not
--     set; they are an argument of `to_bytes`, called `fresh`.
--   Dht/ObjectId: libs_server/vds_dht_network/include/dht_object_id.h: the distance of ids, its exponent, and random
--     ids with a given exponent. The bytes of `std::rand` are an argument.
--   Dht/Route: libs_server/vds_dht_network/impl/dht_route.cpp: the routing table, a bucket of known nodes for each exponent
--     of a distance; Dht/Route/Bucket is a bucket, Dht/Route/Search the search. An operation is one step: the interleaving of
--     two of them is not modelled. Whether a ping is sent without an error is an argument of `on_timer`.
--   Dht/Protocol: libs_server/vds_dht_network/impl/dht_datagram_protocol.cpp: a session of two nodes over UDP. Send has
--     `prepare_to_send` and its callers, Receive `process_datagram` and `continue_process_messages`,
--     Acknowledge the timer and the acknowledgments; Table is `std::map`. HMAC is a parameter (`Hmac`), with the
--     law that a signature has 32 bytes and is accepted for the bytes that it was made of. Dht/Channel puts both
--     ends together, with a network that loses, repeats and reorders datagrams between them; its children
--     follow a datagram: Header and Parts its bytes, Single and Many a message in one or more of them,
--     Fragments the cutting and putting together, Frames the tests at the entrance, InStep, Loop and Rounds
--     the receiver's loop, Arrivals and Forged a call of `process_datagram`, Delivery a session
--     at the receiver, Sending one at the sender, Session both, Bounds the sizes, Proxies messages with hops.
--   Json/Tree: kernel/vds_parser/json_object.h: the nodes of a tree, on a heap, as the parser shares and
--     changes them; a pointer is an index, the null pointer is `none`, and a wrong cast gives `none`.
--   Json/Parser: kernel/vds_parser/json_parser.cpp: `write` as a state machine, in Steps and Literals; one
--     function for each `case`. The invariant stands in Shape.
--
-- Integers are natural numbers with the wrap-around of their type written out (`% 2 ^ 8`, `% 2 ^ 32`).
-- A `char` of a text is its byte; where the source depends on its sign, the model does the same. For the parser's
-- calls of `isspace` and `isdigit` on a negative `char`, which C leaves undefined, it takes the answer no.
-- `write_async` belongs to the transport and is not modelled: whether a write is without an error is an argument of
-- what writes, called `writes`, for each index of a datagram, and at the receiver for each time as well. An
-- error ends the call as in the source. A UDP datagram has less than 2 ^ 16 bytes; the assertion of this in
-- `process_datagram` is left out.
-- Loops are structural recursion on the data. The loop on `mask` in `distance_exp` runs on fuel 8, the
-- bits of a byte; `low_bytes` runs on fuel 8, the bytes of a 64-bit word. `continued` cuts at least one
-- byte a round and has the length of the rest as fuel; `gather` runs on the number of the missing bytes;
-- `continue_process_messages` has two rounds for each entry, one that hands a message on and one that
-- erases the entry; `resend` has 32, the bits of the mask. The parser's loop
-- reads a character at most twice, and takes a third time for an endless loop, which is shown not to
-- occur.
--
-- Not modelled: what calls OpenSSL, sockets, SQLite or the operating system; the
-- erasure code and the replication state machine; the set and
-- map operators of the serializer; the JSON writer. The applications, the bindings and the tests stand on top of these.
pub mod Common
pub mod Serialize
pub mod Encoding
pub mod Dht
pub mod Json
