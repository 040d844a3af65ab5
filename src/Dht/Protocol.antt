-- ===== src/Dht/Protocol.antt =====
-- libs_server/vds_dht_network/include/dht_datagram_protocol.h: a session of two nodes over UDP. The state and the
-- wire format; Send, Receive and Acknowledge have the operations of impl/dht_datagram_protocol.cpp.
pub mod Table
pub mod Send
pub mod Receive
pub mod Acknowledge
use Prim.Native.Nat.{bit_or}
use vds.Common.{ℕ, ◌+◌, ◌*◌, ◌/◌, ◌%◌, ◌^◌, ◌≡◌, List, [], ◌∷◌, ◌++◌, Bool, true, length, Error}

-- HMAC with the session key (kernel/vds_crypto, which calls OpenSSL): a signature has 32 bytes, and
-- is accepted for the bytes that it was made of.
pub record Hmac : Type 0 where
  pub signature : List ℕ → List ℕ
  pub verify : List ℕ → List ℕ → Bool
  pub length-signature : (bytes : List ℕ) → length (signature bytes) ≡ 32
  pub verify-signature : (bytes : List ℕ) → verify bytes (signature bytes) ≡ true

-- `protocol_message_type_t`
abbrev pub continue_data : ℕ
continue_data = 3

abbrev pub mtu_test : ℕ
mtu_test = 6

abbrev pub acknowledgment : ℕ
acknowledgment = 7

abbrev pub special_command : ℕ
special_command = 0b11100000

abbrev pub single_data : ℕ
single_data = 0b00100000

abbrev pub many_data : ℕ
many_data = 0b01000000

abbrev pub route_single_data : ℕ
route_single_data = 0b01100000

abbrev pub route_data : ℕ
route_data = 0b10000000

abbrev pub proxy_single_data : ℕ
proxy_single_data = 0b10100000

abbrev pub proxy_data : ℕ
proxy_data = 0b11000000

-- What `process_message` is called with.
pub record Message : Type 0 where
  pub message_type : ℕ
  pub target_node : List ℕ
  pub hops : List (List ℕ)
  pub body : List ℕ

-- The session. A `std::map` is the list of its entries in the order of the keys; `delivered` are the
-- calls of `process_message` so far. Times are in seconds. The counters of the traffic statistics are
-- left out.
pub record Protocol : Type 0 where
  pub this_node_id : List ℕ
  pub partner_node_id : List ℕ
  pub failed_state : Bool
  pub check_mtu : ℕ
  pub last_sent : ℕ
  pub mtu : ℕ
  pub input_mtu : ℕ
  pub last_output_index : ℕ
  pub output_messages : List (ℕ × List ℕ)
  pub last_input_index : ℕ
  pub expected_index : ℕ
  pub last_processed : ℕ
  pub input_messages : List (ℕ × List ℕ)
  pub delivered : List Message

-- What a call does: it ends, or returns an error in the state that it has reached. `fault` is a failed
-- assertion or an access out of bounds.
pub data Outcome : Type 0 where
  done : Protocol → Outcome
  failed : Error → Protocol → Outcome
  fault : Outcome

-- The four bytes of a `uint32_t`, highest first, and the number that four bytes make.
abbrev pub be32 : ℕ → List ℕ
be32 v = v / 2 ^ 24 % 2 ^ 8 ∷ v / 2 ^ 16 % 2 ^ 8 ∷ v / 2 ^ 8 % 2 ^ 8 ∷ v % 2 ^ 8 ∷ []

unfoldable pub read32 : ℕ → ℕ → ℕ → ℕ → ℕ
read32 a b c d = bit_or (bit_or (bit_or (a * 2 ^ 24) (b * 2 ^ 16)) (c * 2 ^ 8)) d

-- A datagram: its bytes and their signature.
unfoldable pub sign : Hmac → List ℕ → List ℕ
sign h bytes = bytes ++ h.signature bytes
