-- ===== src/Dht/Channel/Sending.antt =====
-- A sender of libs_server/vds_dht_network/impl/dht_datagram_protocol.cpp from the start of a session: what it has
-- written to the transport.
pub mod Queued
pub mod Calls
pub mod Repeats
pub mod Account
pub mod Written
pub mod Ready
pub mod Examples
use vds.Common.{ℕ, ◌≡◌, List, [], ◌∷◌, ◌++◌, Bool, true, false, write_failed}
use vds.Dht.Protocol.{Hmac, Protocol, done, failed}
use vds.Dht.Protocol.Send.{send_message_async}
use vds.Dht.Protocol.Acknowledge.{opened, process_acknowledgment, on_timer}
use vds.Dht.Channel.{Outgoing}

-- The states of a sender, with the calls so far, each with the MTU at its time; the datagrams that were
-- written for them; those that were written again for acknowledgments; and whether every write for a call
-- was without an error. Any write may fail: the call then ends with the error, and its message is counted
-- among the calls, since it stays in the queue.
pub data Sends (h : Hmac) (this_node partner : List ℕ)
    : Protocol → List (ℕ × Outgoing) → List (List ℕ) → List (List ℕ) → Bool → Type 0 where
  begins : (now : ℕ) → Sends h this_node partner (opened this_node partner now) [] [] [] true
  sends :
      (p q : Protocol) (calls : List (ℕ × Outgoing)) (first again xs : List (List ℕ)) (whole : Bool)
      (o : Outgoing) (writes : ℕ → Bool)
      → Sends h this_node partner p calls first again whole
      → send_message_async h writes p o.message_type o.target_node o.hops o.body ≡ (done q, xs)
      → Sends h this_node partner q (calls ++ ((p.mtu, o) ∷ [])) (first ++ xs) again whole
  breaks :
      (p q : Protocol) (calls : List (ℕ × Outgoing)) (first again xs : List (List ℕ)) (whole : Bool)
      (o : Outgoing) (writes : ℕ → Bool)
      → Sends h this_node partner p calls first again whole
      → send_message_async h writes p o.message_type o.target_node o.hops o.body
        ≡ (failed write_failed q, xs)
      → Sends h this_node partner q (calls ++ ((p.mtu, o) ∷ [])) (first ++ xs) again false
  hears :
      (p q : Protocol) (calls : List (ℕ × Outgoing)) (first again xs : List (List ℕ)) (whole : Bool)
      (d : List ℕ) (writes : ℕ → Bool)
      → Sends h this_node partner p calls first again whole
      → process_acknowledgment writes p d ≡ (done q, xs)
      → Sends h this_node partner q calls first (again ++ xs) whole
  loses :
      (p q : Protocol) (calls : List (ℕ × Outgoing)) (first again xs : List (List ℕ)) (whole : Bool)
      (d : List ℕ) (writes : ℕ → Bool)
      → Sends h this_node partner p calls first again whole
      → process_acknowledgment writes p d ≡ (failed write_failed q, xs)
      → Sends h this_node partner q calls first (again ++ xs) whole
  ticks :
      (p : Protocol) (calls : List (ℕ × Outgoing)) (first again : List (List ℕ)) (whole : Bool)
      (padding : ℕ → List ℕ)
      → Sends h this_node partner p calls first again whole
      → Sends h this_node partner (on_timer padding p).0 calls first again whole
