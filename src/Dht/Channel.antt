-- ===== src/Dht/Channel.antt =====
-- The two ends of a session together: what one node sends, in datagrams that the network may lose,
-- repeat and reorder, and what the other one hands to `process_message`.
pub mod Header
pub mod Fragments
pub mod Parts
pub mod Single
pub mod Many
pub mod Messages
pub mod Frames
pub mod InStep
pub mod Loop
pub mod Rounds
pub mod Arrivals
pub mod Forged
pub mod Delivery
pub mod Proxies
pub mod Bounds
pub mod Sending
pub mod Session
use vds.Common.{
  ℕ, ◌+◌, ◌%◌, ◌^◌, ◌<◌, ◌≡◌, ◌⊎◌, List, [], ◌∷◌, ◌++◌, Option, none, some, length, All,
}
use vds.Dht.Protocol.{Hmac, Message}
use vds.Dht.Protocol.Send.{way_of, way_size, datagrams}

-- A call of `send_message` or `proxy_message`.
pub record Outgoing : Type 0 where
  pub message_type : ℕ
  pub target_node : List ℕ
  pub hops : List (List ℕ)
  pub body : List ℕ

abbrev pub datagrams_of : Hmac → List ℕ → ℕ → ℕ → Outgoing → Option (List (List ℕ))
datagrams_of h partner mtu index o =
    datagrams h mtu index o.message_type (way_of partner o.target_node o.hops) o.target_node o.hops
      o.body

-- What the node `partner` should hand on, when `sender` has sent it.
abbrev pub inbound : List ℕ → Outgoing → Message
inbound sender o = record {
  message_type = o.message_type;
  target_node = o.target_node;
  hops = sender ∷ o.hops;
  body = o.body;
}

-- What the assertions of the sender demand.
pub record IsSendable (o : Outgoing) : Type 0 where
  pub small_type : o.message_type < 32
  pub target_id : length o.target_node ≡ 32
  pub hop_ids : All (λ hop. length hop ≡ 32) o.hops
  pub few_hops : length o.hops < 256
  pub small_body : length o.body < 2 ^ 32

-- The receiver takes a message in one datagram, and a message in several ones if it is longer than what
-- its test of the size supposes of the first one.
abbrev pub IsReadable : List ℕ → ℕ → Outgoing → Type 0
IsReadable partner mtu o =
    (1 + 4 + 32 + length o.body + way_size (way_of partner o.target_node o.hops) o.hops < mtu)
    ⊎ (mtu < length o.body + 106)

-- The datagrams of all calls, each with the MTU at its time, at the indices from `index` on.
unfoldable pub all_datagrams : Hmac → List ℕ → ℕ → List (ℕ × Outgoing) → Option (List (List ℕ))
all_datagrams h partner index [] = some []
all_datagrams h partner index (c ∷ calls) = elim (datagrams_of h partner c.0 index c.1) [
  | none ↦ none
  | some xs ↦ elim (all_datagrams h partner (index + length xs) calls) [
    | none ↦ none
    | some ys ↦ some (xs ++ ys)
  ]
]
