-- ===== src/Dht/Channel/Session/Examples.antt =====
-- A test of both ends of a session.
use vds.Common.{ℕ, refl, arith, List, [], ◌∷◌, All, inl, true}
use vds.Dht.Route.Bucket.{same_bytes}
use vds.Dht.Protocol.Send.{way_of, way_size}
use vds.Dht.Protocol.Acknowledge.{opened, receive}
use vds.Dht.Channel.{Outgoing}
use vds.Dht.Channel.InStep.{Proper}
use vds.Dht.Channel.Delivery.{InOrder}
use vds.Dht.Channel.Delivery.Examples.{counted, sum_hmac, alice, bob}
use vds.Dht.Channel.Sending.Examples.{
  short_message, next_message, first_bytes, next_bytes, two_calls, IsBounded-body,
}
use vds.Dht.Channel.Session.{Sends-receive}

abbrev calls : List (ℕ × Outgoing)
calls = (508, short_message) ∷ (1000, next_message) ∷ []

calls-Proper : All (Proper bob) calls
unfolding way_of same_bytes way_size
calls-Proper = (
  (
    (IsBounded-body 508 5 (1 ∷ 2 ∷ 3 ∷ []) (omega arith) (omega arith)).0,
    omega arith,
    inl (omega arith),
  ),
  (
    (
      (IsBounded-body 1000 7 (counted 30 0) (omega arith) (omega arith)).0,
      omega arith,
      inl (omega arith),
    ),
    tt,
  ),
)

-- The second datagram comes first, then what was sent again.
Sends-receive_example :
    InOrder sum_hmac alice bob calls (first_bytes ∷ next_bytes ∷ []) (
      receive sum_hmac (λ t i. true) ((1, next_bytes) ∷ (2, first_bytes) ∷ []) (opened bob alice 0))
Sends-receive_example =
    Sends-receive (λ t i. true) 0 ((1, next_bytes) ∷ (2, first_bytes) ∷ []) two_calls
      (
        IsBounded-body 508 5 (1 ∷ 2 ∷ 3 ∷ []) (omega arith) (omega arith),
        (IsBounded-body 1000 7 (counted 30 0) (omega arith) (omega arith), tt),
      )
      calls-Proper (inl (1, refl), (inl (2, refl), tt))
