-- ===== src/Dht/Channel/Forged/Examples.antt =====
-- A test of bytes that the session key has not signed.
use vds.Common.{refl, arith, true, inr}
use vds.Dht.Route.Bucket.{same_bytes}
use vds.Dht.Protocol.Acknowledge.{opened, process_acknowledgment, take_datagram}
use vds.Dht.Channel.Arrivals.{KeptOut}
use vds.Dht.Channel.Forged.{process_datagram-Foreign}
use vds.Dht.Channel.Delivery.Examples.{counted, sum_hmac, alice, bob}

process_datagram-Foreign_example :
    KeptOut
      (opened bob alice 0)
      (counted 40 0)
      (take_datagram sum_hmac (λ i. true) 5 (opened bob alice 0) (counted 40 0))
unfolding same_bytes
process_datagram-Foreign_example =
    process_datagram-Foreign sum_hmac 5 (opened bob alice 0) (counted 40 0)
      (λ p d. (process_acknowledgment (λ i. true) p d).0) (omega arith, omega arith, inr (inr refl))
