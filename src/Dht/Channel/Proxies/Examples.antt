-- ===== src/Dht/Channel/Proxies/Examples.antt =====
-- A test of a message with two hops whose datagrams no receiver takes.
use vds.Common.{ℕ, refl, arith, List, [], ◌∷◌, ◌++◌, true}
use vds.Dht.Route.Bucket.{same_bytes}
use vds.Dht.Protocol.{sign}
use vds.Dht.Protocol.Send.{way_of, way_size, way_bytes, concat, datagrams, continued, all_ids}
use vds.Dht.Protocol.Acknowledge.{opened, take_datagram}
use vds.Dht.Channel.Delivery.Examples.{counted, signed, sum_hmac, alice, bob}
use vds.Dht.Channel.Proxies.{Refuses, take_datagram-refused}

abbrev carol : List ℕ
carol = counted 32 50

abbrev hops_sent : List ℕ
hops_sent =
    signed
      (199 ∷ 0 ∷ 0 ∷ 0 ∷ 0 ∷ 0 ∷ 0 ∷ 0 ∷ 50 ∷ (carol ++ (2 ∷ (alice ++ (bob ++ counted 22 0)))))

abbrev hops_sent_next : List ℕ
hops_sent_next = signed (3 ∷ 0 ∷ 0 ∷ 0 ∷ 1 ∷ counted 28 22)

take_datagram-refused_example :
    Refuses (take_datagram sum_hmac (λ i. true) 5 (opened bob alice 0) hops_sent)
unfolding way_of way_size way_bytes concat datagrams continued sign same_bytes all_ids
take_datagram-refused_example =
    take_datagram-refused sum_hmac alice bob (λ i. true) 0 5 160 carol alice (bob ∷ []) 7
      (counted 50 0) hops_sent (hops_sent_next ∷ []) refl
      (record {
        small_type = omega arith;
        target_id = refl;
        hop_ids = (refl, (refl, tt));
        few_hops = omega arith;
        small_body = omega arith;
      })
      (omega arith) (omega arith) (omega arith) (omega arith)
