-- ===== src/Dht/Channel/Bounds/Examples.antt =====
-- A test of the datagrams of a message that is split.
use vds.Common.{refl, arith, [], ◌∷◌}
use vds.Dht.Route.Bucket.{same_bytes}
use vds.Dht.Protocol.{sign}
use vds.Dht.Protocol.Send.{way_of, way_size, way_bytes, datagrams, continued, all_ids}
use vds.Dht.Channel.Bounds.{FitsMtu, datagrams_of-FitsMtu}
use vds.Dht.Channel.Delivery.Examples.{counted, signed, sum_hmac, bob}

datagrams_of-FitsMtu_example : FitsMtu 60 32 (
    signed (71 ∷ 0 ∷ 0 ∷ 0 ∷ 1 ∷ 0 ∷ 0 ∷ 0 ∷ 30 ∷ counted 19 0)
    ∷ signed (3 ∷ 0 ∷ 0 ∷ 0 ∷ 2 ∷ counted 11 19)
    ∷ [])
unfolding way_of way_size way_bytes datagrams continued sign same_bytes all_ids
datagrams_of-FitsMtu_example =
    datagrams_of-FitsMtu sum_hmac bob 60 1
      (record { message_type = 7; target_node = bob; hops = []; body = counted 30 0 }) _ refl
      (record {
        small_type = omega arith;
        target_id = refl;
        hop_ids = tt;
        few_hops = omega arith;
        small_body = omega arith;
      })
