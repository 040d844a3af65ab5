-- ===== src/Dht/Channel/Delivery/Examples.antt =====
-- Tests of a session: a short message, and one in two datagrams.
use vds.Common.{
  ℕ, zero, suc, ◌+◌, ◌%◌, ◌^◌, ◌<◌, ◌≡◌, refl, arith, List, [], ◌∷◌, ◌++◌, some, true, false,
  length, get_elem?, All, inl, inr,
}
use mathlib.Core.Option.{some-injective}
use vds.Dht.Route.Bucket.{same_bytes}
use vds.Dht.Protocol.{Hmac, sign}
use vds.Dht.Protocol.Acknowledge.{opened, receive}
use vds.Dht.Channel.{Outgoing, IsSendable, all_datagrams}
use vds.Dht.Protocol.Send.{way_of, way_size, way_bytes, concat, datagrams, continued, all_ids}
use vds.Dht.Channel.InStep.{Proper}
use vds.Dht.Channel.Delivery.{InOrder, receive-InOrder}
use vds.Dht.Channel.Delivery.Running.{Among}
use vds.Dht.Channel.Delivery.Complete.{Delivers, receive-Delivers}

-- Bytes that a number is counted up for, and a sum of bytes in place of an HMAC.
abbrev pub counted : ℕ → ℕ → List ℕ
counted zero b = []
counted (suc n) b = b ∷ counted n (b + 1)

abbrev pub total : List ℕ → ℕ
total [] = 0
total (b ∷ bytes) = b + total bytes

abbrev pub summed : List ℕ → List ℕ
summed bytes = total bytes % 256 ∷ counted 31 0

pub same_bytes_refl : (bytes : List ℕ) → same_bytes bytes bytes ≡ true
unfolding same_bytes
same_bytes_refl [] = refl
same_bytes_refl (b ∷ bytes) = ground (arith, same_bytes_refl bytes)

abbrev pub sum_hmac : Hmac
sum_hmac = record {
  signature = summed;
  verify = λ bytes s. same_bytes s (summed bytes);
  length-signature = λ bytes. refl;
  verify-signature = λ bytes. same_bytes_refl (summed bytes);
}

abbrev pub alice : List ℕ
alice = counted 32 0

abbrev pub bob : List ℕ
bob = counted 32 100

abbrev pub short_call : ℕ × Outgoing
short_call = (508, record { message_type = 5; target_node = bob; hops = []; body = 1 ∷ 2 ∷ 3 ∷ [] })

abbrev pub long_call : ℕ × Outgoing
long_call = (60, record { message_type = 7; target_node = bob; hops = []; body = counted 30 0 })

abbrev pub signed : List ℕ → List ℕ
signed bytes = bytes ++ summed bytes

abbrev first_sent : List ℕ
first_sent = signed (37 ∷ 0 ∷ 0 ∷ 0 ∷ 0 ∷ 1 ∷ 2 ∷ 3 ∷ [])

abbrev second_sent : List ℕ
second_sent = signed (71 ∷ 0 ∷ 0 ∷ 0 ∷ 1 ∷ 0 ∷ 0 ∷ 0 ∷ 30 ∷ counted 19 0)

abbrev third_sent : List ℕ
third_sent = signed (3 ∷ 0 ∷ 0 ∷ 0 ∷ 2 ∷ counted 11 19)

abbrev both_calls : List (ℕ × Outgoing)
both_calls = short_call ∷ long_call ∷ []

abbrev all_sent : List (List ℕ)
all_sent = first_sent ∷ second_sent ∷ third_sent ∷ []

both_calls-all_sent : all_datagrams sum_hmac bob 0 both_calls ≡ some all_sent
unfolding all_datagrams way_of way_size way_bytes concat datagrams continued sign same_bytes all_ids
both_calls-all_sent = refl

both_calls-Proper : All (Proper bob) both_calls
unfolding way_of same_bytes way_size
both_calls-Proper = (
  (sendable 5 (1 ∷ 2 ∷ 3 ∷ []) (omega arith) (omega arith), omega arith, inl (omega arith)),
  ((sendable 7 (counted 30 0) (omega arith) (omega arith), omega arith, inr (omega arith)), tt),
)
  where
    sendable :
        (t : ℕ) (body : List ℕ)
        → t < 32
        → length body < 2 ^ 32
        → IsSendable (record { message_type = t; target_node = bob; hops = []; body = body })
    sendable t body small short = record {
      small_type = small;
      target_id = refl;
      hop_ids = tt;
      few_hops = omega arith;
      small_body = short;
    }

-- The last datagram comes first and the first one twice; then something is forged, and the second one is lost.
abbrev disturbed : List (ℕ × List ℕ)
disturbed = (1, third_sent) ∷ (2, first_sent) ∷ (3, first_sent) ∷ (900, counted 40 0) ∷ []

receive-InOrder_example :
    InOrder sum_hmac alice bob both_calls all_sent
      (receive sum_hmac (λ t i. false) disturbed (opened bob alice 0))
unfolding same_bytes
receive-InOrder_example =
    receive-InOrder sum_hmac alice bob both_calls all_sent both_calls-Proper (omega arith)
      both_calls-all_sent (λ t i. false) 0 disturbed
      (
        inl (2, refl),
        (
          inl (0, refl),
          (inl (0, refl), (inr (inr (omega arith, omega arith, inr (inr refl))), tt)),
        ),
      )

-- The datagrams in the wrong order, the first one twice.
abbrev reordered : List (ℕ × List ℕ)
reordered = (1, third_sent) ∷ (2, first_sent) ∷ (3, first_sent) ∷ (4, second_sent) ∷ []

all_arrive : (k : ℕ) (d : List ℕ) → get_elem? all_sent k ≡ some d → Among d reordered
all_arrive zero d e = inr (inl (some-injective first_sent d e))
all_arrive (suc zero) d e = inr (inr (inr (inl (some-injective second_sent d e))))
all_arrive (suc (suc zero)) d e = inl (some-injective third_sent d e)
all_arrive (suc (suc (suc k))) d e = cc

receive-Delivers_example :
    Delivers sum_hmac alice bob both_calls all_sent 0
      (receive sum_hmac (λ t i. false) reordered (opened bob alice 0))
receive-Delivers_example =
    receive-Delivers sum_hmac alice bob both_calls all_sent 0 both_calls-Proper (omega arith)
      both_calls-all_sent (λ t i. false) reordered
      (
        (omega arith, omega arith, inl (2, refl)),
        (
          (omega arith, omega arith, inl (0, refl)),
          (
            (omega arith, omega arith, inl (0, refl)),
            ((omega arith, omega arith, inl (1, refl)), tt),
          ),
        ),
      )
      all_arrive
