-- ===== src/Dht/Channel/Sending/Examples.antt =====
-- A test of a sender: a short message, an acknowledgment that asks for it again, and a longer one.
use vds.Common.{ℕ, ◌+◌, ◌^◌, ◌<◌, ◌≡◌, refl, arith, List, [], ◌∷◌, some, length, true, false, ◌⊎◌}
use vds.Dht.Route.Bucket.{same_bytes}
use vds.Dht.Protocol.{Protocol, sign, read32}
use vds.Dht.Protocol.Table.{find, emplace}
use vds.Dht.Protocol.Send.{
  way_of, way_size, way_bytes, datagrams, queue, sent_from, prepare_to_send, send_message_async,
}
use vds.Dht.Protocol.Acknowledge.{opened, erase_below, resend, process_acknowledgment}
use vds.Dht.Channel.{Outgoing, all_datagrams}
use vds.Dht.Channel.Sending.{Sends, begins, sends, breaks, hears, loses}
use vds.Dht.Channel.Sending.Repeats.{Repeats}
use vds.Dht.Channel.Sending.Account.{IsBounded}
use vds.Dht.Channel.Sending.Written.{Sends-all_datagrams}
use vds.Dht.Channel.Delivery.Examples.{counted, signed, sum_hmac, alice, bob}

abbrev pub short_message : Outgoing
short_message = record { message_type = 5; target_node = bob; hops = []; body = 1 ∷ 2 ∷ 3 ∷ [] }

abbrev pub next_message : Outgoing
next_message = record { message_type = 7; target_node = bob; hops = []; body = counted 30 0 }

abbrev pub first_bytes : List ℕ
first_bytes = signed (37 ∷ 0 ∷ 0 ∷ 0 ∷ 0 ∷ 1 ∷ 2 ∷ 3 ∷ [])

abbrev pub next_bytes : List ℕ
next_bytes = signed (39 ∷ 0 ∷ 0 ∷ 0 ∷ 1 ∷ counted 30 0)

-- Nothing has come yet, and datagrams of up to 1000 bytes arrive.
abbrev pub nothing_yet : List ℕ
nothing_yet = 7 ∷ 0 ∷ 0 ∷ 0 ∷ 0 ∷ 255 ∷ 255 ∷ 255 ∷ 255 ∷ 3 ∷ 232 ∷ []

abbrev pub one_sent : Protocol
one_sent = record (opened alice bob 0) {
  last_output_index = 1;
  output_messages = (0, first_bytes) ∷ [];
}

abbrev pub one_heard : Protocol
one_heard = record one_sent { mtu = 1000 }

abbrev pub two_sent : Protocol
two_sent = record one_heard {
  last_output_index = 2;
  output_messages = (0, first_bytes) ∷ (1, next_bytes) ∷ [];
}

pub two_calls :
    Sends sum_hmac alice bob two_sent
      ((508, short_message) ∷ (1000, next_message) ∷ [])
      (first_bytes ∷ next_bytes ∷ [])
      (first_bytes ∷ [])
      true
unfolding send_message_async prepare_to_send datagrams queue sent_from way_of way_size way_bytes
    sign same_bytes find emplace process_acknowledgment erase_below resend read32
two_calls =
    sends one_heard two_sent ((508, short_message) ∷ []) (first_bytes ∷ []) (first_bytes ∷ [])
      (next_bytes ∷ []) true next_message (λ i. true)
      (hears one_sent one_heard ((508, short_message) ∷ []) (first_bytes ∷ []) [] (first_bytes ∷ [])
        true nothing_yet (λ i. true)
        (sends (opened alice bob 0) one_sent [] [] [] (first_bytes ∷ []) true short_message
          (λ i. true) (begins 0) refl)
        refl)
      refl

-- The writes for the acknowledgment and for the second message fail: the MTU stays.
broken_call :
    Sends sum_hmac alice bob
      (record two_sent { mtu = 508 })
      ((508, short_message) ∷ (508, next_message) ∷ [])
      (first_bytes ∷ [])
      []
      false
unfolding send_message_async prepare_to_send datagrams queue sent_from way_of way_size way_bytes
    sign same_bytes find emplace process_acknowledgment erase_below resend read32
broken_call =
    breaks one_sent (record two_sent { mtu = 508 }) ((508, short_message) ∷ []) (first_bytes ∷ [])
      [] [] true next_message (λ i. false)
      (loses one_sent one_sent ((508, short_message) ∷ []) (first_bytes ∷ []) [] [] true nothing_yet
        (λ i. false)
        (sends (opened alice bob 0) one_sent [] [] [] (first_bytes ∷ []) true short_message
          (λ i. true) (begins 0) refl)
        refl)
      refl

pub IsBounded-body :
    (mtu t : ℕ) (body : List ℕ)
    → t < 32
    → 2 + length body < 2 ^ 32
    → IsBounded (mtu, record { message_type = t; target_node = bob; hops = []; body = body })
IsBounded-body mtu t body small short = (
  record {
    small_type = small;
    target_id = refl;
    hop_ids = tt;
    few_hops = omega arith;
    small_body = omega arith;
  },
  short,
)

Sends-all_datagrams_example :
    (ds : List (List ℕ)) × (all_datagrams sum_hmac bob 0
        ((508, short_message) ∷ (1000, next_message) ∷ [])
      ≡ some ds)
    × (length ds < 2 ^ 32)
    × Repeats ds (first_bytes ∷ next_bytes ∷ [])
    × Repeats ds (first_bytes ∷ [])
    × ((true ≡ false) ⊎ (first_bytes ∷ next_bytes ∷ [] ≡ ds))
Sends-all_datagrams_example = Sends-all_datagrams two_calls (
  IsBounded-body 508 5 (1 ∷ 2 ∷ 3 ∷ []) (omega arith) (omega arith),
  (IsBounded-body 1000 7 (counted 30 0) (omega arith) (omega arith), tt),
)
