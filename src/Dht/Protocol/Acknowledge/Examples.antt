-- ===== src/Dht/Protocol/Acknowledge/Examples.antt =====
-- A test of an acknowledgment: the receiver has the datagrams 0 and 2, the sender still has 0 to 3.
use vds.Common.{◌≡◌, refl, arith, true, [], ◌∷◌, ltb, write_failed}
use vds.Dht.Protocol.{Protocol, done, failed, read32}
use vds.Dht.Protocol.Table.{find}
use vds.Dht.Protocol.Acknowledge.{
  opened, is_missing, missing_mask, send_acknowledgment, process_acknowledgment, erase_below,
  resend,
}
use vds.Dht.Protocol.Acknowledge.Resend.{process_acknowledgment-send_acknowledgment}

abbrev receiver : Protocol
receiver = record (opened (1 ∷ []) (2 ∷ []) 0) {
  input_mtu = 1200;
  last_input_index = 1;
  expected_index = 1;
  input_messages = (0, 10 ∷ []) ∷ (2, 12 ∷ []) ∷ [];
}

abbrev sender : Protocol
sender = record (opened (2 ∷ []) (1 ∷ []) 0) {
  last_sent = 5;
  last_output_index = 4;
  output_messages = (0, 10 ∷ []) ∷ (1, 11 ∷ []) ∷ (2, 12 ∷ []) ∷ (3, 13 ∷ []) ∷ [];
}

abbrev sender_after : Protocol
sender_after = record sender {
  last_sent = 0;
  output_messages = (1, 11 ∷ []) ∷ (2, 12 ∷ []) ∷ (3, 13 ∷ []) ∷ [];
}

process_acknowledgment-send_acknowledgment_example :
    process_acknowledgment (λ i. true) sender (send_acknowledgment receiver)
    ≡ (done (record sender_after { mtu = 1200 }), (11 ∷ []) ∷ (13 ∷ []) ∷ [])
unfolding find
process_acknowledgment-send_acknowledgment_example =
    process_acknowledgment-send_acknowledgment (λ i. true) receiver sender (omega arith)
      (omega arith) (omega arith, (omega arith, (omega arith, tt)))

-- The write at the index 3 fails.
failing_write :
    process_acknowledgment (λ i. ltb i 3) sender (send_acknowledgment receiver)
    ≡ (failed write_failed sender_after, (11 ∷ []) ∷ [])
unfolding find erase_below resend is_missing missing_mask send_acknowledgment process_acknowledgment
    read32
failing_write = refl
