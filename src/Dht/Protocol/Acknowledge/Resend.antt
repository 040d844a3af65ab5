-- ===== src/Dht/Protocol/Acknowledge/Resend.antt =====
-- What `process_acknowledgment` of libs_server/vds_dht_network/impl/dht_datagram_protocol.cpp sends again, for an
-- acknowledgment by `send_acknowledgment`.
use Prim.Native.Nat.{bit_or}
use vds.Common.{
  ℕ, ◌*◌, ◌/◌, ◌%◌, ◌^◌, ◌<◌, ◌≡◌, refl, ap, ◌∙◌, arith, List, ◌∷◌, Bool, true, false, ltb, ◌==◌,
  if◌then◌else◌, length, write_failed,
}
use vds.Common.Bits.{or-shift}
use vds.Dht.Protocol.{Protocol, Outcome, done, failed}
use vds.Dht.Protocol.Table.{find, Sorted}
use vds.Dht.Protocol.Send.{write_found, after_writes}
use vds.Dht.Protocol.Acknowledge.{
  missing_mask, send_acknowledgment, erase_below, resend, process_acknowledgment,
}
use vds.Dht.Protocol.Acknowledge.Mask.{bits, missing_mask_lem}
use vds.Dht.Channel.Header.{read32-be32}
use vds.Dht.Protocol.Acknowledge.Missing.{
  not_below, missing_behind, entries_at, written_until, erase_below-not_below,
  write_found-with_entry, resend-missing_behind,
}

-- The sender after an acknowledgment that says that everything below `last` has come, before it writes.
abbrev pub released : Protocol → ℕ → Protocol
released q last =
    let output = not_below last q.output_messages in
    record q {
      output_messages = output;
      last_sent = if length output == length q.output_messages then q.last_sent else 0;
    }

-- Where all was written, datagrams of up to `mtu` bytes are known to arrive.
abbrev pub answered : Bool → Protocol → ℕ → Outcome
answered true q mtu = done (record q { mtu = if ltb q.mtu mtu then mtu else q.mtu })
answered false q mtu = failed write_failed q

-- An acknowledgment is read as it was written. The sender, whose queue is in the order of its keys, drops
-- every datagram below the index that the receiver waits for, and keeps the others. It sends again what it
-- has at that index and, of the 32 indices behind it, at exactly those that the receiver does not have, in
-- this order, up to the first write that fails. Where none fails, it raises its MTU to the size of the largest
-- datagram that has arrived; otherwise it returns the error of the write, and the MTU stays. The time
-- without an answer starts again where a datagram was dropped. The receiver's index is below 2 ^ 32, and its
-- largest datagram has less than 2 ^ 16 bytes.
pub process_acknowledgment-send_acknowledgment :
    (writes : ℕ → Bool) (p q : Protocol)
    → p.last_input_index < 2 ^ 32
    → p.input_mtu < 2 ^ 16
    → Sorted q.output_messages
    → process_acknowledgment writes q (send_acknowledgment p) ≡ (
      answered
          (written_until writes (
            entries_at
              (p.last_input_index ∷ missing_behind p.input_messages p.last_input_index 0 32)
              (not_below p.last_input_index q.output_messages))).1
          (released q p.last_input_index)
          p.input_mtu,
      (written_until writes (
          entries_at
            (p.last_input_index ∷ missing_behind p.input_messages p.last_input_index 0 32)
            (not_below p.last_input_index q.output_messages))).0,
    )
unfolding process_acknowledgment send_acknowledgment
process_acknowledgment-send_acknowledgment writes p q small narrow sorted =
    let last = p.last_input_index in
    let mask = missing_mask_lem p.input_messages last in
    let m = missing_mask p.input_messages last 32 0 in
    let mtu_read : bit_or (p.input_mtu / 2 ^ 8 % 2 ^ 8 * 2 ^ 8) (p.input_mtu % 2 ^ 8)
        ≡ p.input_mtu =
      or-shift 8 (p.input_mtu / 2 ^ 8 % 2 ^ 8) (p.input_mtu % 2 ^ 8) (omega arith) ∙ omega arith in
    read_all (read32-be32 last small) (read32-be32 m (omega (arith, mask.0, mask.1))) mtu_read
    ∙ ap
        (λ (output : List (ℕ × List ℕ)).
          answer output
            (write_found writes last (find last output) (resend writes output last 32 0 m))
            p.input_mtu)
        (erase_below-not_below last q.output_messages sorted)
    ∙ ap (λ (sent : List (List ℕ) × Bool). answer (output last) sent p.input_mtu)
        (sent_all m last (ap (resend writes (output last) last 32 0) mask.0))
    ∙ ends _ p.input_mtu
  where
    answer : List (ℕ × List ℕ) → List (List ℕ) × Bool → ℕ → Outcome × List (List ℕ)
    answer output sent mtu =
        let r = record q {
          output_messages = output;
          last_sent = if length output == length q.output_messages then q.last_sent else 0;
        } in
        (after_writes sent.1 r (record r { mtu = if ltb q.mtu mtu then mtu else q.mtu }), sent.0)

    output : ℕ → List (ℕ × List ℕ)
    output last = not_below last q.output_messages

    full : ℕ → ℕ → ℕ → Outcome × List (List ℕ)
    full last mask mtu =
        let output = erase_below last q.output_messages in
        answer output
          (write_found writes last (find last output) (resend writes output last 32 0 mask)) mtu

    read_all :
        {last last' mask mask' mtu mtu' : ℕ}
        → last' ≡ last
        → mask' ≡ mask
        → mtu' ≡ mtu
        → full last' mask' mtu' ≡ full last mask mtu
    read_all a b c i = full (a i) (b i) (c i)

    sent_all :
        (m last : ℕ)
        → resend writes (output last) last 32 0 m
          ≡ resend writes (output last) last 32 0 (bits p.input_messages last 1 32)
        → write_found writes last
            (find last (output last))
            (resend writes (output last) last 32 0 m)
          ≡ written_until writes
              (entries_at (last ∷ missing_behind p.input_messages last 0 32) (output last))
    sent_all m last e =
        ap (write_found writes last (find last (output last)))
          (e ∙ resend-missing_behind writes p.input_messages (output last) last 32 0)
        ∙ write_found-with_entry writes last (find last (output last))
            (entries_at (missing_behind p.input_messages last 0 32) (output last))

    ends :
        (sent : List (List ℕ) × Bool) (mtu : ℕ)
        → answer (output p.last_input_index) sent mtu
          ≡ (answered sent.1 (released q p.last_input_index) mtu, sent.0)
    ends (ds, true) mtu = refl
    ends (ds, false) mtu = refl
