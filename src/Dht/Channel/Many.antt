-- ===== src/Dht/Channel/Many.antt =====
-- `step_at` of the receiver (libs_server/vds_dht_network/impl/dht_datagram_protocol.cpp) on the first datagram of
-- a message that is split.
use Prim.Native.Nat.{bit_or, bit_and}
use vds.Common.{
  ℕ, suc, ◌+◌, ◌-◌, ◌*◌, ◌%◌, ◌^◌, ◌<◌, ◌≡◌, refl, sym, ap, ◌∙◌, arith, List, [], ◌∷◌, ◌++◌, false,
  leb, length, length-append, take, get_or, All,
}
use mathlib.Core.List.{append_assoc}
use vds.Dht.Protocol.{Hmac, Protocol, be32, sign}
use vds.Dht.Protocol.Receive.{Step, delivers, step_at, many_at, payload, next_index}
use vds.Dht.Protocol.Send.{Way, direct, routed, proxied, many_code, way_bytes, way_size}
use vds.Dht.Channel.Header.{IsId, many_kind, length-sign, payload-sign, take_at}
use vds.Dht.Channel.Parts.{ReadAs, proxied_read, length-way_bytes}
use vds.Dht.Protocol.{route_data, proxy_data}
use vds.Dht.Protocol.Receive.{gather, gather_from, too_small}
use vds.Dht.Protocol.Send.{first_many}
use vds.Dht.Channel.Header.{read32-be32}
use vds.Dht.Channel.Single.{step_at_many}

-- The message that a datagram in the way is read as.
abbrev pub taken : Protocol → ℕ → List ℕ → List (List ℕ) → List ℕ → ℕ → Step
taken p t target hops message k =
    delivers
      (record {
        message_type = t;
        target_node = target;
        hops = p.partner_node_id ∷ hops;
        body = message;
      })
      (next_index p.expected_index k)

payload-first_many :
    (h : Hmac) (index t size : ℕ) (way : Way) (target : List ℕ) (hops : List (List ℕ))
    (piece : List ℕ) (n : ℕ)
    → length (way_bytes way target hops) + 9 ≡ n
    → payload n (first_many h index t size way target hops piece) ≡ piece
payload-first_many h index t size way target hops piece n e =
    let pre = bit_or (many_code way) t ∷ (be32 index ++ (be32 size ++ way_bytes way target hops)) in
    ap (λ (k : ℕ). payload k (sign h (pre ++ piece))) (sym e ∙ omega arith)
    ∙ payload-sign h pre piece

pub length-first_many :
    (h : Hmac) (index t size : ℕ) (way : Way) (target : List ℕ) (hops : List (List ℕ))
    (piece : List ℕ)
    → length (first_many h index t size way target hops piece)
      ≡ 41 + length (way_bytes way target hops) + length piece
length-first_many h index t size way target hops piece = omega (
  arith,
  length-sign h (
      bit_or (many_code way) t
      ∷ (be32 index ++ (be32 size ++ (way_bytes way target hops ++ piece)))),
  length-append (way_bytes way target hops) piece,
)

-- The rest of a message is gathered behind the first piece of it.
gather_from-piece :
    (p : Protocol) (code t : ℕ) (target : List ℕ) (hops : List (List ℕ)) (size : ℕ)
    (d piece : List ℕ) (offset : ℕ)
    → bit_and code 0b00011111 ≡ t
    → payload offset d ≡ piece
    → length d - offset - 32 ≡ length piece
    → length piece < size
    → size < 2 ^ 32
    → gather_from p code target hops size d offset
      ≡ gather
          (taken p t target hops)
          p.input_messages
          p.expected_index
          (suc (size - length piece))
          1
          (size - length piece)
          piece
unfolding gather_from
gather_from-piece p code t target hops size d piece offset et ep en lt small =
    let left : (size + 2 ^ 64 - (length d - offset - 32)) % 2 ^ 64 ≡ size - length piece =
      omega (arith, en) in
    rw (left) (rw (et, ep) refl)

pub many_at-first_many :
    (p : Protocol) (h : Hmac) (index t size : ℕ) (way : Way) (target : List ℕ)
    (hops : List (List ℕ)) (piece : List ℕ)
    → t < 32
    → IsId target
    → All IsId hops
    → length hops < 256
    → ReadAs way p.this_node_id target hops
    → 0 < length piece
    → length piece < size
    → length (first_many h index t size way target hops piece) < size + 106
    → size < 2 ^ 32
    → step_at p (first_many h index t size way target hops piece)
      ≡ gather
          (taken p t target hops)
          p.input_messages
          p.expected_index
          (suc (size - length piece))
          1
          (size - length piece)
          piece
unfolding many_at sign way_bytes way_size
many_at-first_many p h index t size direct target hops piece ht it ih few as_read some_bytes lt
      readable small =
    let d = first_many h index t size direct target hops piece in
    let kind = many_kind direct t ht in
    let n = length-first_many h index t size direct target hops piece in
    let checked : too_small size (length d) 41 ≡ false = ground (arith, n) in
    let long : leb (length d) 41 ≡ false = ground (arith, n) in
    step_at_many p d direct kind.0
    ∙ rw (kind.0) (
        rw (read32-be32 size small) (
          rw (checked) (
            rw (long) (
              gather_from-piece p (get_or d 0 0) t p.this_node_id [] size d piece 9 kind.1
                (payload-first_many h index t size direct target hops piece 9 refl)
                (omega (arith, n)) lt small
              ∙ rw (as_read.0, as_read.1) refl))))
many_at-first_many p h index t size routed target hops piece ht it ih few as_read some_bytes lt
      readable small =
    let d = first_many h index t size routed target hops piece in
    let sig =
      h.signature (bit_or route_data t ∷ (be32 index ++ (be32 size ++ (target ++ piece)))) in
    let kind = many_kind routed t ht in
    let n = length-first_many h index t size routed target hops piece in
    let checked : too_small size (length d) 73 ≡ false = ground (arith, n, it) in
    let long : leb (length d) 73 ≡ false = ground (arith, n, it) in
    let to : take 32 ((target ++ piece) ++ sig) ≡ target =
      ap (λ (ys : List ℕ). take 32 ys) (append_assoc target piece sig)
      ∙ take_at 32 target (piece ++ sig) it in
    step_at_many p d routed kind.0
    ∙ rw (kind.0) (
        rw (read32-be32 size small) (
          rw (checked) (
            rw (long) (
              rw (to) (
                gather_from-piece p (get_or d 0 0) t target [] size d piece 41 kind.1
                  (payload-first_many h index t size routed target hops piece 41
                    (omega (arith, it)))
                  (omega (arith, n, it)) lt small
                ∙ rw (as_read) refl)))))
many_at-first_many p h index t size proxied target hops piece ht it ih few as_read some_bytes lt
      readable small =
    let d = first_many h index t size proxied target hops piece in
    let bytes = be32 index ++ (be32 size ++ (way_bytes proxied target hops ++ piece)) in
    let kind = many_kind proxied t ht in
    let read =
      proxied_read target hops piece (h.signature (bit_or proxy_data t ∷ bytes)) it ih few in
    let w = length-way_bytes proxied target hops it ih in
    let n = length-first_many h index t size proxied target hops piece in
    let checked : too_small size (length d) 106 ≡ false = ground (arith, n, w) in
    let long' : leb (length d) (1 + 4 + 4 + 32 + 1 + 32 * length hops + 32) ≡ false =
      ground (arith, n, w) in
    step_at_many p d proxied kind.0
    ∙ rw (kind.0) (
        rw (read32-be32 size small) (
          rw (checked) (
            rw (read.count_read) (
              rw (long') (
                rw (read.target_read, read.hops_read)
                  (gather_from-piece p (get_or d 0 0) t target hops size d piece
                    (42 + length hops * 32) kind.1
                    (payload-first_many h index t size proxied target hops piece
                      (42 + length hops * 32) (omega (arith, w)))
                    (omega (arith, n, w)) lt small))))))
