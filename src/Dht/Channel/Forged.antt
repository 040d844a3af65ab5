-- ===== src/Dht/Channel/Forged.antt =====
-- `process_datagram` of libs_server/vds_dht_network/impl/dht_datagram_protocol.cpp on what the partner has not sent.
pub mod Examples
use vds.Common.{
  ℕ, ◌-◌, ◌<◌, ◌≡◌, ◌≢◌, refl, arith, List, Bool, true, false, not, ltb, ◌==◌, if◌then◌else◌,
  length, take, drop, get_or, ◌⊎◌, inl, inr, invalid_data, in_failed_state, send_timeout,
  invalid_signature,
}
use vds.Dht.Protocol.{Hmac, Protocol, Outcome, done, failed, mtu_test, acknowledgment}
use vds.Dht.Protocol.Receive.{is_data, accept, send_limit, process_datagram}
use vds.Dht.Channel.Arrivals.{Foreign, Same, KeptOut}

module _ (h : Hmac) (now : ℕ) (p : Protocol) (d : List ℕ) where
  Same-of : (more : Bool) → Same p d (if more then record p { input_mtu = length d } else p)
  Same-of true = inr refl
  Same-of false = inl refl

  kept_out :
      (q : Protocol) (stop sent test ack short verified known : Bool) (acked : Outcome)
      → Same p d q
      → (get_or d 0 0 == mtu_test) ≡ test
      → ack ≡ false
      → (test ≡ true) ⊎ (short ≡ true) ⊎ (verified ≡ false)
      → KeptOut p d (
          if stop
          then failed in_failed_state p
          else (if sent
              then failed send_timeout p
              else (if test
                  then done q
                  else (if ack
                      then acked
                      else (if short
                          then failed invalid_data q
                          else (if not verified
                              then failed invalid_signature q
                              else (if not known
                                  then failed invalid_data q
                                  else accept now q d)))))))
  kept_out q true sent test ack short verified known acked s e ea no_pass = inl refl
  kept_out q false true test ack short verified known acked s e ea no_pass = inl refl
  kept_out q false false true ack short verified known acked s e ea no_pass =
      (code (get_or d 0 0) e, s)
    where
      code : (n : ℕ) → (n == mtu_test) ≡ true → n ≡ mtu_test
      code n h = ground arith
  kept_out q false false false true short verified known acked s e ea no_pass = cc
  kept_out q false false false false true verified known acked s e ea no_pass = s
  kept_out q false false false false false false known acked s e ea no_pass = s
  kept_out q false false false false false true known acked s e ea (inl t) = cc
  kept_out q false false false false false true known acked s e ea (inr (inl t)) = cc
  kept_out q false false false false false true known acked s e ea (inr (inr t)) = cc

  -- Bytes that are no acknowledgment and carry no signature by the session key change nothing but the size of
  -- the largest datagram: nothing is kept, nothing is handed on. They are an error, which makes the caller end
  -- the session, unless they are a test of the path's MTU.
  pub process_datagram-Foreign :
      (a : Protocol → List ℕ → Outcome) → Foreign h d → KeptOut p d (process_datagram h a now p d)
  unfolding process_datagram
  process_datagram-Foreign a (some_byte, not_ack, no_pass) =
      let empty : (length d == 0) ≡ false = nonempty (length d) some_byte in
      rw (empty) (
        kept_out (if ltb p.input_mtu (length d) then record p { input_mtu = length d } else p)
          p.failed_state (ltb send_limit p.last_sent) (get_or d 0 0 == mtu_test)
          (get_or d 0 0 == acknowledgment) (ltb (length d) 33)
          (h.verify (take (length d - 32) d) (drop (length d - 32) d)) (is_data (get_or d 0 0)) _
          (Same-of (ltb p.input_mtu (length d))) refl (differs (get_or d 0 0) not_ack)
          (tests no_pass))
    where
      nonempty : (n : ℕ) → 0 < n → (n == 0) ≡ false
      nonempty n lt = ground arith

      differs : (n : ℕ) → n ≢ acknowledgment → (n == acknowledgment) ≡ false
      differs n ne = ground arith

      test_code : (n : ℕ) → n ≡ mtu_test → (n == mtu_test) ≡ true
      test_code n e = ground arith

      is_short : (n : ℕ) → n < 33 → ltb n 33 ≡ true
      is_short n lt = ground arith

      tests :
          (get_or d 0 0 ≡ mtu_test)
            ⊎ (length d < 33)
            ⊎ (h.verify (take (length d - 32) d) (drop (length d - 32) d) ≡ false)
          → ((get_or d 0 0 == mtu_test) ≡ true)
            ⊎ (ltb (length d) 33 ≡ true)
            ⊎ (h.verify (take (length d - 32) d) (drop (length d - 32) d) ≡ false)
      tests (inl e) = inl (test_code (get_or d 0 0) e)
      tests (inr (inl lt)) = inr (inl (is_short (length d) lt))
      tests (inr (inr v)) = inr (inr v)
