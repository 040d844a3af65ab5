-- ===== src/Dht/ObjectId/RandomId.antt =====
-- `generate_random_id` of libs_server/vds_dht_network/include/dht_object_id.h: an id for a bucket.
use Prim.Native.Nat.{bit_xor, bit_and}
use vds.Common.Bits.{xor_assoc, xor_cancel, xor-lt, xor_self}
use vds.Common.{
  ℕ, zero, suc, ◌+◌, ◌-◌, ◌*◌, ◌/◌, ◌%◌, ◌^◌, ◌<◌, ◌≡◌, refl, ap, ◌∙◌, arith, List, [], ◌∷◌, ltb,
  ◌==◌, length, All, Bool, true, false, ◌&&◌, not, passes_below, passes_below→passes,
}
use vds.Dht.ObjectId.{mask_loop, exp_loop, distance_exp, flip_byte, flip_at, generate_random_id}
use vds.Dht.ObjectId.Metric.{IsByte}
use vds.Dht.ObjectId.Exponent.{zeros, mask_loop-add}

-- What is flipped at `bit` with the random byte `r`.
abbrev flipped : ℕ → ℕ → ℕ
flipped bit r = bit_xor (0x80 / 2 ^ bit) (bit_and (0x80 / 2 ^ bit - 1) r)

abbrev flipped_test : ℕ → ℕ → Bool
flipped_test r bit =
    zeros (flipped bit r) == bit
    && not (flipped bit r == 0)
    && ltb (0x80 / 2 ^ bit) 256
    && ltb (bit_and (0x80 / 2 ^ bit - 1) r) 256

flipped_facts : (bit r : ℕ) → bit < 8 → r < 256 → flipped_test r bit ≡ true
flipped_facts bit r hb hr =
    passes_below→passes (flipped_test r) 8
      (passes_below→passes (λ r. passes_below (flipped_test r) 8) 256
        (unfold passes_below zeros mask_loop in refl) r hr)
      bit hb

module _ (random : ℕ → ℕ) where
  xor-flip_byte :
      (b bit : ℕ)
      → b < 256
      → bit < 8
      → (zeros (bit_xor b (flip_byte random b bit)) ≡ bit)
        × ((bit_xor b (flip_byte random b bit) == 0) ≡ false)
  unfolding flip_byte
  xor-flip_byte b bit hb h =
      let m = 0x80 / 2 ^ bit in
      let low = bit_and (m - 1) (random 0 % 2 ^ 8) in
      let facts = flipped_facts bit (random 0 % 2 ^ 8) h (omega arith) in
      let m_small : m < 2 ^ 8 = ground (arith, facts) in
      let low_small : low < 2 ^ 8 = ground (arith, facts) in
      let e : bit_xor b (bit_xor (bit_xor b m) low) ≡ bit_xor m low =
        ap (bit_xor b) (xor_assoc 8 b m low hb m_small low_small)
        ∙ xor_cancel 8 b (bit_xor m low) hb (xor-lt 8 m low m_small low_small) in
      rw e (ground (arith, facts), ground (arith, facts))

  exp_loop-flip_at :
      (i at bit : ℕ) (bs : List ℕ)
      → All IsByte bs
      → bit < 8
      → at < length bs
      → exp_loop i bs (flip_at random at bit bs) ≡ (i + at) * 8 + bit
  unfolding exp_loop flip_at zeros
  exp_loop-flip_at i at bit [] hs hb h = absurd (omega arith)
  exp_loop-flip_at i zero bit (b ∷ bs) hs hb h =
      let (place, some_bit) = xor-flip_byte b bit hs.0 hb in
      rw some_bit (
        mask_loop-add 8 (bit_xor b (flip_byte random b bit)) 0x80 (i * 2 ^ 3)
        ∙ omega (arith, place))
  exp_loop-flip_at i (suc at) bit (b ∷ bs) hs hb h =
      rw (xor_self b) (exp_loop-flip_at (suc i) at bit bs hs.1 hb (omega arith) ∙ omega arith)

  -- The generated id lies in the bucket that was asked for, whatever the random values: the assertion
  -- at the end of `generate_random_id` always holds.
  pub distance_exp-generate_random_id :
      (original : List ℕ) (exp_index : ℕ)
      → All IsByte original
      → exp_index < 8 * length original
      → distance_exp original (generate_random_id random original exp_index) ≡ exp_index
  unfolding distance_exp generate_random_id
  distance_exp-generate_random_id original exp_index hs h =
      exp_loop-flip_at 0 (exp_index / 8) (exp_index % 8) original hs (omega arith) (omega arith)
      ∙ omega arith
