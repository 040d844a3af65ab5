-- ===== src/Dht/Protocol/Acknowledge/Mask.antt =====
-- The mask of an acknowledgment (libs_server/vds_dht_network/impl/dht_datagram_protocol.cpp): what is missing at the
-- receiver is what the sender sends again.
use Prim.Native.Nat.{bit_or}
use vds.Common.{
  ℕ, zero, suc, ◌+◌, ◌*◌, ◌%◌, ◌^◌, ◌≤◌, ◌<◌, ◌≡◌, refl, sym, ap, ◌∙◌, subst, arith, List, Option,
  none, some,
}
use vds.Dht.Protocol.Table.{find}
use vds.Dht.Protocol.Receive.{next_index}
use vds.Dht.Protocol.Acknowledge.{is_missing, missing_mask}
use vds.Common.Bits.{or-shift}

-- The mask as a sum: the bit of the index `last + i` is the lowest one, then those of the `n` behind it.
abbrev pub bits : List (ℕ × List ℕ) → ℕ → ℕ → ℕ → ℕ
bits input last i zero = 0
bits input last i (suc n) = is_missing input (next_index last i) + 2 * bits input last (i + 1) n

pub is_missing-le : (input : List (ℕ × List ℕ)) (index : ℕ) → is_missing input index ≤ 1
unfolding is_missing
is_missing-le input index = bit (find index input)
  where
    bit : (o : Option (List ℕ)) → elim o [ none ↦ 1 | some d ↦ 0 ] ≤ 1
    bit none = omega arith
    bit (some d) = omega arith

abbrev pub pow2 : ℕ → ℕ
pow2 zero = 1
pow2 (suc n) = 2 * pow2 n

bits-lt : (input : List (ℕ × List ℕ)) (last i n : ℕ) → bits input last i n < pow2 n
bits-lt input last i zero = omega arith
bits-lt input last i (suc n) =
    omega (arith, bits-lt input last (i + 1) n, is_missing-le input (next_index last i))

bits-snoc :
    (input : List (ℕ × List ℕ)) (last i n : ℕ)
    → bits input last i (suc n)
      ≡ bits input last i n + pow2 n * is_missing input (next_index last (i + n))
bits-snoc input last i zero =
    let e : is_missing input (next_index last (i + 0)) ≡ is_missing input (next_index last i) =
      ap (λ (j : ℕ). is_missing input (next_index last j)) (omega arith) in
    omega (arith, e)
bits-snoc input last i (suc n) =
    let b = is_missing input (next_index last i) in
    let c = is_missing input (next_index last (i + suc n)) in
    let e : is_missing input (next_index last (i + 1 + n)) ≡ c =
      ap (λ (j : ℕ). is_missing input (next_index last j)) (omega arith) in
    ap (λ (t : ℕ). b + 2 * t)
      (bits-snoc input last (i + 1) n ∙ ap (λ (t : ℕ). bits input last (i + 1) n + pow2 n * t) e)
    ∙ spread b (bits input last (i + 1) n) (pow2 n) c
  where
    spread : (b x p c : ℕ) → b + 2 * (x + p * c) ≡ b + 2 * x + 2 * p * c
    spread b x p c = omega arith

pow2-le : (i k : ℕ) → pow2 k ≤ pow2 (i + k)
pow2-le zero k = subst (λ (j : ℕ). pow2 k ≤ pow2 j) (from_0 k) (omega arith)
  where
    from_0 : (k : ℕ) → k ≡ 0 + k
    from_0 k = omega arith
pow2-le (suc i) k = subst (λ (j : ℕ). pow2 k ≤ pow2 j) (shifted i k) (omega (arith, pow2-le i k))
  where
    shifted : (i k : ℕ) → suc (i + k) ≡ suc i + k
    shifted i k = omega arith

pow2-le_word : (i k : ℕ) → i + k ≡ 32 → pow2 k ≤ 2 ^ 32
pow2-le_word i k e = subst (λ (j : ℕ). pow2 k ≤ pow2 j) e (pow2-le i k)

missing_mask-bits :
    (input : List (ℕ × List ℕ)) (last i k mask : ℕ)
    → i + k ≡ 32
    → mask < pow2 k
    → missing_mask input last i mask ≡ bits input last 1 i + pow2 i * mask
unfolding missing_mask
missing_mask-bits input last zero k mask e lt = omega arith
missing_mask-bits input last (suc i) k mask e lt =
    let b = is_missing input (next_index last (suc i)) in
    let b_le : b ≤ 1 = is_missing-le input (next_index last (suc i)) in
    let word : pow2 (suc k) ≤ 2 ^ 32 = pow2-le_word i (suc k) (omega arith) in
    let small : mask * 2 % 2 ^ 32 ≡ mask * 2 ^ 1 = omega (arith, word) in
    let added : bit_or (mask * 2 % 2 ^ 32) b ≡ 2 * mask + b =
      ap (λ (t : ℕ). bit_or t b) small ∙ or-shift 1 mask b (omega (arith, b_le)) ∙ omega arith in
    ap (missing_mask input last i) added
    ∙ missing_mask-bits input last i (suc k) (2 * mask + b) (omega arith) (omega (arith, b_le))
    ∙ gathered (bits input last 1 i) (pow2 i) mask b
    ∙ ap (λ (t : ℕ). t + 2 * pow2 i * mask)
        (ap (λ (j : ℕ). bits input last 1 i + pow2 i * is_missing input (next_index last j))
            (omega arith)
          ∙ sym (bits-snoc input last 1 i))
  where
    gathered : (x p m b : ℕ) → x + p * (2 * m + b) ≡ x + p * b + 2 * p * m
    gathered x p m b = omega arith

-- The mask that `send_acknowledgment` makes.
pub missing_mask_lem :
    (input : List (ℕ × List ℕ)) (last : ℕ)
    → (missing_mask input last 32 0 ≡ bits input last 1 32) × (bits input last 1 32 < 2 ^ 32)
missing_mask_lem input last =
    (missing_mask-bits input last 32 0 0 refl (omega arith) ∙ omega arith, bits-lt input last 1 32)
