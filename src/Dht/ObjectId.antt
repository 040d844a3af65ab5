-- ===== src/Dht/ObjectId.antt =====
-- libs_server/vds_dht_network/include/dht_object_id.h: the XOR metric of node ids. An id is the list
-- of its bytes.
pub mod Metric
pub mod Exponent
pub mod RandomId
mod Examples
use Prim.Native.Nat.{bit_xor, bit_and}
use vds.Common.{
  ℕ, zero, suc, ◌+◌, ◌-◌, ◌*◌, ◌/◌, ◌%◌, ◌^◌, List, [], ◌∷◌, ◌++◌, ltb, leb, ◌==◌, if◌then◌else◌,
  length,
}

-- The common prefix is xored; the rest of the longer id is copied.
pub xor_prefix : List ℕ → List ℕ → List ℕ
xor_prefix [] pright = pright
xor_prefix (a ∷ pleft) [] = []
xor_prefix (a ∷ pleft) (b ∷ pright) = bit_xor a b ∷ xor_prefix pleft pright

pub distance : List ℕ → List ℕ → List ℕ
distance left right =
    if ltb (length left) (length right) then xor_prefix left right else xor_prefix right left

-- The loop on `mask`, which `fuel` bounds: `mask` has at most eight bits.
pub mask_loop : ℕ → ℕ → ℕ → ℕ → ℕ
mask_loop zero b mask result = result
mask_loop (suc fuel) b mask result =
    let rest = mask_loop fuel b (mask / 2) (result + 1) in
    if mask == 0 then result else (if leb mask b then result else rest)

-- The loop on `i`; at its end the sizes decide.
exp_loop : ℕ → List ℕ → List ℕ → ℕ
exp_loop i [] [] = 0
exp_loop i (a ∷ left) [] = i * 2 ^ 3
exp_loop i [] (b ∷ right) = i * 2 ^ 3
exp_loop i (a ∷ left) (b ∷ right) =
    let rest = exp_loop (suc i) left right in
    let x = bit_xor a b in if x == 0 then rest else mask_loop 8 x 0x80 (i * 2 ^ 3)

pub distance_exp : List ℕ → List ℕ → ℕ
distance_exp left right = exp_loop 0 left right

-- `generate_random_id(original, exp_index)`; `random k` is the k-th value of `std::rand`.
module _ (random : ℕ → ℕ) where
  random_tail : ℕ → List ℕ → List ℕ
  random_tail k [] = []
  random_tail k (b ∷ bs) = random k % 2 ^ 8 ∷ random_tail (suc k) bs

  -- `result[exp_index / 8]`: the bit is flipped, then random bits below it.
  flip_byte : ℕ → ℕ → ℕ
  flip_byte b bit =
      let mask = 0x80 / 2 ^ bit in bit_xor (bit_xor b mask) (bit_and (mask - 1) (random 0 % 2 ^ 8))

  flip_at : ℕ → ℕ → List ℕ → List ℕ
  flip_at i bit [] = []
  flip_at zero bit (b ∷ bs) = flip_byte b bit ∷ random_tail 1 bs
  flip_at (suc i) bit (b ∷ bs) = b ∷ flip_at i bit bs

  pub generate_random_id : List ℕ → ℕ → List ℕ
  generate_random_id original exp_index = flip_at (exp_index / 8) (exp_index % 8) original
