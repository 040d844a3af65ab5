-- ===== src/Dht/ObjectId/Examples.antt =====
-- Concrete ids, and the theorems on them at concrete inputs.
use vds.Common.{◌+◌, ◌*◌, ◌≡◌, refl, arith, [], ◌∷◌}
use vds.Dht.ObjectId.{distance, xor_prefix, distance_exp, exp_loop, mask_loop, generate_random_id}
use vds.Dht.ObjectId.Metric.{distance_comm, distance_cancel}
use vds.Dht.ObjectId.Exponent.{number, ZerosInFront, distance_exp_lem}
use vds.Dht.ObjectId.RandomId.{distance_exp-generate_random_id}

exponent : distance_exp (0x10 ∷ 0x20 ∷ []) (0x10 ∷ 0x25 ∷ []) ≡ 13
unfolding distance_exp exp_loop mask_loop
exponent = refl

-- The bucket of an id itself is the one of the ids that differ in the first bit.
exponent_self : distance_exp (0x10 ∷ []) (0x10 ∷ []) ≡ distance_exp (0x10 ∷ []) (0x90 ∷ [])
unfolding distance_exp exp_loop mask_loop
exponent_self = refl

apart : distance (0x10 ∷ 0x20 ∷ []) (0x10 ∷ 0x25 ∷ []) ≡ 0 ∷ 5 ∷ []
unfolding distance xor_prefix
apart = refl

distance_comm_example :
    distance (0x10 ∷ 0x20 ∷ []) (0x30 ∷ []) ≡ distance (0x30 ∷ []) (0x10 ∷ 0x20 ∷ [])
distance_comm_example = distance_comm (0x10 ∷ 0x20 ∷ []) (0x30 ∷ []) (omega arith) (omega arith)

distance_cancel_example :
    distance (0x10 ∷ 0x20 ∷ []) (distance (0x30 ∷ 0x01 ∷ []) (0x10 ∷ 0x20 ∷ [])) ≡ 0x30 ∷ 0x01 ∷ []
distance_cancel_example =
    distance_cancel (0x10 ∷ 0x20 ∷ []) (0x30 ∷ 0x01 ∷ []) (omega arith) (omega arith) refl

distance_exp_lem_example :
    ZerosInFront 2
      (number (distance (0x10 ∷ 0x20 ∷ []) (0x10 ∷ 0x25 ∷ [])))
      (distance_exp (0x10 ∷ 0x20 ∷ []) (0x10 ∷ 0x25 ∷ []))
unfolding distance xor_prefix
distance_exp_lem_example =
    distance_exp_lem (0x10 ∷ 0x20 ∷ []) (0x10 ∷ 0x25 ∷ []) (omega arith) (omega arith) refl
      (omega arith)

distance_exp-generate_random_id_example :
    distance_exp
      (0x10 ∷ 0x20 ∷ 0x30 ∷ [])
      (generate_random_id (λ k. 77 * k + 200) (0x10 ∷ 0x20 ∷ 0x30 ∷ []) 11)
    ≡ 11
distance_exp-generate_random_id_example =
    distance_exp-generate_random_id (λ k. 77 * k + 200) (0x10 ∷ 0x20 ∷ 0x30 ∷ []) 11 (omega arith)
      (omega arith)
