-- ===== src/Dht/Route/Bucket/Ticks.antt =====
-- The counter `pinged_` of a node (libs_server/vds_dht_network/impl/dht_route.cpp) over many timers.
use vds.Common.{ℕ, zero, suc, ◌+◌, ◌%◌, ◌^◌, ◌<◌, ◌≡◌, refl, arith, ltb}
use vds.Dht.Route.Bucket.{Node, is_good, tick}

-- The node after a number of timers in which it did not answer.
unfoldable pub ticks : ℕ → Node → Node
ticks zero p = p
ticks (suc n) p = tick (ticks n p)

pinged-ticks : (n : ℕ) (p : Node) → p.pinged < 2 ^ 8 → (ticks n p).pinged ≡ (p.pinged + n) % 2 ^ 8
unfolding ticks tick
pinged-ticks zero p h = omega arith
pinged-ticks (suc n) p h = rw (pinged-ticks n p h) (omega arith)

-- A node that does not answer is good for as long as its counter, which wraps around after 256 timers,
-- is below ten.
pub is_good-ticks :
    (n : ℕ) (p : Node) → p.pinged < 2 ^ 8 → is_good (ticks n p) ≡ ltb ((p.pinged + n) % 2 ^ 8) 10
unfolding is_good
is_good-ticks n p h = rw (pinged-ticks n p h) refl
