-- ===== src/Ring/Finger.antt =====
-- fingerID: the start of a finger.
use native.Mathlib.Nat.{pow-le-pow_right}
use peer_store.Prelude.{ℕ, ◌^◌, ◌≤◌, ◌<◌, ◌≡◌, arith}
use peer_store.Ring.{finger_id, clockwise, ring_size, id_bits}

pub two-pow_le : (i j : ℕ) → i ≤ j → 2 ^ i ≤ 2 ^ j
two-pow_le i j h = pow-le-pow_right {n = 2} (omega arith) h

pub two-pow_lt : (i : ℕ) → i < id_bits → 2 ^ i < ring_size
two-pow_lt i h = omega (arith, two-pow_le i 159 (omega arith))

-- For an identifier below 2^160 and an index below 160, the finger's start is an identifier, 2^i
-- places clockwise from the node.
pub clockwise-finger_id :
    (id i : ℕ)
    → id < ring_size
    → i < id_bits
    → (finger_id id i < ring_size) × (clockwise id (finger_id id i) ≡ 2 ^ i)
unfolding finger_id
clockwise-finger_id id i h k = (omega arith, omega (arith, two-pow_lt i k))
