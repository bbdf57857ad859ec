-- ===== src/Prelude/Bits.antt =====
-- Exclusive or on bytes.
use Prim.Native.Nat.{ℕ, zero, suc, ◌<◌, bit_xor}
use mathlib.Core.Path.{◌≡◌, refl}
use mathlib.Core.Bool.{Bool, true, ◌&&◌}
use native.Mathlib.Omega.{arith}
use peer_store.Prelude.Tests.{◌==◌, ==→eq}

all_below : ℕ → (ℕ → Bool) → Bool
all_below zero p = true
all_below (suc n) p = p n && all_below n p

all_below_at : (n : ℕ) (p : ℕ → Bool) (x : ℕ) → all_below n p ≡ true → x < n → p x ≡ true
unfolding all_below
all_below_at zero p x h lt = absurd (omega arith)
all_below_at (suc n) p x h lt = ground (arith, all_below_at n p x)

xor_table : all_below 256 (λ k. all_below 256 (λ x. bit_xor (bit_xor x k) k == x)) ≡ true
unfolding all_below
xor_table = refl

-- Adding the same byte twice gives the first byte back.
pub xor_twice : (x k : ℕ) → x < 256 → k < 256 → bit_xor (bit_xor x k) k ≡ x
xor_twice x k hx hk = ==→eq _ x (all_below_at 256 _ x (all_below_at 256 _ k xor_table hk) hx)
