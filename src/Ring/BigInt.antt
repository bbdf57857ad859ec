-- ===== src/Ring/BigInt.antt =====
-- big.Int's SetBytes and Bytes, by which identifiers travel in messages.
use peer_store.Prelude.{
  ℕ, zero, suc, ◌+◌, ◌*◌, ◌/◌, ◌%◌, ◌≤◌, ◌≡◌, refl, arith, true, false, [], ◌∷◌, ◌++◌, ◌==◌, Bytes,
  Bool-cases, inl, inr,
}

-- SetBytes: the first byte is the highest; `n` stands for the bytes before.
unfoldable pub set_bytes_from : ℕ → Bytes → ℕ
set_bytes_from n [] = n
set_bytes_from n (b ∷ bs) = set_bytes_from (n * 256 + b) bs

unfoldable pub set_bytes : Bytes → ℕ
unfolding set_bytes_from
set_bytes bs = set_bytes_from 0 bs

-- Bytes: no leading zero, so nothing for 0. The fuel is at least the number of bytes.
unfoldable pub big_bytes_fuel : ℕ → ℕ → Bytes
big_bytes_fuel zero n = []
big_bytes_fuel (suc fuel) n = elim (n == 0) [
  | true ↦ []
  | false ↦ big_bytes_fuel fuel (n / 256) ++ n % 256 ∷ []
]

unfoldable pub big_bytes : ℕ → Bytes
unfolding big_bytes_fuel
big_bytes n = big_bytes_fuel n n

set_bytes_from_append :
    (n : ℕ) (xs : Bytes) (b : ℕ) → set_bytes_from n (xs ++ b ∷ []) ≡ set_bytes_from n xs * 256 + b
unfolding set_bytes_from
set_bytes_from_append n [] b = refl
set_bytes_from_append n (x ∷ xs) b = set_bytes_from_append (n * 256 + x) xs b

round_trip : (fuel n : ℕ) → n ≤ fuel → set_bytes_from 0 (big_bytes_fuel fuel n) ≡ n
unfolding big_bytes_fuel
round_trip zero n h = unfold set_bytes_from in omega arith
round_trip (suc fuel) n h = elim (Bool-cases (n == 0)) [
  | inl none ↦ unfold set_bytes_from in ground arith
  | inr more ↦
      let low = round_trip fuel (n / 256) (ground arith) in
      let last = set_bytes_from_append 0 (big_bytes_fuel fuel (n / 256)) (n % 256) in
      ground (arith, low, last)
]

-- An identifier that is sent by its Bytes and read by SetBytes arrives unchanged.
pub set_bytes-big_bytes : (n : ℕ) → set_bytes (big_bytes n) ≡ n
unfolding set_bytes big_bytes
set_bytes-big_bytes n = round_trip n n (omega arith)
