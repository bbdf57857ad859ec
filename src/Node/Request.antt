-- ===== src/Node/Request.antt =====
-- The request IDs of findSuccessorRemote, and what the handler of the answer reads in them.
pub mod Origin
use peer_store.Prelude.{
  ℕ, zero, suc, ◌+◌, ◌/◌, ◌%◌, Bool, true, false, List, [], ◌∷◌, ◌++◌, ◌==◌, ltb, if◌then◌else◌,
  Bytes,
}

-- `%d` of a number that is not negative. The fuel is at least the number of digits.
unfoldable pub decimal_fuel : ℕ → ℕ → Bytes
decimal_fuel zero n = []
decimal_fuel (suc fuel) n =
    let rest = decimal_fuel fuel (n / 10) in
    if ltb n 10 then (b'0' + n) ∷ [] else rest ++ (b'0' + n % 10) ∷ []

unfoldable pub decimal : ℕ → Bytes
decimal n = decimal_fuel (suc n) n

abbrev pub dash : ℕ
dash = b'-'

-- fmt.Sprintf("%s-%s-%d", n.Address, addr, time)
unfoldable pub request_id : Bytes → Bytes → ℕ → Bytes
request_id from addr time = from ++ dash ∷ (addr ++ dash ∷ decimal time)

-- strings.Split(id, "-")[0]
unfoldable pub first_part : Bytes → Bytes
first_part [] = []
first_part (c ∷ cs) = let rest = first_part cs in if c == dash then [] else c ∷ rest

-- Whether strings.Split(id, "-") has two parts or more.
unfoldable pub has_parts : Bytes → Bool
has_parts [] = false
has_parts (c ∷ cs) = let rest = has_parts cs in if c == dash then true else rest
