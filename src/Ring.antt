-- ===== src/Ring.antt =====
-- chord_util.go, isBetween and fingerID: identifiers on the ring of 2^160 places.
pub mod Between
pub mod Finger
pub mod BigInt
use peer_store.Prelude.{ℕ, ◌+◌, ◌-◌, ◌^◌, ◌%◌, Bool, ◌&&◌, ◌||◌, ltb, leb, ◌==◌, if◌then◌else◌}

-- `M`
abbrev pub id_bits : ℕ
id_bits = 160

abbrev pub ring_size : ℕ
ring_size = 2 ^ id_bits

unfoldable pub is_between : ℕ → ℕ → ℕ → Bool → Bool
is_between id from to inclusive =
    if from == to
    then inclusive
    else if ltb from to
    then (if inclusive then leb from id && leb id to else ltb from id && ltb id to)
    else if inclusive
    then leb from id || leb id to
    else ltb from id || ltb id to

unfoldable pub finger_id : ℕ → ℕ → ℕ
finger_id id i = (id + 2 ^ i) % ring_size

-- The number of places clockwise from `a` to `b`.
abbrev pub clockwise : ℕ → ℕ → ℕ
clockwise a b = (b + ring_size - a) % ring_size
