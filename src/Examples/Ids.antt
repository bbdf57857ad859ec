-- ===== src/Examples/Ids.antt =====
-- Identifiers and the decisions of one node at concrete values.
use peer_store.Prelude.{
  ℕ, ◌+◌, ◌<◌, ◌≡◌, ◌⊎◌, ◌&&◌, ◌||◌, refl, true, false, some, arith, [], ◌∷◌, Bytes, text, bytes_eq,
  ◌^◌, replicate, ltb, leb, ◌==◌, All,
}
use peer_store.Ring.{is_between, finger_id, clockwise, ring_size}
use peer_store.Ring.Between.{is_between_exact}
use peer_store.Ring.Finger.{clockwise-finger_id}
use peer_store.Ring.BigInt.{set_bytes, big_bytes}
use peer_store.Chord.{
  NodeRef, ChordNode, self, answer, route, closest_preceding_node, hash_to_node_id,
}
use peer_store.Chord.Closest.{closest_preceding_exact, NonePrecedes, LastPreceding}
use peer_store.Chord.Transfer.{files_to_transfer, transfers_what_it_owns}
use peer_store.Examples.Machine.{machine}
use peer_store.Examples.TwoNodes.{low, high, low_ref, middle}

-- An arc that wraps around zero.
is_between_exact_example :
    (is_between 5 100 10 false
      ≡ (ltb 0 (clockwise 100 5) && ltb (clockwise 100 5) (clockwise 100 10)))
    × (is_between 5 100 10 true ≡ (100 == 10 || leb (clockwise 100 5) (clockwise 100 10)))
is_between_exact_example = is_between_exact 5 100 10 (omega arith) (omega arith) (omega arith)

clockwise-finger_id_example : (finger_id 7 3 < ring_size) × (clockwise 7 (finger_id 7 3) ≡ 2 ^ 3)
clockwise-finger_id_example = clockwise-finger_id 7 3 (omega arith) (omega arith)

big_bytes_runs : big_bytes 70000 ≡ 1 ∷ 17 ∷ 112 ∷ []
unfolding big_bytes
big_bytes_runs = refl

closest_preceding_exact_example :
    ((closest_preceding_node high 5 ≡ self high) × NonePrecedes high 5)
    ⊎ ((i : ℕ) × LastPreceding high 5 i (closest_preceding_node high 5))
closest_preceding_exact_example = closest_preceding_exact high 5

abbrev newcomer : NodeRef
newcomer = record { id = middle + 4; address = text "c" }

-- The upper node keeps a file that is its own, and hands it to the lower one.
abbrev keeper : ChordNode
keeper = record {
  id = middle;
  address = text "b";
  successor = some low_ref;
  predecessor = some low_ref;
  fingers = λ _. some low_ref;
  responsibles = text "" ∷ [];
}

hands_over_runs : files_to_transfer machine keeper ≡ text "" ∷ []
unfolding files_to_transfer hash_to_node_id is_between set_bytes replicate
hands_over_runs = refl

transfers_what_it_owns_example :
    All
      (λ (cid : Bytes). route low (hash_to_node_id machine cid) ≡ answer (self keeper))
      (files_to_transfer machine keeper)
unfolding bytes_eq
transfers_what_it_owns_example =
    transfers_what_it_owns machine keeper low low_ref refl refl refl refl
