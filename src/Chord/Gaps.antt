-- ===== src/Chord/Gaps.antt =====
-- Where the local decisions of FindSuccessor are not those of the Chord protocol.
use peer_store.Prelude.{
  ℕ, ◌<◌, ◌≡◌, false, none, some, arith, bytes_eq, bytes_eq_refl, inl, inr, true, ap, sym, ◌∙◌,
}
use mathlib.Core.Bool.{false≢true}
use peer_store.Ring.{id_bits, is_between}
use peer_store.Chord.{NodeRef, ChordNode, answer, route}
use peer_store.Chord.Closest.{closest_preceding_exact}
use peer_store.Chord.Routing.{alone, owned, stuck, onward, route-Routed}

module _ (n : ChordNode) (s : NodeRef) (next : n.successor ≡ some s)
    (apart : bytes_eq s.address n.address ≡ false) where
  own_id_between : is_between n.id n.id s.id true ≡ true
  unfolding is_between
  own_id_between = ground arith

  -- A node with another node for its successor answers a lookup of its own identifier with that
  -- successor.
  pub own_id_misrouted : route n n.id ≡ answer s
  unfolding route
  own_id_misrouted = ground (arith, own_id_between)

  -- A node with another node for its successor and an empty finger table, as it is after Join,
  -- answers every lookup with that successor.
  pub no_fingers_misrouted :
      (id : ℕ) → ((i : ℕ) → i < id_bits → n.fingers i ≡ none) → route n id ≡ answer s
  no_fingers_misrouted id empty = elim (route-Routed n s id next) [
    | alone same _ ↦ absurd (false≢true (sym apart ∙ same))
    | owned _ _ e ↦ e
    | stuck _ _ _ e ↦ e
    | onward _ _ far _ ↦ elim (closest_preceding_exact n id) [
      | inl (here, _) ↦ absurd (
          false≢true (
            sym far
            ∙ ap (λ (r : NodeRef). bytes_eq r.address n.address) here
            ∙ bytes_eq_refl n.address))
      | inr (i, l) ↦ cc (empty i l.below, l.precedes.is_set)
    ]
  ]
