-- ===== src/Chord/Routing.antt =====
-- The four ways in which FindSuccessor goes on at a node with a successor.
use peer_store.Prelude.{ℕ, ◌≡◌, inl, inr, true, false, some, arith, Bool-cases, bytes_eq}
use peer_store.Ring.{is_between}
use peer_store.Chord.{NodeRef, ChordNode, self, closest_preceding_node, answer, forward, route}

pub data Routed (n : ChordNode) (s : NodeRef) (id : ℕ) : Type 0 where
  alone : bytes_eq s.address n.address ≡ true → route n id ≡ answer (self n) → Routed n s id
  owned :
      bytes_eq s.address n.address ≡ false
      → is_between id n.id s.id true ≡ true
      → route n id ≡ answer s
      → Routed n s id
  stuck :
      bytes_eq s.address n.address ≡ false
      → is_between id n.id s.id true ≡ false
      → bytes_eq (closest_preceding_node n id).address n.address ≡ true
      → route n id ≡ answer s
      → Routed n s id
  onward :
      bytes_eq s.address n.address ≡ false
      → is_between id n.id s.id true ≡ false
      → bytes_eq (closest_preceding_node n id).address n.address ≡ false
      → route n id ≡ forward (closest_preceding_node n id)
      → Routed n s id

pub route-Routed : (n : ChordNode) (s : NodeRef) (id : ℕ) → n.successor ≡ some s → Routed n s id
unfolding route
route-Routed n s id h = elim (Bool-cases (bytes_eq s.address n.address)) [
  | inl same ↦ alone same (ground arith)
  | inr other ↦ elim (Bool-cases (is_between id n.id s.id true)) [
    | inl near ↦ owned other near (ground arith)
    | inr far ↦ elim (Bool-cases (bytes_eq (closest_preceding_node n id).address n.address)) [
      | inl none_closer ↦ stuck other far none_closer (ground arith)
      | inr closer ↦ onward other far closer (ground arith)
    ]
  ]
]
