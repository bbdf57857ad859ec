-- ===== src/Examples/TwoNodes.antt =====
-- A stable ring of two nodes, 0 and 2^159, with correct finger tables.
use mathlib.Core.Option.{some-injective}
use peer_store.Prelude.{
  ℕ, Bool-cases, ◌^◌, ◌<◌, ◌≤◌, ◌≡◌, ◌≢◌, refl, ap, sym, subst, ◌⊎◌, inl, inr, none, some, arith,
  [], Bytes, text, bytes_eq, bytes_eq_iff, if◌then◌else◌,
}
use peer_store.Ring.{ring_size, clockwise, finger_id}
use peer_store.Ring.Finger.{two-pow_le}
use peer_store.Chord.{NodeRef, ChordNode}
use peer_store.Chord.Lookup.{Nodes, lookup, IsKnown, IsLinked}
use peer_store.Chord.Lookup.Correct.{IsStable, Owns, lookup_finds_owner}
use peer_store.Chord.Lookup.Hops.{HasFingers, lookup_in_160_hops}

abbrev pub middle : ℕ
middle = 2 ^ 159

abbrev pub low_ref : NodeRef
low_ref = record { id = 0; address = text "a" }

abbrev pub high_ref : NodeRef
high_ref = record { id = middle; address = text "b" }

abbrev pub low : ChordNode
low = record {
  id = 0;
  address = text "a";
  successor = some high_ref;
  predecessor = some high_ref;
  fingers = λ _. some high_ref;
  responsibles = [];
}

abbrev pub high : ChordNode
high = record {
  id = middle;
  address = text "b";
  successor = some low_ref;
  predecessor = some low_ref;
  fingers = λ _. some low_ref;
  responsibles = [];
}

abbrev two_nodes : Nodes
two_nodes a =
    if bytes_eq a (text "a") then some low else if bytes_eq a (text "b") then some high else none

-- Every node is one of the two.
two_nodes_cases :
    (a : Bytes) (n : ChordNode)
    → two_nodes a ≡ some n
    → ((a ≡ text "a") × (n ≡ low)) ⊎ ((a ≡ text "b") × (n ≡ high))
two_nodes_cases a n at = elim (Bool-cases (bytes_eq a (text "a"))) [
  | inl e ↦ inl ((bytes_eq_iff a (text "a")).0 e, ground arith)
  | inr no_a ↦ elim (Bool-cases (bytes_eq a (text "b"))) [
    | inl e ↦ inr ((bytes_eq_iff a (text "b")).0 e, ground arith)
    | inr no_b ↦ cc (no_a, no_b, at)
  ]
]

-- A statement about every node, from the two.
for_both :
    (P : Bytes → ChordNode → Type 0)
    → P (text "a") low
    → P (text "b") high
    → (a : Bytes) (n : ChordNode) → two_nodes a ≡ some n
    → P a n
for_both P pl ph a n at = elim (two_nodes_cases a n at) [
  | inl (ea, en) ↦
      subst (λ (m : ChordNode). P a m) (sym en) (subst (λ (b : Bytes). P b low) (sym ea) pl)
  | inr (ea, en) ↦
      subst (λ (m : ChordNode). P a m) (sym en) (subst (λ (b : Bytes). P b high) (sym ea) ph)
]

low-IsKnown : IsKnown two_nodes low_ref low
unfolding bytes_eq
low-IsKnown = record { present = refl; same_id = refl }

high-IsKnown : IsKnown two_nodes high_ref high
unfolding bytes_eq
high-IsKnown = record { present = refl; same_id = refl }

-- A finger of the lower node is the higher node, and the other way round.
finger_of :
    (n : ChordNode) (i : ℕ) (f g : NodeRef) (m : ChordNode)
    → some g ≡ some f
    → IsKnown two_nodes g m
    → (m : ChordNode) × IsKnown two_nodes f m
finger_of n i f g m e k =
    (m, subst (λ (r : NodeRef). IsKnown two_nodes r m) (some-injective g f e) k)

two_nodes-IsLinked : IsLinked two_nodes
two_nodes-IsLinked = record {
  addressed = for_both (λ a n. n.address ≡ a) refl refl;
  bounded = for_both (λ a n. n.id < ring_size) (omega arith) (omega arith);
  has_successor =
      for_both
        (λ a n. (s : NodeRef) × (m : ChordNode) × (n.successor ≡ some s) × IsKnown two_nodes s m)
        (high_ref, high, refl, high-IsKnown) (low_ref, low, refl, low-IsKnown);
  fingers_known = λ a n i f at lt e.
      for_both (λ b m. m.fingers i ≡ some f → (k : ChordNode) × IsKnown two_nodes f k)
        (λ e. finger_of low i f high_ref high e high-IsKnown)
        (λ e. finger_of high i f low_ref low e low-IsKnown) a n at e;
}

abbrev IsNearest : ℕ → ℕ → ℕ → Type 0
IsNearest n s m = (m ≡ n) ⊎ ((s ≢ n) × (clockwise n s ≤ clockwise n m))

nearest :
    (a b : Bytes) (n m : ChordNode) (s : NodeRef)
    → two_nodes a ≡ some n
    → n.successor ≡ some s
    → two_nodes b ≡ some m
    → IsNearest n.id s.id m.id
nearest a b n m s at es bt =
    for_both (λ a n. n.successor ≡ some s → IsNearest n.id s.id m.id)
      (λ e.
        subst (λ (r : NodeRef). IsNearest 0 r.id m.id) (some-injective high_ref s e)
          (for_both (λ b m. IsNearest 0 middle m.id) (inl refl) (inr (omega arith, omega arith)) b m
            bt))
      (λ e.
        subst (λ (r : NodeRef). IsNearest middle r.id m.id) (some-injective low_ref s e)
          (for_both (λ b m. IsNearest middle 0 m.id) (inr (omega arith, omega arith)) (inl refl) b m
            bt))
      a n at es

two_nodes-IsStable : IsStable two_nodes
two_nodes-IsStable = record {
  linked = two_nodes-IsLinked;
  nearest = nearest;
  first_finger = λ a n s at es.
      for_both
        (λ b m. m.successor ≡ some s → (f : NodeRef) × (m.fingers 0 ≡ some f) × (f.id ≡ s.id))
        (λ e. (high_ref, refl, ap (λ (r : NodeRef). r.id) (some-injective high_ref s e)))
        (λ e. (low_ref, refl, ap (λ (r : NodeRef). r.id) (some-injective low_ref s e))) a n at es;
}

two_nodes-HasFingers : HasFingers two_nodes
unfolding finger_id
two_nodes-HasFingers = record {
  correct = λ a n i at lt.
      for_both
        (λ b m. (f : NodeRef) × (m.fingers i ≡ some f) × Owns two_nodes (finger_id m.id i) f.id)
        (
          high_ref,
          refl,
          record {
            first =
                for_both (λ b m. clockwise (finger_id 0 i) middle ≤ clockwise (finger_id 0 i) m.id)
                  (omega (arith, two-pow_le i 159 (omega arith), two-pow_le 0 i (omega arith)))
                  (omega arith);
          },
        )
        (
          low_ref,
          refl,
          record {
            first =
                for_both
                  (λ b m. clockwise (finger_id middle i) 0 ≤ clockwise (finger_id middle i) m.id)
                  (omega arith)
                  (omega (arith, two-pow_le i 159 (omega arith), two-pow_le 0 i (omega arith)));
          },
        )
        a n at;
}

five_free : (b : Bytes) (m : ChordNode) → two_nodes b ≡ some m → m.id ≢ 5
five_free = for_both (λ b m. m.id ≢ 5) (omega arith) (omega arith)

-- The upper node is asked for identifier 5, which takes a hop to the lower one.
lookup_finds_owner_example :
    (r : NodeRef) × (m : ChordNode) × (lookup two_nodes ring_size high 5 ≡ some r)
    × IsKnown two_nodes r m
    × Owns two_nodes 5 r.id
lookup_finds_owner_example =
    lookup_finds_owner two_nodes two_nodes-IsStable 5 (omega arith) five_free ring_size (text "b")
      high high-IsKnown.present (omega arith)

lookup_in_160_hops_example :
    (r : NodeRef) × (m : ChordNode) × (lookup two_nodes 161 high 5 ≡ some r)
    × IsKnown two_nodes r m
    × Owns two_nodes 5 r.id
lookup_in_160_hops_example =
    lookup_in_160_hops two_nodes two_nodes-IsStable two_nodes-HasFingers 5 (omega arith) (text "b")
      high high-IsKnown.present five_free
