-- ===== src/Chord/Closest.antt =====
-- closestPrecedingNode: what the scan of the finger table finds.
use peer_store.Prelude.{
  ℕ, zero, suc, ◌<◌, ◌≡◌, refl, ◌⊎◌, inl, inr, true, false, none, some, arith, ◌∙◌, Bool-cases,
  Option-cases, below_suc,
}
use peer_store.Ring.{id_bits, is_between}
use peer_store.Chord.{NodeRef, ChordNode, self, scan_fingers, closest_preceding_node}

-- Finger `i` is set to `f`, which lies strictly between the node and `id`.
pub record Precedes (n : ChordNode) (id i : ℕ) (f : NodeRef) : Type 0 where
  pub is_set : n.fingers i ≡ some f
  pub inside : is_between f.id n.id id false ≡ true

-- The scan of the first `k` entries finds the last entry that lies inside, or none does.
pub data Scanned (n : ChordNode) (id k : ℕ) : Type 0 where
  nothing :
      scan_fingers n id k ≡ none
      → ((i : ℕ) (f : NodeRef)
          → i < k
          → n.fingers i ≡ some f
          → is_between f.id n.id id false ≡ false)
      → Scanned n id k
  found :
      (i : ℕ) (f : NodeRef)
      → i < k
      → Precedes n id i f
      → scan_fingers n id k ≡ some f
      → ((j : ℕ) (g : NodeRef)
          → i < j
          → j < k
          → n.fingers j ≡ some g
          → is_between g.id n.id id false ≡ false)
      → Scanned n id k

module _ (n : ChordNode) (id k : ℕ) where
  -- Entry `k` is nil or lies outside: the scan goes on below it.
  skip :
      ((f : NodeRef) → n.fingers k ≡ some f → is_between f.id n.id id false ≡ false)
      → scan_fingers n id (suc k) ≡ scan_fingers n id k
      → Scanned n id k
      → Scanned n id (suc k)
  skip out same (nothing e none_below) = nothing (same ∙ e) λ i f h g. elim (below_suc i k h) [
    | inl lt ↦ none_below i f lt g
    | inr eq ↦ out f (rw eq at g)
  ]
  skip out same (found i f lt p e above) = found i f (omega arith) p (same ∙ e) λ j g ij jk h.
      elim (below_suc j k jk) [ inl below ↦ above j g ij below h | inr eq ↦ out g (rw eq at h) ]

  scan_step : Scanned n id k → Scanned n id (suc k)
  unfolding scan_fingers
  scan_step below = elim (Option-cases (n.fingers k)) [
    | inl nil ↦ skip (λ f h. cc (nil, h)) (ground arith) below
    | inr (f, set) ↦ elim (Bool-cases (is_between f.id n.id id false)) [
      | inl inside ↦
          found k f (omega arith) (record { is_set = set; inside = inside }) (ground arith)
            (λ j g kj jk h. absurd (omega arith))
      | inr outside ↦ skip (λ g h. ground arith) (ground arith) below
    ]
  ]

scan_fingers-Scanned : (n : ChordNode) (id k : ℕ) → Scanned n id k
unfolding scan_fingers
scan_fingers-Scanned n id zero = nothing refl (λ i f h g. absurd (omega arith))
scan_fingers-Scanned n id (suc k) = scan_step n id k (scan_fingers-Scanned n id k)

module _ (n : ChordNode) (id : ℕ) where
  -- No entry of the table lies inside the open arc from the node to `id`.
  abbrev pub NonePrecedes : Type 0
  NonePrecedes =
      (i : ℕ) (f : NodeRef)
      → i < id_bits
      → n.fingers i ≡ some f
      → is_between f.id n.id id false ≡ false

  -- Entry `i` lies inside that arc, and no later entry does.
  pub record LastPreceding (i : ℕ) (f : NodeRef) : Type 0 where
    pub below : i < id_bits
    pub precedes : Precedes n id i f
    pub last :
        (j : ℕ) (g : NodeRef)
        → i < j
        → j < id_bits
        → n.fingers j ≡ some g
        → is_between g.id n.id id false ≡ false

  closest_none : scan_fingers n id id_bits ≡ none → closest_preceding_node n id ≡ self n
  unfolding closest_preceding_node
  closest_none e = ground arith

  closest_some :
      (f : NodeRef) → scan_fingers n id id_bits ≡ some f → closest_preceding_node n id ≡ f
  unfolding closest_preceding_node
  closest_some f e = ground arith

  closest_of :
      Scanned n id id_bits
      → ((closest_preceding_node n id ≡ self n) × NonePrecedes)
        ⊎ ((i : ℕ) × LastPreceding i (closest_preceding_node n id))
  closest_of (nothing e outside) = inl (closest_none e, outside)
  closest_of (found i f lt p e above) =
      inr (i, rw (closest_some f e) (record { below = lt; precedes = p; last = above }))

  -- closestPrecedingNode returns the node itself exactly where no entry of its finger table lies
  -- strictly between the node and `id`; otherwise it returns the last entry that does.
  pub closest_preceding_exact :
      ((closest_preceding_node n id ≡ self n) × NonePrecedes)
      ⊎ ((i : ℕ) × LastPreceding i (closest_preceding_node n id))
  closest_preceding_exact = closest_of (scan_fingers-Scanned n id id_bits)
