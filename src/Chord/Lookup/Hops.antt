-- ===== src/Chord/Lookup/Hops.antt =====
-- With a correct finger table at every node, a lookup takes at most 160 hops.
use native.Mathlib.Nat.{two-pow-succ}
use mathlib.Core.Bool.{false≢true}
use peer_store.Prelude.{
  ℕ, zero, suc, ◌+◌, ◌^◌, ◌%◌, ◌<◌, ◌≤◌, ◌≡◌, ◌≢◌, ◌⊎◌, inl, inr, true, false, some, arith, Bytes,
  ◌∙◌, sym, ap, refl, leb, leb→le, leb_false→lt, Bool-cases,
}
use peer_store.Ring.{ring_size, clockwise, is_between, id_bits, finger_id}
use peer_store.Ring.Between.{inside_adds}
use peer_store.Ring.Finger.{two-pow_le, two-pow_lt}
use peer_store.Chord.{NodeRef, ChordNode, self, closest_preceding_node}
use peer_store.Chord.Closest.{LastPreceding}
use peer_store.Chord.Routing.{alone, owned, stuck, onward, route-Routed}
use peer_store.Chord.Lookup.{Nodes, lookup, IsKnown}
use peer_store.Chord.Lookup.Total.{Hop, onward-Hop, lookup_answer, lookup_forward}
use peer_store.Chord.Lookup.Correct.{IsStable, Owns, found-Owns}

module _ (n c x id : ℕ) (hn : n < ring_size) (hc : c < ring_size) (hx : x < ring_size)
    (hi : id < ring_size) where
  -- Two arcs in a row.
  arcs_add :
      is_between c n id false ≡ true
      → is_between x c id false ≡ true
      → (is_between x n id false ≡ true) × (clockwise n x ≡ clockwise n c + clockwise c x)
  unfolding is_between
  arcs_add h k = (ground arith, ground arith)

  -- The first node from a place that is not beyond `x` is inside where `x` is.
  first_inside :
      (w : ℕ)
      → 0 < w
      → w ≤ clockwise n x
      → is_between x n id false ≡ true
      → clockwise ((n + w) % ring_size) c ≤ clockwise ((n + w) % ring_size) x
      → is_between c n id false ≡ true
  unfolding is_between
  first_inside w pos le h first = ground arith

-- The first node from `w` places on is at least `w` places on.
first_beyond :
    (n c w : ℕ)
    → n < ring_size
    → c < ring_size
    → w < ring_size
    → c ≢ n
    → clockwise ((n + w) % ring_size) c ≤ clockwise ((n + w) % ring_size) n
    → w ≤ clockwise n c
first_beyond n c w hn hc hw ne le = omega arith

-- Finger `i` of every node is set, to the first node at or after its start.
pub record HasFingers (nodes : Nodes) : Type 0 where
  pub correct :
      (a : Bytes) (n : ChordNode) (i : ℕ)
      → nodes a ≡ some n
      → i < id_bits
      → (f : NodeRef) × (n.fingers i ≡ some f) × Owns nodes (finger_id n.id i) f.id

-- All nodes on the way from `n` to `id` are fewer than 2^k places away.
abbrev IsNear : Nodes → ℕ → ℕ → ℕ → Type 0
IsNear nodes n id k =
    (b : Bytes) (m : ChordNode)
    → nodes b ≡ some m
    → is_between m.id n id false ≡ true
    → clockwise n m.id < 2 ^ k

ne_inside : (c n id : ℕ) → is_between c n id false ≡ true → c ≢ n
unfolding is_between
ne_inside c n id h = ground arith

module _ (nodes : Nodes) (stable : IsStable nodes) (right : HasFingers nodes) (id : ℕ)
    (hid : id < ring_size) where
  module _ (a : Bytes) (n : ChordNode) (at : nodes a ≡ some n) where
    -- A finger that lies inside is at least as far away as its start.
    finger_beyond :
        (j : ℕ) (c : NodeRef) (m : ChordNode)
        → LastPreceding n id j c
        → IsKnown nodes c m
        → 2 ^ j ≤ clockwise n.id m.id
    unfolding finger_id
    finger_beyond j c m l k =
        let (f, set, owns) = right.correct a n j at l.below in
        let same : f ≡ c = cc (set, l.precedes.is_set) in
        first_beyond n.id m.id (2 ^ j) (stable.linked.bounded a n at)
          (stable.linked.bounded _ m k.present) (two-pow_lt j l.below)
          (rw k.same_id (ne_inside c.id n.id id l.precedes.inside))
          (rw (k.same_id, ← same) (owns.first a n at))

    -- If a node inside is 2^k places away or more, the finger that is taken is finger k or later.
    later_finger :
        (j k : ℕ) (c : NodeRef) (b : Bytes) (x : ChordNode)
        → LastPreceding n id j c
        → k < id_bits
        → nodes b ≡ some x
        → is_between x.id n.id id false ≡ true
        → 2 ^ k ≤ clockwise n.id x.id
        → k ≤ j
    unfolding finger_id
    later_finger j k c b x l lt atx inside far =
        let (f, set, owns) = right.correct a n k at lt in
        let (fm, known) = stable.linked.fingers_known a n k f at lt set in
        let bound : f.id < ring_size =
          rw (← known.same_id) (stable.linked.bounded _ fm known.present) in
        let here : is_between f.id n.id id false ≡ true =
          first_inside n.id f.id x.id id (stable.linked.bounded a n at) bound
            (stable.linked.bounded b x atx) hid (2 ^ k) (two-pow_le 0 k (omega arith)) far inside
            (owns.first b x atx) in
        elim (Bool-cases (leb k j)) [
          | inl le ↦ ground arith
          | inr gt ↦ absurd (false≢true (sym (l.last k f (ground arith) lt set) ∙ here))
        ]

    hop_halves :
        (j k : ℕ) (c : NodeRef) (m : ChordNode)
        → LastPreceding n id j c
        → IsKnown nodes c m
        → k < id_bits
        → IsNear nodes n.id id (suc k)
        → IsNear nodes m.id id k
    hop_halves j k c m l known lt near b x atx inside =
        let (inside_n, sum) =
          arcs_add n.id m.id x.id id (stable.linked.bounded a n at)
            (stable.linked.bounded _ m known.present) (stable.linked.bounded b x atx) hid
            (rw known.same_id l.precedes.inside) inside in
        elim (Bool-cases (leb (2 ^ k) (clockwise n.id x.id))) [
          | inl far ↦ omega (
            arith,
            sum,
            near b x atx inside_n,
            two-pow-succ k,
            two-pow_le k j (later_finger j k c b x l lt atx inside_n (leb→le _ _ far)),
            finger_beyond j c m l known,
          )
          | inr close ↦ omega (arith, sum, leb_false→lt _ _ close)
        ]

  -- Where FindSuccessor answers at once, the lookup needs no more fuel.
  answers_or_hops :
      (k : ℕ) (a : Bytes) (n : ChordNode)
      → nodes a ≡ some n
      → ((r : NodeRef) × (q : ChordNode) × (lookup nodes (suc k) n id ≡ some r) × IsKnown nodes r q)
        ⊎ ((m : ChordNode) × Hop nodes n id m × (lookup nodes (suc k) n id ≡ lookup nodes k m id))
  answers_or_hops k a n at =
      let (s, sm, es, ks) = stable.linked.has_successor a n at in
      elim (route-Routed n s id es) [
        | alone _ e ↦ inl (
          self n,
          n,
          lookup_answer nodes k n id (self n) e,
          record { present = ap nodes (stable.linked.addressed a n at) ∙ at; same_id = refl },
        )
        | owned _ _ e ↦ inl (s, sm, lookup_answer nodes k n id s e, ks)
        | stuck _ _ _ e ↦ inl (s, sm, lookup_answer nodes k n id s e, ks)
        | onward _ _ far e ↦
            let (m, hop) = onward-Hop nodes stable.linked id hid a n at far in
            inr (m, hop, lookup_forward nodes k n id _ m e hop.known.present)
      ]

  near_returns :
      (k : ℕ) (a : Bytes) (n : ChordNode)
      → nodes a ≡ some n
      → k ≤ id_bits
      → IsNear nodes n.id id k
      → (r : NodeRef) × (q : ChordNode) × (lookup nodes (suc k) n id ≡ some r) × IsKnown nodes r q
  near_returns zero a n at le near = elim (answers_or_hops zero a n at) [
    | inl done ↦ done
    | inr (m, hop, e) ↦
        let inside : is_between m.id n.id id false ≡ true =
          rw hop.known.same_id hop.chosen.precedes.inside in
        absurd (
          omega (
            arith,
            near _ m hop.known.present inside,
            inside_adds m.id n.id id (stable.linked.bounded _ m hop.known.present)
                (stable.linked.bounded a n at) hid inside,
          ))
  ]
  near_returns (suc k) a n at le near = elim (answers_or_hops (suc k) a n at) [
    | inl done ↦ done
    | inr (m, hop, e) ↦
        let (r, q, er, kr) = near_returns k _ m hop.known.present (omega arith) (
          hop_halves a n at hop.index k (closest_preceding_node n id) m hop.chosen hop.known
            (omega arith) near) in
        (r, q, e ∙ er, kr)
  ]

  -- On a stable ring whose finger tables are correct, a lookup of an identifier below 2^160 that no
  -- node has returns, from any node, with at most 161 nodes taking part, the one that was asked and 160
  -- more: what comes back is the address and the identifier of a node of the ring, and no node of the
  -- ring comes before that one clockwise from the identifier.
  pub lookup_in_160_hops :
      (a : Bytes) (n : ChordNode)
      → nodes a ≡ some n
      → ((b : Bytes) (m : ChordNode) → nodes b ≡ some m → m.id ≢ id)
      → (r : NodeRef) × (m : ChordNode) × (lookup nodes 161 n id ≡ some r)
        × IsKnown nodes r m
        × Owns nodes id r.id
  lookup_in_160_hops a n at free =
      let (r, m, e, known) =
        near_returns 160 a n at (omega arith) (λ b m atm inside. omega arith) in
      (r, m, e, known, found-Owns nodes stable id hid free 161 a n r at e)
