-- ===== src/Chord/Lookup/Correct.antt =====
-- A lookup on a stable ring returns the node that owns the identifier.
use peer_store.Prelude.{
  ℕ, zero, suc, ◌<◌, ◌≤◌, ◌≡◌, ◌≢◌, ◌⊎◌, inl, inr, true, false, some, arith, Bytes, bytes_eq,
  bytes_eq_iff, subst, sym, ap, ◌∙◌,
}
use peer_store.Ring.{ring_size, clockwise, is_between}
use peer_store.Chord.{NodeRef, ChordNode, self, answer, route, closest_preceding_node}
use peer_store.Chord.Closest.{closest_preceding_exact}
use peer_store.Chord.Routing.{alone, owned, stuck, onward, route-Routed}
use peer_store.Chord.Lookup.{Nodes, lookup, IsKnown, IsLinked}
use peer_store.Chord.Lookup.Total.{
  lookup_zero, onward-Hop, lookup_answer, lookup_forward, lookup_total,
}

-- Every successor pointer names the nearest other node clockwise, the node itself only where there
-- is no other identifier, and the first finger names the successor.
pub record IsStable (nodes : Nodes) : Type 0 where
  pub linked : IsLinked nodes
  pub nearest :
      (a b : Bytes) (n m : ChordNode) (s : NodeRef)
      → nodes a ≡ some n
      → n.successor ≡ some s
      → nodes b ≡ some m
      → (m.id ≡ n.id) ⊎ ((s.id ≢ n.id) × (clockwise n.id s.id ≤ clockwise n.id m.id))
  pub first_finger :
      (a : Bytes) (n : ChordNode) (s : NodeRef)
      → nodes a ≡ some n
      → n.successor ≡ some s
      → (f : NodeRef) × (n.fingers 0 ≡ some f) × (f.id ≡ s.id)

-- No node comes before the identifier `r` on the way clockwise from `id`.
pub record Owns (nodes : Nodes) (id : ℕ) (r : ℕ) : Type 0 where
  pub first : (b : Bytes) (m : ChordNode) → nodes b ≡ some m → clockwise id r ≤ clockwise id m.id

module _ (n s m id : ℕ) (hn : n < ring_size) (hs : s < ring_size) (hm : m < ring_size)
    (hi : id < ring_size) where
  nearest_owns :
      id ≢ n
      → is_between id n s true ≡ true
      → (m ≡ n) ⊎ ((s ≢ n) × (clockwise n s ≤ clockwise n m))
      → clockwise id s ≤ clockwise id m
  unfolding is_between
  nearest_owns ne near h = ground arith

beyond_inside : (n s id : ℕ) → is_between id n s true ≡ false → is_between s n id false ≡ true
unfolding is_between
beyond_inside n s id h = ground arith

inside_ne : (n c id : ℕ) → is_between c n id false ≡ true → c ≢ n
unfolding is_between
inside_ne n c id h = ground arith

module _ (nodes : Nodes) (stable : IsStable nodes) (id : ℕ) (hid : id < ring_size)
    (free : (b : Bytes) (m : ChordNode) → nodes b ≡ some m → m.id ≢ id) where
  -- Two pointers to one address name one identifier.
  same_node :
      (a : Bytes) (n m : ChordNode) (r : NodeRef)
      → nodes a ≡ some n
      → IsKnown nodes r m
      → bytes_eq r.address n.address ≡ true
      → r.id ≡ n.id
  same_node a n m r at k same =
      let there : nodes r.address ≡ nodes a =
        ap nodes ((bytes_eq_iff r.address n.address).0 same ∙ stable.linked.addressed a n at) in
      cc (k.same_id, k.present, there, at)

  successor-Owns :
      (a : Bytes) (n m : ChordNode) (s : NodeRef)
      → nodes a ≡ some n
      → n.successor ≡ some s
      → IsKnown nodes s m
      → is_between id n.id s.id true ≡ true
      → Owns nodes id s.id
  successor-Owns a n sm s at es ks near = record {
    first = λ b m atb.
        nearest_owns n.id s.id m.id id (stable.linked.bounded a n at)
          (rw (← ks.same_id) (stable.linked.bounded _ sm ks.present))
          (stable.linked.bounded b m atb) hid (λ e. free a n at (sym e)) near
          (stable.nearest a b n m s at es atb);
  }

  -- The first finger of a stable node lies inside, so the scan does not come back empty.
  never_stuck :
      (a : Bytes) (n m : ChordNode) (s : NodeRef)
      → nodes a ≡ some n
      → n.successor ≡ some s
      → is_between id n.id s.id true ≡ false
      → bytes_eq (closest_preceding_node n id).address n.address ≡ true
      → ⊥
  never_stuck a n m s at es far same =
      let (f, ef, same_id) = stable.first_finger a n s at es in
      elim (closest_preceding_exact n id) [
        | inl (_, none_inside) ↦
            cc (none_inside 0 f (omega arith) ef, beyond_inside n.id s.id id far, same_id)
        | inr (i, l) ↦
            let (cm, k) =
              stable.linked.fingers_known a n i (closest_preceding_node n id) at l.below
                l.precedes.is_set in
            absurd (inside_ne n.id _ id l.precedes.inside (same_node a n cm _ at k same))
      ]

  alone-Owns :
      (a : Bytes) (n m : ChordNode) (s : NodeRef)
      → nodes a ≡ some n
      → n.successor ≡ some s
      → IsKnown nodes s m
      → bytes_eq s.address n.address ≡ true
      → Owns nodes id n.id
  alone-Owns a n sm s at es ks same = record {
    first = λ b m atb. elim (stable.nearest a b n m s at es atb) [
      | inl only ↦ rw only (omega arith)
      | inr (ne, _) ↦ absurd (ne (same_node a n sm s at ks same))
    ];
  }

  -- What an answered lookup returns is the answer.
  answer-Owns :
      (fuel : ℕ) (n : ChordNode) (q r : NodeRef)
      → route n id ≡ answer q
      → lookup nodes (suc fuel) n id ≡ some r
      → Owns nodes id q.id
      → Owns nodes id r.id
  answer-Owns fuel n q r h e owns =
      let same : q ≡ r = cc (e, lookup_answer nodes fuel n id q h) in
      subst (λ (x : NodeRef). Owns nodes id x.id) same owns

  pub found-Owns :
      (fuel : ℕ) (a : Bytes) (n : ChordNode) (r : NodeRef)
      → nodes a ≡ some n
      → lookup nodes fuel n id ≡ some r
      → Owns nodes id r.id
  found-Owns zero a n r at e = cc (lookup_zero nodes n id)
  found-Owns (suc fuel) a n r at e =
      let (s, sm, es, ks) = stable.linked.has_successor a n at in
      elim (route-Routed n s id es) [
        | alone same q ↦ answer-Owns fuel n (self n) r q e (alone-Owns a n sm s at es ks same)
        | owned _ near q ↦ answer-Owns fuel n s r q e (successor-Owns a n sm s at es ks near)
        | stuck _ far same q ↦ absurd (never_stuck a n sm s at es far same)
        | onward _ _ far q ↦
            let (m, hop) = onward-Hop nodes stable.linked id hid a n at far in
            found-Owns fuel _ m r hop.known.present
              (sym (lookup_forward nodes fuel n id _ m q hop.known.present) ∙ e)
      ]

  -- On a stable ring, a lookup from any node of an identifier below 2^160 that no node has, with more
  -- fuel than the clockwise distance to it, returns a pointer to a node of the ring, and no node of the ring
  -- comes before that one clockwise from the identifier.
  pub lookup_finds_owner :
      (fuel : ℕ) (a : Bytes) (n : ChordNode)
      → nodes a ≡ some n
      → clockwise n.id id < fuel
      → (r : NodeRef) × (m : ChordNode) × (lookup nodes fuel n id ≡ some r)
        × IsKnown nodes r m
        × Owns nodes id r.id
  lookup_finds_owner fuel a n at lt =
      let (r, m, e, k) = lookup_total nodes stable.linked id hid fuel a n at lt in
      (r, m, e, k, found-Owns fuel a n r at e)
