-- ===== src/Chord/Lookup/Total.antt =====
-- A lookup ends: each hop brings the request closer to the identifier.
use peer_store.Prelude.{
  ℕ, zero, suc, ◌<◌, ◌≡◌, inl, inr, false, none, some, arith, Bytes, bytes_eq, bytes_eq_refl, ap,
  refl, ◌∙◌,
}
use peer_store.Ring.{ring_size, clockwise}
use peer_store.Ring.Between.{inside_closer}
use peer_store.Chord.{NodeRef, ChordNode, self, answer, forward, route, closest_preceding_node}
use peer_store.Chord.Closest.{closest_preceding_exact, LastPreceding}
use peer_store.Chord.Routing.{alone, owned, stuck, onward, route-Routed}
use peer_store.Chord.Lookup.{Nodes, lookup, IsKnown, IsLinked}

pub lookup_zero : (nodes : Nodes) (n : ChordNode) (id : ℕ) → lookup nodes 0 n id ≡ none
unfolding lookup
lookup_zero nodes n id = refl

module _ (nodes : Nodes) (fuel : ℕ) (n : ChordNode) (id : ℕ) where
  pub lookup_answer : (r : NodeRef) → route n id ≡ answer r → lookup nodes (suc fuel) n id ≡ some r
  unfolding lookup
  lookup_answer r h = ground arith

  pub lookup_forward :
      (c : NodeRef) (m : ChordNode)
      → route n id ≡ forward c
      → nodes c.address ≡ some m
      → lookup nodes (suc fuel) n id ≡ lookup nodes fuel m id
  unfolding lookup
  lookup_forward c m h k = ground arith

-- The hop that a forwarded lookup takes: a known node, strictly inside the arc to the identifier.
pub record Hop (nodes : Nodes) (n : ChordNode) (id : ℕ) (m : ChordNode) : Type 0 where
  pub index : ℕ
  pub chosen : LastPreceding n id index (closest_preceding_node n id)
  pub known : IsKnown nodes (closest_preceding_node n id) m
  pub closer : clockwise m.id id < clockwise n.id id

module _ (nodes : Nodes) (linked : IsLinked nodes) (id : ℕ) (hid : id < ring_size) where
  pub onward-Hop :
      (a : Bytes) (n : ChordNode)
      → nodes a ≡ some n
      → bytes_eq (closest_preceding_node n id).address n.address ≡ false
      → (m : ChordNode) × Hop nodes n id m
  onward-Hop a n at far = elim (closest_preceding_exact n id) [
    | inl (here, _) ↦ cc (here, bytes_eq_refl n.address)
    | inr (i, l) ↦
        let (m, k) =
          linked.fingers_known a n i (closest_preceding_node n id) at l.below l.precedes.is_set in
        (
          m,
          record {
            index = i;
            chosen = l;
            known = k;
            closer = rw k.same_id (
                inside_closer _ n.id id (rw (← k.same_id) (linked.bounded _ m k.present))
                  (linked.bounded a n at) hid l.precedes.inside);
          },
        )
  ]

  -- With more fuel than the clockwise distance to the identifier, a lookup returns a known node.
  pub lookup_total :
      (fuel : ℕ) (a : Bytes) (n : ChordNode)
      → nodes a ≡ some n
      → clockwise n.id id < fuel
      → (r : NodeRef) × (m : ChordNode) × (lookup nodes fuel n id ≡ some r) × IsKnown nodes r m
  lookup_total zero a n at lt = absurd (omega arith)
  lookup_total (suc fuel) a n at lt =
      let (s, sm, es, ks) = linked.has_successor a n at in
      elim (route-Routed n s id es) [
        | alone same e ↦ (
          self n,
          n,
          lookup_answer nodes fuel n id (self n) e,
          record { present = ap nodes (linked.addressed a n at) ∙ at; same_id = refl },
        )
        | owned _ _ e ↦ (s, sm, lookup_answer nodes fuel n id s e, ks)
        | stuck _ _ _ e ↦ (s, sm, lookup_answer nodes fuel n id s e, ks)
        | onward _ _ far e ↦
            let (m, hop) = onward-Hop a n at far in
            let (r, rm, er, kr) =
              lookup_total fuel _ m hop.known.present (omega (arith, hop.closer)) in
            (r, rm, lookup_forward nodes fuel n id _ m e hop.known.present ∙ er, kr)
      ]
