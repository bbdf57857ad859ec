-- ===== src/Chord/Transfer.antt =====
-- transferResponsibilities: which files a node hands to its new predecessor.
use peer_store.Prelude.{
  Bool, true, false, none, some, List, [], ◌∷◌, ◌≡◌, ap, arith, All, if◌then◌else◌, Bytes, bytes_eq,
  Bool-cases, inl, inr,
}
use peer_store.Ring.{is_between}
use peer_store.Host.{Host}
use peer_store.Chord.{NodeRef, ChordNode, self, answer, hash_to_node_id, route}

-- The condition of the loop over `n.responsibles`.
unfoldable pub hands_over : Host → ChordNode → Bytes → Bool
hands_over h n cid = elim n.predecessor [
  | none ↦ false
  | some p ↦ is_between (hash_to_node_id h cid) p.id n.id true
]

select : Host → ChordNode → List Bytes → List Bytes
select h n [] = []
select h n (cid ∷ cids) =
    let rest = select h n cids in if hands_over h n cid then cid ∷ rest else rest

unfoldable pub files_to_transfer : Host → ChordNode → List Bytes
unfolding select hands_over
files_to_transfer h n = select h n n.responsibles

pub files_to_transfer-none :
    (h : Host) (n : ChordNode) → n.responsibles ≡ [] → files_to_transfer h n ≡ []
unfolding files_to_transfer select
files_to_transfer-none h n none_held = ap (select h n) none_held

module _ (h : Host) (n pn : ChordNode) (p : NodeRef) (pred : n.predecessor ≡ some p)
    (at : pn.id ≡ p.id) (next : pn.successor ≡ some (self n))
    (apart : bytes_eq n.address pn.address ≡ false) where
  handed_over_owned :
      (cid : Bytes) → hands_over h n cid ≡ true → route pn (hash_to_node_id h cid) ≡ answer (self n)
  unfolding hands_over route
  handed_over_owned cid yields = ground arith

  select_owned :
      (cids : List Bytes)
      → All (λ cid. route pn (hash_to_node_id h cid) ≡ answer (self n)) (select h n cids)
  unfolding select
  select_owned [] = tt
  select_owned (cid ∷ cids) = elim (Bool-cases (hands_over h n cid)) [
    | inl yields ↦ rw yields (handed_over_owned cid yields, select_owned cids)
    | inr keeps ↦ rw keeps (select_owned cids)
  ]

  -- Every file that a node hands to its predecessor is one for which the predecessor's own lookup
  -- answers with the node: the two are at different addresses, and the node is its predecessor's
  -- successor.
  pub transfers_what_it_owns :
      All (λ cid. route pn (hash_to_node_id h cid) ≡ answer (self n)) (files_to_transfer h n)
  unfolding files_to_transfer
  transfers_what_it_owns = select_owned n.responsibles
