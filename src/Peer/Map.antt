-- ===== src/Peer/Map.antt =====
-- The map of peers as a map.
use peer_store.Prelude.{
  ◌≡◌, ◌∙◌, refl, ap, some, false, [], ◌∷◌, Bytes, bytes_eq, bytes_eq_refl, bytes_eq_iff,
  Bool-cases, inl, inr,
}
use peer_store.Peer.{Peer, Peers, find_peer, put_peer}

pub find_peer-put_peer :
    (a : Bytes) (p : Peer) (ps : Peers) → find_peer a (put_peer a p ps) ≡ some p
unfolding find_peer put_peer
find_peer-put_peer a p [] = rw (bytes_eq_refl a) refl
find_peer-put_peer a p ((b, q) ∷ ps) = elim (Bool-cases (bytes_eq b a)) [
  | inl e ↦ rw (e, e) refl
  | inr e ↦ rw (e, e) (find_peer-put_peer a p ps)
]

pub find_peer-put_peer_other :
    (a b : Bytes) (p : Peer) (ps : Peers)
    → bytes_eq a b ≡ false
    → find_peer b (put_peer a p ps) ≡ find_peer b ps
unfolding find_peer put_peer
find_peer-put_peer_other a b p [] other = rw other refl
find_peer-put_peer_other a b p ((c, q) ∷ ps) other = elim (Bool-cases (bytes_eq c a)) [
  | inl e ↦
      let apart : bytes_eq c b ≡ false =
        ap (λ (x : Bytes). bytes_eq x b) ((bytes_eq_iff c a).0 e) ∙ other in
      rw (e, apart) refl
  | inr e ↦ elim (Bool-cases (bytes_eq c b)) [
    | inl here ↦ rw (e, here) refl
    | inr away ↦ rw (e, away) (find_peer-put_peer_other a b p ps other)
  ]
]
