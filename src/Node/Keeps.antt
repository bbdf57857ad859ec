-- ===== src/Node/Keeps.antt =====
-- What a node of a ring does on a message leaves the identity of the node alone.
use peer_store.Prelude.{ℕ, ◌≡◌, refl, ap, none, some, Option-cases, inl, inr, Option, Bytes}
use peer_store.Result.{Exec, Result, err, not_initialized}
use peer_store.Chord.{ChordNode}
use peer_store.Peer.{find_peer}
use peer_store.Server.{Server}
use peer_store.Server.Keeps.{id_of, identity, Keeps}
use peer_store.Node.{on_node, set_node, has_peer, add_key, remove_key, take_on, let_go}

node_or_error :
    {A : Type 0} (f : ChordNode → Exec Server A) (s : Server) (o : Option ChordNode)
    → ((n : ChordNode) → o ≡ some n → identity (f n s).1 ≡ identity s)
    → identity
        (elim o as (λ _. Result A × Server) [ none ↦ (err not_initialized, s) | some n ↦ f n s ]).1
      ≡ identity s
node_or_error f s none k = refl
node_or_error f s (some n) k = k n refl

-- A method that keeps the identity of the node whose method it is.
pub method-Keeps :
    {A : Type 0} (f : ChordNode → Exec Server A)
    → ((n : ChordNode) (s : Server) → s.chord ≡ some n → identity (f n s).1 ≡ identity s)
    → Keeps (on_node f)
unfolding on_node
method-Keeps f k s = node_or_error f s s.chord (λ n here. k n s here)

pub on_node-Keeps :
    {A : Type 0} (f : ChordNode → Exec Server A)
    → ((n : ChordNode) → Keeps (f n))
    → Keeps (on_node f)
on_node-Keeps f k = method-Keeps f (λ n s here. k n s)

-- A change that keeps the node's own identifier and address.
kept_id :
    (f : ChordNode → ChordNode) (o : Option ChordNode)
    → ((n : ChordNode) → id_of (some (f n)) ≡ id_of (some n))
    → id_of (elim o [ none ↦ none | some n ↦ some (f n) ]) ≡ id_of o
kept_id f none same = refl
kept_id f (some n) same = same n

pub set_node-Keeps :
    (f : ChordNode → ChordNode)
    → ((n : ChordNode) → id_of (some (f n)) ≡ id_of (some n))
    → Keeps (set_node f)
unfolding set_node identity
set_node-Keeps f same s =
    ap (λ (x : Option (ℕ × Bytes)). (s.addr, s.store, x)) (kept_id f s.chord same)

pub take_on-Keeps : (cid : Bytes) → Keeps (take_on cid)
unfolding take_on
take_on-Keeps cid =
    set_node-Keeps (λ n. record n { responsibles = add_key cid n.responsibles }) (λ n. refl)

pub let_go-Keeps : (cid : Bytes) → Keeps (let_go cid)
unfolding let_go
let_go-Keeps cid =
    set_node-Keeps (λ n. record n { responsibles = remove_key cid n.responsibles }) (λ n. refl)

pub has_peer-Keeps : (a : Bytes) → Keeps (has_peer a)
unfolding has_peer
has_peer-Keeps a s = elim (Option-cases (find_peer a s.peers)) [
  | inl e ↦ rw (has_peer, e) refl
  | inr (p, e) ↦ rw (has_peer, e) refl
]
