-- ===== src/Overlay/Sound.antt =====
-- What the nodes and the messages of a ring name: that it is there, and that it has its identifier.
use mathlib.Core.Option.{some-injective}
use peer_store.Prelude.{
  ℕ, ◌≡◌, refl, subst, ◌∙◌, inl, inr, true, false, some, List, [], ◌∷◌, All, All-append, Bool-cases,
  Bytes, bytes_eq, bytes_eq_iff,
}
use peer_store.Host.{Host}
use peer_store.Ring.BigInt.{set_bytes, big_bytes, set_bytes-big_bytes}
use peer_store.Chord.{NodeRef, ChordNode, hash_to_node_id}
use peer_store.Chord.Lookup.{Nodes}
use peer_store.Overlay.{
  Mail, asking_predecessor, predecessor_is, notifying, searching, found, target, Overlay, put, act,
}

abbrev pub IsPresent : Nodes → Bytes → Type 0
IsPresent nodes a = (n : ChordNode) × (nodes a ≡ some n)

module _ (h : Host) where
  -- The pointer names a node that is there, with the identifier that its address hashes to.
  abbrev pub IsNamed : Nodes → NodeRef → Type 0
  IsNamed nodes r = (r.id ≡ hash_to_node_id h r.address) × IsPresent nodes r.address

  abbrev pub IsNamedSent : Nodes → Bytes → Bytes → Type 0
  IsNamedSent nodes node_id node_addr =
      IsNamed nodes (record { id = set_bytes node_id; address = node_addr })

  pub record IsNode (nodes : Nodes) (a : Bytes) (n : ChordNode) : Type 0 where
    pub addressed : n.address ≡ a
    pub hashed : n.id ≡ hash_to_node_id h a
    pub next : (s : NodeRef) × (n.successor ≡ some s) × IsNamed nodes s
    pub previous : (p : NodeRef) → n.predecessor ≡ some p → IsNamed nodes p
    pub fingers : (i : ℕ) (f : NodeRef) → n.fingers i ≡ some f → IsNamed nodes f

  -- Whoever is to act on the message is there, and so is the node that it names.
  abbrev pub IsTrue : Nodes → Mail → Type 0
  IsTrue nodes (asking_predecessor to from) = IsPresent nodes to × IsPresent nodes from
  IsTrue nodes (predecessor_is to from node_id node_addr has_pred) =
      IsPresent nodes to × (has_pred ≡ true → IsNamedSent nodes node_id node_addr)
  IsTrue nodes (notifying to node_id node_addr) =
      IsPresent nodes to × IsNamedSent nodes node_id node_addr
  IsTrue nodes (searching to origin i id) = IsPresent nodes to × IsPresent nodes origin
  IsTrue nodes (found to i node_id node_addr) =
      IsPresent nodes to × IsNamedSent nodes node_id node_addr

  pub record IsSound (o : Overlay) : Type 0 where
    pub nodes : (a : Bytes) (n : ChordNode) → o.nodes a ≡ some n → IsNode o.nodes a n
    pub mail : All (IsTrue o.nodes) o.mail

  -- A pointer that is sent by its bytes names what it named.
  pub named_sent :
      (nodes : Nodes) (r : NodeRef) → IsNamed nodes r → IsNamedSent nodes (big_bytes r.id) r.address
  named_sent nodes r (e, p) = (set_bytes-big_bytes r.id ∙ e, p)

  pub IsTrue-target : (nodes : Nodes) (m : Mail) → IsTrue nodes m → IsPresent nodes (target m)
  IsTrue-target nodes (asking_predecessor to from) t = t.0
  IsTrue-target nodes (predecessor_is to from node_id node_addr has_pred) t = t.0
  IsTrue-target nodes (notifying to node_id node_addr) t = t.0
  IsTrue-target nodes (searching to origin i id) t = t.0
  IsTrue-target nodes (found to i node_id node_addr) t = t.0

  -- A node that comes in or changes takes nothing away from what the others name.
  module _ (nodes : Nodes) (a : Bytes) (n : ChordNode) where
    pub put_here : put a n nodes a ≡ some n
    unfolding put
    put_here = rw ((bytes_eq_iff a a).1 refl) refl

    pub put_stays : (b : Bytes) → IsPresent nodes b → IsPresent (put a n nodes) b
    unfolding put
    put_stays b (m, at) = elim (Bool-cases (bytes_eq b a)) [
      | inl same ↦ (n, rw same refl)
      | inr other ↦ (m, rw other at)
    ]

    pub put_other : (b : Bytes) → bytes_eq b a ≡ false → put a n nodes b ≡ nodes b
    unfolding put
    put_other b other = rw other refl

    pub IsNamed-stays : (r : NodeRef) → IsNamed nodes r → IsNamed (put a n nodes) r
    IsNamed-stays r (e, p) = (e, put_stays r.address p)

    pub IsNode-stays : (b : Bytes) (m : ChordNode) → IsNode nodes b m → IsNode (put a n nodes) b m
    IsNode-stays b m k = record {
      addressed = k.addressed;
      hashed = k.hashed;
      next = (k.next.0, k.next.1, IsNamed-stays k.next.0 k.next.2);
      previous = λ p e. IsNamed-stays p (k.previous p e);
      fingers = λ i f e. IsNamed-stays f (k.fingers i f e);
    }

    pub IsTrue-stays : (m : Mail) → IsTrue nodes m → IsTrue (put a n nodes) m
    IsTrue-stays (asking_predecessor to from) (t, f) = (put_stays to t, put_stays from f)
    IsTrue-stays (predecessor_is to from node_id node_addr has_pred) (t, f) =
        (put_stays to t, λ e. IsNamed-stays _ (f e))
    IsTrue-stays (notifying to node_id node_addr) (t, f) = (put_stays to t, IsNamed-stays _ f)
    IsTrue-stays (searching to origin i id) (t, f) = (put_stays to t, put_stays origin f)
    IsTrue-stays (found to i node_id node_addr) (t, f) = (put_stays to t, IsNamed-stays _ f)

    pub All-stays : (ms : List Mail) → All (IsTrue nodes) ms → All (IsTrue (put a n nodes)) ms
    All-stays [] ts = tt
    All-stays (m ∷ ms) (t, ts) = (IsTrue-stays m t, All-stays ms ts)

    put_cases :
        (b : Bytes) (m : ChordNode)
        → IsNode (put a n nodes) a n
        → ((m : ChordNode) → nodes b ≡ some m → IsNode nodes b m)
        → put a n nodes b ≡ some m
        → IsNode (put a n nodes) b m
    unfolding put
    put_cases b m new old at = elim (Bool-cases (bytes_eq b a)) [
      | inl same ↦
          subst (IsNode (put a n nodes) b) (some-injective _ _ (rw same at at))
            (rw ((bytes_eq_iff b a).0 same) new)
      | inr other ↦ IsNode-stays b m (old m (rw other at at))
    ]

  -- A step of one node keeps the ring sound where the node and what it sends are.
  pub act-IsSound :
      (o : Overlay) (a : Bytes) (n : ChordNode) (out : List Mail)
      → IsSound o
      → IsNode (put a n o.nodes) a n
      → All (IsTrue (put a n o.nodes)) out
      → IsSound (act a n out o)
  act-IsSound o a n out sound k ts = record {
    nodes = λ b m at. put_cases o.nodes a n b m k (sound.nodes b) at;
    mail =
        All-append (IsTrue (put a n o.nodes)) o.mail out (All-stays o.nodes a n o.mail sound.mail)
          ts;
  }
