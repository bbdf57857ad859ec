-- ===== src/Overlay/Answers.antt =====
-- What one node of a sound ring becomes, and what it sends, names nodes that are there.
use mathlib.Core.Option.{some-injective}
use peer_store.Prelude.{
  ℕ, ◌≡◌, refl, subst, inl, inr, Bool, true, false, Option, none, some, List, [], ◌∷◌, All,
  Bool-cases, Bytes, arith, ◌==◌,
}
use peer_store.Host.{Host}
use peer_store.Ring.{finger_id}
use peer_store.Ring.BigInt.{set_bytes}
use peer_store.Chord.{
  NodeRef, ChordNode, self, Route, answer, forward, route, closest_preceding_node,
}
use peer_store.Chord.Closest.{closest_preceding_exact}
use peer_store.Chord.Routing.{alone, owned, stuck, onward, route-Routed}
use peer_store.Chord.Lookup.{Nodes}
use peer_store.Chord.Stabilize.{
  is_alone, accepts, notify, improves, handle_message_notify, handle_get_predecessor_response,
}
use peer_store.Node.Maintain.{set_finger}
use peer_store.Overlay.{
  Mail, asking_predecessor, predecessor_is, notifying, searching, found, own_notify, stabilizing,
  say_predecessor, search_on, receive, fixed_from, fixing,
}
use peer_store.Overlay.Sound.{IsPresent, IsNamed, IsNamedSent, IsNode, IsTrue, named_sent}

module _ (h : Host) (nodes : Nodes) where
  abbrev IsRouted : Route → Type 0
  IsRouted (answer r) = IsNamed h nodes r
  IsRouted (forward c) = IsPresent nodes c.address

  -- A node, where it stands.
  abbrev pub Stands : Bytes → ChordNode → Type 0
  Stands a n = (nodes a ≡ some n) × IsNode h nodes a n

  -- A changed node with what it sends.
  abbrev pub Goes : Bytes → ChordNode × List Mail → Type 0
  Goes a (n, out) = IsNode h nodes a n × All (IsTrue h nodes) out

  self-IsNamed : (a : Bytes) (n : ChordNode) → Stands a n → IsNamed h nodes (self n)
  self-IsNamed a n (at, k) = rw k.addressed (k.hashed, (n, at))

  closest-IsPresent :
      (a : Bytes) (n : ChordNode) (id : ℕ)
      → Stands a n
      → IsPresent nodes (closest_preceding_node n id).address
  closest-IsPresent a n id stands = elim (closest_preceding_exact n id) [
    | inl (here, _) ↦ rw here ((self-IsNamed a n stands).1)
    | inr (i, l) ↦ (stands.1.fingers i (closest_preceding_node n id) l.precedes.is_set).1
  ]

  route_named : (a : Bytes) (n : ChordNode) (id : ℕ) → Stands a n → IsRouted (route n id)
  route_named a n id stands =
      let (s, es, ks) = stands.1.next in
      elim (route-Routed n s id es) [
        | alone _ e ↦ rw e (self-IsNamed a n stands)
        | owned _ _ e ↦ rw e ks
        | stuck _ _ _ e ↦ rw e ks
        | onward _ _ _ e ↦ rw e (closest-IsPresent a n id stands)
      ]

  -- Changes of one pointer.
  module _ (a : Bytes) (n : ChordNode) (r : NodeRef) (named : IsNamed h nodes r) where
    set_finger-IsNode : (i : ℕ) → IsNode h nodes a n → IsNode h nodes a (set_finger i r n)
    set_finger-IsNode i k = record {
      addressed = k.addressed;
      hashed = k.hashed;
      next = k.next;
      previous = k.previous;
      fingers = λ j f e. elim (Bool-cases (j == i)) [
        | inl here ↦ subst (IsNamed h nodes) (some-injective _ _ (rw here at e)) named
        | inr other ↦ k.fingers j f (rw other at e)
      ];
    }

    set_successor-IsNode : IsNode h nodes a n → IsNode h nodes a (record n { successor = some r })
    set_successor-IsNode k = record {
      addressed = k.addressed;
      hashed = k.hashed;
      next = (r, refl, named);
      previous = k.previous;
      fingers = k.fingers;
    }

    set_predecessor-IsNode :
        IsNode h nodes a n → IsNode h nodes a (record n { predecessor = some r })
    set_predecessor-IsNode k = record {
      addressed = k.addressed;
      hashed = k.hashed;
      next = k.next;
      previous = λ p e. subst (IsNamed h nodes) (some-injective _ _ e) named;
      fingers = k.fingers;
    }

  pub drop_predecessor-IsNode :
      (a : Bytes) (n : ChordNode)
      → IsNode h nodes a n
      → IsNode h nodes a (record n { predecessor = none })
  drop_predecessor-IsNode a n k = record {
    addressed = k.addressed;
    hashed = k.hashed;
    next = k.next;
    previous = λ p e. cc (e);
    fingers = k.fingers;
  }

  notify-IsNode :
      (a : Bytes) (n : ChordNode) (r : NodeRef)
      → IsNamed h nodes r
      → IsNode h nodes a n
      → IsNode h nodes a (notify n r).0
  unfolding notify
  notify-IsNode a n r named k = elim (Bool-cases (accepts n r)) [
    | inl taken ↦ elim (Bool-cases (is_alone n)) [
      | inl single ↦
          rw (taken, single)
            (set_successor-IsNode a _ r named (set_predecessor-IsNode a n r named k))
      | inr more ↦ rw (taken, more) (set_predecessor-IsNode a n r named k)
    ]
    | inr left ↦ rw left k
  ]

  response-IsNode :
      (a : Bytes) (n : ChordNode) (from node_id node_addr : Bytes) (has_pred : Bool)
      → (has_pred ≡ true → IsNamedSent h nodes node_id node_addr)
      → IsNode h nodes a n
      → IsNode h nodes a (handle_get_predecessor_response n from node_id node_addr has_pred)
  unfolding handle_get_predecessor_response
  response-IsNode a n from node_id node_addr false named k = k
  response-IsNode a n from node_id node_addr true named k =
      elim (Bool-cases (improves n from (record { id = set_bytes node_id; address = node_addr }))) [
        | inl better ↦ rw better (set_successor-IsNode a n _ (named refl) k)
        | inr worse ↦ rw worse k
      ]

  say-IsTrue :
      (to a : Bytes) (p : Option NodeRef)
      → IsPresent nodes to
      → ((r : NodeRef) → p ≡ some r → IsNamed h nodes r)
      → IsTrue h nodes (say_predecessor to a p)
  say-IsTrue to a none there named = (there, λ e. cc e)
  say-IsTrue to a (some r) there named = (there, λ e. named_sent h nodes r (named r refl))

  search_on-IsTrue :
      (origin : Bytes) (i : ℕ) (id : Bytes) (r : Route)
      → IsPresent nodes origin
      → IsRouted r
      → IsTrue h nodes (search_on origin i id r)
  search_on-IsTrue origin i id (answer r) there named = (there, named_sent h nodes r named)
  search_on-IsTrue origin i id (forward c) there present = (present, there)

  -- A node that handles a message that is true stays a node of the ring, and what it sends is true.
  pub receive-Goes :
      (a : Bytes) (n : ChordNode) (m : Mail) → Stands a n → IsTrue h nodes m → Goes a (receive n m)
  unfolding receive
  receive-Goes a n (asking_predecessor to from) stands (_, there) =
      (stands.1, (say-IsTrue from n.address n.predecessor there stands.1.previous, tt))
  receive-Goes a n (predecessor_is to from node_id node_addr has_pred) stands (_, named) =
      (response-IsNode a n from node_id node_addr has_pred named stands.1, tt)
  receive-Goes a n (notifying to node_id node_addr) stands (_, named) =
      (unfold handle_message_notify in notify-IsNode a n _ named stands.1, tt)
  receive-Goes a n (searching to origin i id) stands (_, there) = (
    stands.1,
    (
      search_on-IsTrue origin i id (route n (set_bytes id)) there
          (route_named a n (set_bytes id) stands),
      tt,
    ),
  )
  receive-Goes a n (found to i node_id node_addr) stands (_, named) =
      (set_finger-IsNode a n _ named i stands.1, tt)

  fixed-Goes :
      (a : Bytes) (n : ChordNode) (i : ℕ) (r : Route)
      → Stands a n
      → IsRouted r
      → Goes a (fixed_from n i r)
  fixed-Goes a n i (answer r) stands named = (set_finger-IsNode a n r named i stands.1, tt)
  fixed-Goes a n i (forward c) stands present =
      (stands.1, ((present, (self-IsNamed a n stands).1), tt))

  pub fixing-Goes : (a : Bytes) (n : ChordNode) (i : ℕ) → Stands a n → Goes a (fixing n i)
  unfolding fixing
  fixing-Goes a n i stands =
      fixed-Goes a n i (route n (finger_id n.id i)) stands
        (route_named a n (finger_id n.id i) stands)

  own_notify-IsTrue :
      (a : Bytes) (n : ChordNode) (to : Bytes)
      → Stands a n
      → IsPresent nodes to
      → IsTrue h nodes (own_notify n to)
  own_notify-IsTrue a n to stands there =
      (there, named_sent h nodes (self n) (self-IsNamed a n stands))

  pub stabilizing-IsTrue :
      (a : Bytes) (n : ChordNode) (connected : Bytes → Bool)
      → Stands a n
      → All (IsTrue h nodes) (stabilizing connected n)
  unfolding stabilizing
  stabilizing-IsTrue a n connected stands =
      let (s, es, ks) = stands.1.next in
      elim (Bool-cases (is_alone n)) [
        | inl single ↦ rw single tt
        | inr more ↦ elim (Bool-cases (connected s.address)) [
          | inr unknown ↦ let silent : stabilizing connected n ≡ [] = ground arith in rw silent tt
          | inl met ↦
              let out : stabilizing connected n
                  ≡ asking_predecessor s.address n.address ∷ own_notify n s.address ∷ [] =
                ground arith in
              rw out (
                (ks.1, (self-IsNamed a n stands).1),
                (own_notify-IsTrue a n s.address stands ks.1, tt),
              )
        ]
      ]
