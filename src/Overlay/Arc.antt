-- ===== src/Overlay/Arc.antt =====
-- While a ring is maintained, successors only come closer.
use mathlib.Core.Option.{some-injective}
use peer_store.Prelude.{
  ℕ, ◌<◌, ◌≤◌, ◌≡◌, refl, sym, ap, subst, ◌∙◌, inl, inr, Bool, true, false, none, some, Bool-cases,
  Bytes, bytes_eq, bytes_eq_iff, arith, if◌then◌else◌,
}
use peer_store.Host.{Host, HostLaws}
use peer_store.Ring.{ring_size, clockwise, is_between, finger_id}
use peer_store.Ring.Between.{inside_adds}
use peer_store.Ring.BigInt.{set_bytes}
use peer_store.Chord.{NodeRef, ChordNode, Route, answer, forward, route, hash_to_node_id}
use peer_store.Chord.Lookup.{Nodes}
use peer_store.Chord.Stabilize.{
  is_alone, accepts, notify, improves, handle_message_notify, handle_get_predecessor_response,
}
use peer_store.Overlay.{
  Mail, asking_predecessor, predecessor_is, notifying, searching, found, target, Overlay, put,
  receive, fixed_from, fixing, Step, stabilized, finger_fixed, predecessor_dropped, joined,
  delivered, lost, Leads, start, later, Reach,
}
use peer_store.Overlay.Sound.{IsNamed, IsNamedSent, IsNode, IsTrue, IsSound, put_here, put_other}
use peer_store.Overlay.Reachable.{Reach-IsSound, Leads-IsSound, hash_in_range, fewer-IsSound}

-- How far a node is from its successor, clockwise; a node that is its own successor has the whole
-- ring before it.
abbrev pub arc_to : ChordNode → NodeRef → ℕ
arc_to n s = if bytes_eq s.address n.address then ring_size else clockwise n.id s.id

abbrev pub arc : ChordNode → ℕ
arc n = elim n.successor [ none ↦ ring_size | some s ↦ arc_to n s ]

arc_to_le : (n : ChordNode) (s : NodeRef) → arc_to n s ≤ ring_size
arc_to_le n s = ground arith

-- A node that is its own successor.
alone_arc :
    (n : ChordNode) (s : NodeRef) → n.successor ≡ some s → is_alone n ≡ true → arc n ≡ ring_size
unfolding is_alone
alone_arc n s es single = ground arith

pub arc-some : (n : ChordNode) (s : NodeRef) → n.successor ≡ some s → arc n ≡ arc_to n s
arc-some n s es = ground arith

module _ (h : Host) (laws : HostLaws h) (nodes : Nodes) where
  arc-notify :
      (a : Bytes) (n : ChordNode) (r : NodeRef) → IsNode h nodes a n → arc (notify n r).0 ≤ arc n
  unfolding notify
  arc-notify a n r k =
      let (s, es, ks) = k.next in
      elim (Bool-cases (accepts n r)) [
        | inl taken ↦ elim (Bool-cases (is_alone n)) [
          | inl single ↦ rw (taken, single) (omega (arith, alone_arc n s es single, arc_to_le n r))
          | inr more ↦ rw (taken, more) (omega arith)
        ]
        | inr left ↦ rw left (omega arith)
      ]

  in_range : (a : Bytes) (i : ℕ) → i ≡ hash_to_node_id h a → i < ring_size
  in_range a i e = rw e (hash_in_range h laws a)

  -- A node that is taken for a new successor stands at another address, since its identifier differs.
  pub strictly_closer :
      (a : Bytes) (n : ChordNode) (s r : NodeRef)
      → IsNode h nodes a n
      → IsNamed h nodes s
      → IsNamed h nodes r
      → bytes_eq s.address n.address ≡ false
      → is_between r.id n.id s.id false ≡ true
      → arc_to n r < arc_to n s
  strictly_closer a n s r k named_s named_r other inside =
      let (far, near) =
        inside_adds r.id n.id s.id (in_range r.address r.id named_r.0) (in_range a n.id k.hashed)
          (in_range s.address s.id named_s.0) inside in
      elim (Bool-cases (bytes_eq r.address n.address)) [
        | inl here ↦
            let e : r.address ≡ a = (bytes_eq_iff r.address n.address).0 here ∙ k.addressed in
            let same : r.id ≡ n.id = named_r.0 ∙ ap (hash_to_node_id h) e ∙ sym k.hashed in
            absurd (omega (arith, far, same))
        | inr away ↦ rw (other, away) near
      ]

  closer_arc :
      (a : Bytes) (n : ChordNode) (s r : NodeRef)
      → IsNode h nodes a n
      → IsNamed h nodes s
      → IsNamed h nodes r
      → is_between r.id n.id s.id false ≡ true
      → arc_to n r ≤ arc_to n s
  closer_arc a n s r k named_s named_r inside = elim (Bool-cases (bytes_eq s.address n.address)) [
    | inl own ↦ rw own (arc_to_le n r)
    | inr other ↦ omega (arith, strictly_closer a n s r k named_s named_r other inside)
  ]

  response_arc :
      (a : Bytes) (n : ChordNode) (from node_id node_addr : Bytes) (has_pred : Bool)
      → IsNode h nodes a n
      → (has_pred ≡ true → IsNamedSent h nodes node_id node_addr)
      → arc (handle_get_predecessor_response n from node_id node_addr has_pred) ≤ arc n
  unfolding handle_get_predecessor_response
  response_arc a n from node_id node_addr false k named = omega arith
  response_arc a n from node_id node_addr true k named =
      let (s, es, ks) = k.next in
      let r : NodeRef = record { id = set_bytes node_id; address = node_addr } in
      elim (Bool-cases (improves n from r)) [
        | inl better ↦
            let inside : is_between r.id n.id s.id false ≡ true = ground arith in
            rw better (omega (arith, arc-some n s es, closer_arc a n s r k ks (named refl) inside))
        | inr worse ↦ rw worse (omega arith)
      ]

  arc-receive :
      (a : Bytes) (n : ChordNode) (m : Mail)
      → IsNode h nodes a n
      → IsTrue h nodes m
      → arc (receive n m).0 ≤ arc n
  unfolding receive
  arc-receive a n (asking_predecessor to from) k t = omega arith
  arc-receive a n (predecessor_is to from node_id node_addr has_pred) k t =
      response_arc a n from node_id node_addr has_pred k t.1
  arc-receive a n (notifying to node_id node_addr) k t =
      unfold handle_message_notify in arc-notify a n _ k
  arc-receive a n (searching to origin i id) k t = omega arith
  arc-receive a n (found to i node_id node_addr) k t = omega arith

fixed_arc : (n : ChordNode) (i : ℕ) (r : Route) → arc (fixed_from n i r).0 ≡ arc n
fixed_arc n i (answer r) = refl
fixed_arc n i (forward c) = refl

-- Every node is still there, and its successor is not farther.
abbrev pub Closer : Nodes → Nodes → Type 0
Closer before after =
    (b : Bytes) (n : ChordNode)
    → before b ≡ some n
    → (m : ChordNode) × (after b ≡ some m) × (arc m ≤ arc n)

module _ (h : Host) where
  put-Closer :
      (nodes : Nodes) (a : Bytes) (n m : ChordNode)
      → nodes a ≡ some n
      → arc m ≤ arc n
      → Closer nodes (put a m nodes)
  put-Closer nodes a n m at le b x bt = elim (Bool-cases (bytes_eq b a)) [
    | inl same ↦
        let e : b ≡ a = (bytes_eq_iff b a).0 same in
        let old : n ≡ x = some-injective _ _ (sym at ∙ ap nodes (sym e) ∙ bt) in
        (m, ap (put a m nodes) e ∙ put_here h nodes a m, subst (λ y. arc m ≤ arc y) old le)
    | inr other ↦ (x, put_other h nodes a m b other ∙ bt, omega arith)
  ]

  new-Closer :
      (nodes : Nodes) (a : Bytes) (m : ChordNode) → nodes a ≡ none → Closer nodes (put a m nodes)
  new-Closer nodes a m free b x bt = elim (Bool-cases (bytes_eq b a)) [
    | inl same ↦ cc (ap nodes ((bytes_eq_iff b a).0 same), free, bt)
    | inr other ↦ (x, put_other h nodes a m b other ∙ bt, omega arith)
  ]

  module _ (laws : HostLaws h) where
    Step-Closer : {o p : Overlay} → Step h o p → IsSound h o → Closer o.nodes p.nodes
    unfolding fixing
    Step-Closer {o} (stabilized a n connected at) sound = put-Closer o.nodes a n n at (omega arith)
    Step-Closer {o} (finger_fixed a n i at lt) sound =
        put-Closer o.nodes a n _ at (omega (arith, fixed_arc n i (route n (finger_id n.id i))))
    Step-Closer {o} (predecessor_dropped a n at) sound = put-Closer o.nodes a n _ at (omega arith)
    Step-Closer {o} (joined a remote n new at) sound = new-Closer o.nodes a _ new
    Step-Closer {o} (delivered before after m n e at) sound = put-Closer o.nodes (target m) n _ at (
        arc-receive h laws o.nodes (target m) n m (sound.nodes (target m) n at)
          (fewer-IsSound h o before after m e sound).0)
    Step-Closer (lost before after m e) sound = λ b n at. (n, at, omega arith)

    Leads-Closer : {o p : Overlay} → Leads h o p → IsSound h o → Closer o.nodes p.nodes
    Leads-Closer start sound b n at = (n, at, omega arith)
    Leads-Closer (later r step) sound b n at =
        let (m, mt, le) = Leads-Closer r sound b n at in
        let (x, xt, le') = Step-Closer step (Leads-IsSound h r sound) b m mt in
        (x, xt, omega (arith, le, le'))

    -- On a host that keeps its laws, whatever the ring that the node at `a` has created has become, and
    -- whatever it becomes from there, by any steps and with the messages in any order: no node is
    -- lost, and the arc from a node to its successor, the whole ring where the node is its own
    -- successor, never gets longer.
    pub successors_come_closer :
        (a : Bytes) (o p : Overlay) (b : Bytes) (n : ChordNode)
        → Reach h a o
        → Leads h o p
        → o.nodes b ≡ some n
        → (m : ChordNode) × (p.nodes b ≡ some m) × (arc m ≤ arc n)
    successors_come_closer a o p b n reached on at =
        Leads-Closer on (Reach-IsSound h a o reached) b n at
