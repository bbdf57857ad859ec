-- ===== src/Overlay/Settled.antt =====
-- What a round of stabilize does to the node and to its successor: the node takes the predecessor that
-- its successor has named, where that one is nearer, and the successor has been notified.
use peer_store.Prelude.{
  ℕ, ◌<◌, ◌≡◌, refl, ap, ◌∙◌, true, false, Bool, Option, none, some, List, [], ◌∷◌, Bytes, bytes_eq,
  bytes_eq_iff, bytes_eq_sym, arith,
}
use peer_store.Host.{Host, HostLaws}
use peer_store.Ring.{is_between}
use peer_store.Ring.BigInt.{set_bytes, big_bytes, set_bytes-big_bytes}
use peer_store.Chord.{NodeRef, ChordNode}
use peer_store.Chord.Lookup.{Nodes}
use peer_store.Chord.Stabilize.{
  is_alone, notify, handle_message_notify, handle_get_predecessor_response, improves,
}
use peer_store.Overlay.{
  Mail, target, asking_predecessor, own_notify, say_predecessor, put, receive, stabilizing,
}
use peer_store.Overlay.Sound.{IsNamed, IsNode, put_here, put_other}
use peer_store.Overlay.Arc.{arc, arc_to, arc-some, strictly_closer}
use peer_store.Overlay.Round.{arrive_all, round, arrive_lem, round_lem}

asks :
    (connected : Bytes → Bool) (n : ChordNode) (s : NodeRef)
    → n.successor ≡ some s
    → bytes_eq s.address n.address ≡ false
    → connected s.address ≡ true
    → stabilizing connected n ≡ asking_predecessor s.address n.address ∷ own_notify n s.address ∷ []
unfolding stabilizing is_alone
asks connected n s e other met = ground arith

-- The node as its notification names it.
abbrev pub greeter : ChordNode → NodeRef
greeter n = record { id = set_bytes (big_bytes n.id); address = n.address }

-- The node once it has its successor's answer.
abbrev pub told : ChordNode → ChordNode → ChordNode
told n m = (receive n (say_predecessor n.address m.address m.predecessor)).0

say_predecessor-target :
    (to from : Bytes) (p : Option NodeRef) → target (say_predecessor to from p) ≡ to
say_predecessor-target to from none = refl
say_predecessor-target to from (some p) = refl

-- A round at `n`, which is not alone, has a connection under its successor's address, and finds the
-- node `m` there.
module _ (h : Host) (connected : Bytes → Bool) (nodes : Nodes) (n m : ChordNode) (s : NodeRef)
    (at : nodes n.address ≡ some n) (next : n.successor ≡ some s)
    (other : bytes_eq s.address n.address ≡ false) (met : connected s.address ≡ true)
    (there : nodes s.address ≡ some m) where
  abbrev asked : Nodes
  asked = put s.address m (put n.address n nodes)

  abbrev greeted : Nodes
  greeted = put s.address (notify m (greeter n)).0 asked

  abbrev answered : Nodes
  answered = put n.address (told n m) greeted

  away : bytes_eq n.address s.address ≡ false
  away = bytes_eq_sym n.address s.address ∙ other

  answers :
      (p : Option NodeRef)
      → (arrive_all (say_predecessor n.address m.address p ∷ []) greeted).0
        ≡ put n.address (receive n (say_predecessor n.address m.address p)).0 greeted
  unfolding arrive_all
  answers p =
      let here : greeted n.address ≡ some n =
        put_other h asked s.address _ n.address away
        ∙ put_other h (put n.address n nodes) s.address m n.address away
        ∙ put_here h nodes n.address n in
      let answer = say_predecessor n.address m.address p in
      let goes = say_predecessor-target n.address m.address p in
      ap (λ (x : Nodes × List Mail). x.0) (arrive_lem answer greeted n (ap greeted goes ∙ here))
      ∙ ap (λ (a : Bytes). put a (receive n answer).0 greeted) goes

  asks_both :
      arrive_all
        (asking_predecessor s.address n.address ∷ own_notify n s.address ∷ [])
        (put n.address n nodes)
      ≡ (greeted, say_predecessor n.address m.address m.predecessor ∷ [])
  unfolding arrive_all receive handle_message_notify
  asks_both =
      let first =
        arrive_lem (asking_predecessor s.address n.address) (put n.address n nodes) m
          (put_other h nodes n.address n s.address other ∙ there) in
      let second =
        arrive_lem (own_notify n s.address) asked m
          (put_here h (put n.address n nodes) s.address m) in
      rw (first, second) refl

  pub round-answered : round connected n.address nodes ≡ answered
  round-answered =
      round_lem connected n.address nodes n at
      ∙ ap
          (λ (l : List Mail).
            (arrive_all (arrive_all l (put n.address n nodes)).1
              (arrive_all l (put n.address n nodes)).0).0)
          (asks connected n s next other met)
      ∙ ap (λ (x : Nodes × List Mail). (arrive_all x.1 x.0).0) asks_both
      ∙ answers m.predecessor

  pub after_here : round connected n.address nodes n.address ≡ some (told n m)
  after_here =
      ap (λ (x : Nodes). x n.address) round-answered ∙ put_here h greeted n.address (told n m)

  pub after_there : round connected n.address nodes s.address ≡ some (notify m (greeter n)).0
  after_there =
      ap (λ (x : Nodes). x s.address) round-answered
      ∙ put_other h greeted n.address (told n m) s.address other
      ∙ put_here h asked s.address _

-- The answer of the successor `m`.
module _ (n m : ChordNode) (s : NodeRef) (next : n.successor ≡ some s)
    (same : m.address ≡ s.address) where
  -- The node that the successor has named becomes the successor.
  abbrev pub adopted : NodeRef → ChordNode
  adopted q = record n {
    successor = some (record { id = set_bytes (big_bytes q.id); address = q.address });
  }

  from_successor : bytes_eq m.address s.address ≡ true
  from_successor = (bytes_eq_iff m.address s.address).1 same

  sent_between :
      (q : NodeRef) (v : Bool)
      → is_between q.id n.id s.id false ≡ v
      → is_between (set_bytes (big_bytes q.id)) n.id s.id false ≡ v
  sent_between q v e = ap (λ (i : ℕ). is_between i n.id s.id false) (set_bytes-big_bytes q.id) ∙ e

  pub adopts :
      (q : NodeRef)
      → m.predecessor ≡ some q
      → is_between q.id n.id s.id false ≡ true
      → told n m ≡ adopted q
  unfolding receive handle_get_predecessor_response improves
  adopts q previous inside =
      rw previous (ground (arith, from_successor, sent_between q true inside))

  pub keeps_nobody : m.predecessor ≡ none → told n m ≡ n
  unfolding receive handle_get_predecessor_response
  keeps_nobody nobody = rw nobody refl

  pub keeps :
      (q : NodeRef)
      → m.predecessor ≡ some q
      → is_between q.id n.id s.id false ≡ false
      → told n m ≡ n
  unfolding receive handle_get_predecessor_response improves
  keeps q previous outside =
      rw previous (ground (arith, from_successor, sent_between q false outside))

-- A node that is adopted is closer.
pub arc-adopted :
    (h : Host) (laws : HostLaws h) (nodes : Nodes) (b : Bytes) (n m : ChordNode) (s q : NodeRef)
    (next : n.successor ≡ some s) (same : m.address ≡ s.address)
    → IsNode h nodes b n
    → IsNamed h nodes s
    → IsNamed h nodes q
    → bytes_eq s.address n.address ≡ false
    → is_between q.id n.id s.id false ≡ true
    → arc (adopted n m s next same q) < arc n
arc-adopted h laws nodes b n m s q next same k named_s named_q other inside =
    let e : arc (adopted n m s next same q) ≡ arc_to n q =
      ap (λ (i : ℕ). arc_to n (record q { id = i })) (set_bytes-big_bytes q.id) in
    let lt = strictly_closer h laws nodes b n s q k named_s named_q other inside in
    omega (arith, e, arc-some n s next, lt)
