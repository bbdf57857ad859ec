-- ===== src/Overlay/Round.antt =====
-- One run of stabilize in chord_util.go at one node, with the messages that it sends, handled by
-- handleMessageGetPredecessor and handleMessageNotify at the successor, and the answer, handled by
-- handleMessageGetPredecessorResponse at the node. Other messages stay on their way.
use peer_store.Prelude.{
  ℕ, zero, suc, ◌≡◌, refl, sym, ap, ◌∙◌, inl, inr, Bool, none, some, List, [], ◌∷◌, ◌++◌,
  append_assoc, append-nil, Bool-cases, Option-cases, Bytes, bytes_eq, bytes_eq_iff,
}
use peer_store.Host.{Host}
use peer_store.Chord.{ChordNode}
use peer_store.Chord.Lookup.{Nodes}
use peer_store.Overlay.{
  Mail, target, Overlay, put, act, receive, stabilizing, stabilized, delivered, lost, Leads, start,
  later,
}
use peer_store.Overlay.Sound.{put_other}

-- A message arrives; where no node is, it is lost.
unfoldable pub arrive : Mail → Nodes → Nodes × List Mail
arrive m nodes = elim (nodes (target m)) [
  | none ↦ (nodes, [])
  | some n ↦ (put (target m) (receive n m).0 nodes, (receive n m).1)
]

unfoldable pub arrive_all : List Mail → Nodes → Nodes × List Mail
arrive_all [] nodes = (nodes, [])
arrive_all (m ∷ ms) nodes =
    let first = arrive m nodes in let rest = arrive_all ms first.0 in (rest.0, first.1 ++ rest.1)

-- stabilize at `b`, which has connections under the addresses `connected`.
pub round : (Bytes → Bool) → Bytes → Nodes → Nodes
round connected b nodes = elim (nodes b) [
  | none ↦ nodes
  | some n ↦
      let sent = arrive_all (stabilizing connected n) (put b n nodes) in
      (arrive_all sent.1 sent.0).0
]

-- The rounds of stabilizeRoutine.
unfoldable pub rounds : (Bytes → Bool) → ℕ → Bytes → Nodes → Nodes
rounds connected zero b nodes = nodes
rounds connected (suc k) b nodes = rounds connected k b (round connected b nodes)

pub arrive_lem :
    (m : Mail) (nodes : Nodes) (n : ChordNode)
    → nodes (target m) ≡ some n
    → arrive m nodes ≡ (put (target m) (receive n m).0 nodes, (receive n m).1)
unfolding arrive
arrive_lem m nodes n at = rw (arrive, at) refl

arrive-none : (m : Mail) (nodes : Nodes) → nodes (target m) ≡ none → arrive m nodes ≡ (nodes, [])
unfolding arrive
arrive-none m nodes nobody = rw (arrive, nobody) refl

pub round_lem :
    (connected : Bytes → Bool) (b : Bytes) (nodes : Nodes) (n : ChordNode)
    → nodes b ≡ some n
    → round connected b nodes
      ≡ (arrive_all
          (arrive_all (stabilizing connected n) (put b n nodes)).1
          (arrive_all (stabilizing connected n) (put b n nodes)).0).0
unfolding round
round_lem connected b nodes n at = rw (round, at) refl

pub Leads-trans : (h : Host) {o p q : Overlay} → Leads h o p → Leads h p q → Leads h o q
Leads-trans h first start = first
Leads-trans h first (later r step) = later (Leads-trans h first r) step

-- The arrivals are steps of the ring.
module _ (h : Host) where
  abbrev Goes : Overlay → Nodes → List Mail → Type 0
  Goes o nodes mail = (p : Overlay) × Leads h o p × (p.nodes ≡ nodes) × (p.mail ≡ mail)

  arrive-Goes :
      (o : Overlay) (before after : List Mail) (m : Mail)
      → o.mail ≡ before ++ m ∷ after
      → Goes o (arrive m o.nodes).0 ((before ++ after) ++ (arrive m o.nodes).1)
  arrive-Goes o before after m e = elim (Option-cases (o.nodes (target m))) [
    | inl nobody ↦ rw (arrive-none m o.nodes nobody) (
      record o { mail = before ++ after },
      later start (lost before after m e),
      refl,
      sym (append-nil (before ++ after)),
    )
    | inr (n, at) ↦ rw (arrive_lem m o.nodes n at) (
      act (target m) (receive n m).0 (receive n m).1 (record o { mail = before ++ after }),
      later start (delivered before after m n e at),
      refl,
      refl,
    )
  ]

  regroup :
      (base ms out new : List Mail) → (base ++ (ms ++ out)) ++ new ≡ base ++ (ms ++ (out ++ new))
  regroup base ms out new = simp (append_assoc)

  arrive_all-Goes :
      (ms base out : List Mail) (o : Overlay)
      → o.mail ≡ base ++ (ms ++ out)
      → Goes o (arrive_all ms o.nodes).0 (base ++ (out ++ (arrive_all ms o.nodes).1))
  unfolding arrive_all
  arrive_all-Goes [] base out o e =
      (o, start, refl, e ∙ ap (λ (l : List Mail). base ++ l) (sym (append-nil out)))
  arrive_all-Goes (m ∷ ms) base out o e =
      let (p, on, ep, em) = arrive-Goes o base (ms ++ out) m e in
      let new = (arrive m o.nodes).1 in
      let (q, on', eq, em') =
        arrive_all-Goes ms base (out ++ new) p (em ∙ regroup base ms out new) in
      (
        q,
        Leads-trans h on on',
        eq ∙ ap (λ (x : Nodes). (arrive_all ms x).0) ep,
        em'
            ∙ ap (λ (x : Nodes). base ++ ((out ++ new) ++ (arrive_all ms x).1)) ep
            ∙ ap (λ (l : List Mail). base ++ l) (append_assoc out new _),
      )

  -- A round is made of steps of the ring.
  pub round-Leads :
      (connected : Bytes → Bool) (b : Bytes) (o : Overlay) (n : ChordNode)
      → o.nodes b ≡ some n
      → (p : Overlay) × Leads h o p × (p.nodes ≡ round connected b o.nodes)
  round-Leads connected b o n at =
      let sent = stabilizing connected n in
      let asked = act b n sent o in
      let (p, on, ep, em) =
        arrive_all-Goes sent o.mail [] asked
          (ap (λ (l : List Mail). o.mail ++ l) (sym (append-nil sent))) in
      let answers = (arrive_all sent asked.nodes).1 in
      let (q, on', eq, _) =
        arrive_all-Goes answers o.mail [] p
          (em ∙ ap (λ (l : List Mail). o.mail ++ l) (sym (append-nil answers))) in
      (
        q,
        Leads-trans h (later start (stabilized b n connected at)) (Leads-trans h on on'),
        eq
            ∙ ap (λ (x : Nodes). (arrive_all answers x).0) ep
            ∙ sym (round_lem connected b o.nodes n at),
      )

-- No node appears in a round.
module _ (h : Host) (c : Bytes) where
  abbrev IsThere : Nodes → Type 0
  IsThere nodes = (n : ChordNode) × (nodes c ≡ some n)

  put_was :
      (nodes : Nodes) (a : Bytes) (n m : ChordNode)
      → nodes a ≡ some n
      → IsThere (put a m nodes)
      → IsThere nodes
  put_was nodes a n m at (x, there) = elim (Bool-cases (bytes_eq c a)) [
    | inl same ↦ (n, ap nodes ((bytes_eq_iff c a).0 same) ∙ at)
    | inr other ↦ (x, sym (put_other h nodes a m c other) ∙ there)
  ]

  arrive_was : (m : Mail) (nodes : Nodes) → IsThere (arrive m nodes).0 → IsThere nodes
  arrive_was m nodes there = elim (Option-cases (nodes (target m))) [
    | inl nobody ↦ (
      there.0,
      ap (λ (x : Nodes × List Mail). x.0 c) (sym (arrive-none m nodes nobody)) ∙ there.1,
    )
    | inr (n, at) ↦
        put_was nodes (target m) n _ at
          (there.0, ap (λ (x : Nodes × List Mail). x.0 c) (sym (arrive_lem m nodes n at)) ∙ there.1)
  ]

  arrive_all_was :
      (ms : List Mail) (nodes : Nodes) → IsThere (arrive_all ms nodes).0 → IsThere nodes
  unfolding arrive_all
  arrive_all_was [] nodes there = there
  arrive_all_was (m ∷ ms) nodes there =
      arrive_was m nodes (arrive_all_was ms (arrive m nodes).0 there)

  pub round_was :
      (connected : Bytes → Bool) (b : Bytes) (nodes : Nodes) (n : ChordNode)
      → nodes b ≡ some n
      → IsThere (round connected b nodes)
      → IsThere nodes
  round_was connected b nodes n at there =
      let sent = arrive_all (stabilizing connected n) (put b n nodes) in
      put_was nodes b n n at (
        arrive_all_was (stabilizing connected n) (put b n nodes) (
          arrive_all_was sent.1 sent.0
            (there.0, ap (λ (x : Nodes). x c) (sym (round_lem connected b nodes n at)) ∙ there.1)))
