-- ===== src/Overlay/Placed.antt =====
-- A node that stabilizes is taken for the predecessor of its successor.
use mathlib.Core.Option.{some-injective}
use peer_store.Prelude.{
  ℕ, zero, suc, ◌<◌, ◌≤◌, ◌≡◌, ◌⊎◌, refl, sym, ap, subst, ◌∙◌, inl, inr, true, false, Bool, some,
  Bool-cases, Option-cases, Bytes, bytes_eq, bytes_eq_iff, arith,
}
use peer_store.Host.{Host, HostLaws}
use peer_store.Ring.{is_between}
use peer_store.Ring.BigInt.{set_bytes-big_bytes}
use peer_store.Chord.{NodeRef, ChordNode}
use peer_store.Chord.Lookup.{Nodes}
use peer_store.Chord.Stabilize.{accepts, notify}
use peer_store.Overlay.{Overlay, Leads, start, Reach}
use peer_store.Overlay.Sound.{IsNamed, IsSound}
use peer_store.Overlay.Reachable.{Leads-IsSound, Reach-IsSound}
use peer_store.Overlay.Arc.{arc}
use peer_store.Overlay.Round.{round, rounds, Leads-trans, round-Leads, round_was}
use peer_store.Overlay.Settled.{
  greeter, told, after_here, after_there, adopted, adopts, keeps, keeps_nobody, arc-adopted,
}

-- Whoever is the predecessor after notify: the node that has notified, or the one before, where the
-- other is not nearer.
module _ (m : ChordNode) (r : NodeRef) where
  abbrev Follows : NodeRef → Type 0
  Follows q = (q ≡ r) ⊎ ((m.predecessor ≡ some q) × (is_between r.id q.id m.id false ≡ false))

  notified : (q : NodeRef) × ((notify m r).0.predecessor ≡ some q) × Follows q
  unfolding notify accepts
  notified = elim (Option-cases m.predecessor) [
    | inl nobody ↦ (r, ground arith, inl refl)
    | inr (q, e) ↦ elim (Bool-cases (is_between r.id q.id m.id false)) [
      | inl nearer ↦ (r, ground arith, inl refl)
      | inr farther ↦ (q, ground arith, inr (e, farther))
    ]
  ]

-- Neither of two places lies strictly between the other and a third.
beside_each :
    (q n s : ℕ)
    → is_between q n s false ≡ false
    → is_between n q s false ≡ false
    → (q ≡ n) ⊎ (q ≡ s) ⊎ (n ≡ s)
unfolding is_between
beside_each q n s out out' = ground arith

-- The node at `b` stands right before its successor: it is its own successor, or its successor has it
-- for its predecessor, by the identifier. Identifiers of two nodes may be equal.
pub data IsPlaced (nodes : Nodes) (b : Bytes) : Type 0 where
  own :
      (n : ChordNode) (s : NodeRef)
      → nodes b ≡ some n
      → n.successor ≡ some s
      → s.address ≡ n.address
      → IsPlaced nodes b
  before :
      (n m : ChordNode) (s q : NodeRef)
      → nodes b ≡ some n
      → n.successor ≡ some s
      → nodes s.address ≡ some m
      → m.predecessor ≡ some q
      → (q.id ≡ n.id) ⊎ (q.id ≡ s.id) ⊎ (n.id ≡ s.id)
      → IsPlaced nodes b

-- The node `n` and its successor `m` after a round in which nobody between the two was found.
module _ (nodes : Nodes) (n m : ChordNode) (s : NodeRef) where
  greeted-IsPlaced :
      nodes n.address ≡ some n
      → n.successor ≡ some s
      → nodes s.address ≡ some (notify m (greeter n)).0
      → m.id ≡ s.id
      → ((q : NodeRef) → m.predecessor ≡ some q → is_between q.id n.id s.id false ≡ false)
      → IsPlaced nodes n.address
  greeted-IsPlaced at next there same none_between =
      let (q, has, follows) = notified m (greeter n) in
      let sent = set_bytes-big_bytes n.id in
      let beside_it : (q.id ≡ n.id) ⊎ (q.id ≡ s.id) ⊎ (n.id ≡ s.id) = elim follows [
        | inl is_it ↦ inl (ap (λ (x : NodeRef). x.id) is_it ∙ sent)
        | inr (e, out) ↦ beside_each q.id n.id s.id (none_between q e) (
            ap (λ (i : ℕ). is_between i q.id s.id false) (sym sent)
            ∙ ap (λ (i : ℕ). is_between (greeter n).id q.id i false) (sym same)
            ∙ out)
      ] in
      before n (notify m (greeter n)).0 s q at next there has beside_it

module _ (h : Host) (laws : HostLaws h) (connected : Bytes → Bool) where
  -- A connection under the address of every node that is there.
  abbrev pub IsConnected : Nodes → Type 0
  IsConnected nodes = (c : Bytes) (x : ChordNode) → nodes c ≡ some x → connected c ≡ true

  -- A round at a node of a sound ring that is not alone: it is in its place then, or closer to its
  -- successor.
  module _ (o : Overlay) (n m : ChordNode) (s : NodeRef) (sound : IsSound h o)
      (met : IsConnected o.nodes) (at : o.nodes n.address ≡ some n) (next : n.successor ≡ some s)
      (named : IsNamed h o.nodes s) (other : bytes_eq s.address n.address ≡ false)
      (there : o.nodes s.address ≡ some m) where
    abbrev After : Nodes
    After = round connected n.address o.nodes

    abbrev Progress : Type 0
    Progress =
        IsPlaced After n.address
        ⊎ ((n' : ChordNode) × (After n.address ≡ some n') × (arc n' < arc n))

    here_after : After n.address ≡ some (told n m)
    here_after = after_here h connected o.nodes n m s at next other (met s.address m there) there

    there_after : After s.address ≡ some (notify m (greeter n)).0
    there_after = after_there h connected o.nodes n m s at next other (met s.address m there) there

    stays :
        told n m ≡ n
        → ((q : NodeRef) → m.predecessor ≡ some q → is_between q.id n.id s.id false ≡ false)
        → Progress
    stays kept none_between = inl (
        greeted-IsPlaced After n m s (here_after ∙ ap some kept) next there_after
          ((sound.nodes s.address m there).hashed ∙ sym named.0) none_between)

    progress : Progress
    progress =
        let km = sound.nodes s.address m there in
        elim (Option-cases m.predecessor) [
          | inl nobody ↦ stays (keeps_nobody n m s next km.addressed nobody) (λ q e. cc (nobody, e))
          | inr (q, previous) ↦ elim (Bool-cases (is_between q.id n.id s.id false)) [
            | inr outside ↦ stays (keeps n m s next km.addressed q previous outside) (λ r e.
                subst (λ (x : NodeRef). is_between x.id n.id s.id false ≡ false)
                  (some-injective _ _ (sym previous ∙ e)) outside)
            | inl inside ↦ inr (
              adopted n m s next km.addressed q,
              here_after ∙ ap some (adopts n m s next km.addressed q previous inside),
              arc-adopted h laws o.nodes n.address n m s q next km.addressed
                  (sound.nodes n.address n at) named (km.previous q previous) other inside,
            )
          ]
        ]

  abbrev Places : Overlay → Bytes → ℕ → Type 0
  Places o b bound =
      (k : ℕ) × (p : Overlay) × (k ≤ bound)
      × Leads h o p
      × (p.nodes ≡ rounds connected k b o.nodes)
      × IsPlaced p.nodes b

  places :
      (fuel : ℕ) (o : Overlay) (n : ChordNode)
      → IsSound h o
      → IsConnected o.nodes
      → o.nodes n.address ≡ some n
      → arc n < fuel
      → Places o n.address fuel
  unfolding rounds
  places zero o n sound met at lt = absurd (omega arith)
  places (suc fuel) o n sound met at lt =
      let (s, next, named) = (sound.nodes n.address n at).next in
      let (m, there) = named.1 in
      elim (Bool-cases (bytes_eq s.address n.address)) [
        | inl same ↦ (
          0,
          o,
          omega arith,
          start,
          refl,
          own n s at next ((bytes_eq_iff s.address n.address).0 same),
        )
        | inr other ↦
            let (p, on, ep) = round-Leads h connected n.address o n at in
            elim (progress o n m s sound met at next named other there) [
              | inl placed ↦ (
                1,
                p,
                omega arith,
                on,
                ep,
                subst (λ (x : Nodes). IsPlaced x n.address) (sym ep) placed,
              )
              | inr (n', at', closer) ↦
                  let here : p.nodes n.address ≡ some n' =
                    ap (λ (x : Nodes). x n.address) ep ∙ at' in
                  let sound' = Leads-IsSound h on sound in
                  let e : n'.address ≡ n.address = (sound'.nodes n.address n' here).addressed in
                  let met' : IsConnected p.nodes = λ c x there'.
                    let was =
                      round_was h c connected n.address o.nodes n at
                        (x, ap (λ (y : Nodes). y c) (sym ep) ∙ there') in
                    met c was.0 was.1 in
                  let (k, q, le, on', eq, placed) =
                    places fuel p n' sound' met' (ap p.nodes e ∙ here) (omega (arith, closer)) in
                  (
                    suc k,
                    q,
                    omega (arith, le),
                    Leads-trans h on on',
                    eq
                        ∙ ap (λ (c : Bytes). rounds connected k c p.nodes) e
                        ∙ ap (rounds connected k n.address) ep,
                    subst (IsPlaced q.nodes) e placed,
                  )
            ]
      ]

  -- On a host that keeps its laws, from every ring that the node at `a` can grow into, with whatever
  -- messages on their way, and for each of its nodes that has a connection under the address of every
  -- node of the ring: a number of rounds of stabilize at that node, at most one more than its arc to
  -- its successor is long, in each of which the request, the notification and the answer arrive, lead
  -- to where the node is its own successor, or its successor has a predecessor with the identifier of
  -- the node. Two nodes with one identifier, or a predecessor with the identifier of the successor
  -- itself, are the exceptions. The rounds are steps of the ring.
  pub stabilizing_places :
      (a : Bytes) (o : Overlay) (b : Bytes) (n : ChordNode)
      → Reach h a o
      → o.nodes b ≡ some n
      → ((c : Bytes) (x : ChordNode) → o.nodes c ≡ some x → connected c ≡ true)
      → (k : ℕ) × (p : Overlay) × (k ≤ suc (arc n))
        × Leads h o p
        × (p.nodes ≡ rounds connected k b o.nodes)
        × IsPlaced p.nodes b
  stabilizing_places a o b n reached at met =
      let sound = Reach-IsSound h a o reached in
      let e = (sound.nodes b n at).addressed in
      subst (λ c. Places o c (suc (arc n))) e
        (places (suc (arc n)) o n sound met (ap o.nodes e ∙ at) (omega arith))
