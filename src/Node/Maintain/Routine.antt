-- ===== src/Node/Maintain/Routine.antt =====
-- The background routines of chord_util.go and Stop of chord.go. A routine takes what its select
-- chooses: a tick of its timer or the end of stopChan.
use peer_store.Prelude.{
  ℕ, ◌≡◌, refl, ◌∙◌, none, some, Bool-cases, Option, inl, inr, List, [], ◌∷◌, Bytes,
}
use peer_store.Result.{Exec, Result, ok, err, ◌>>◌, pure, channel_closed}
use peer_store.Host.{Host}
use peer_store.Ring.{finger_id}
use peer_store.Chord.{NodeRef, ChordNode}
use peer_store.Chord.Stabilize.{is_alone}
use peer_store.Peer.{Peer, find_peer}
use peer_store.Message.{notify, get_predecessor}
use peer_store.Ring.BigInt.{big_bytes}
use peer_store.Server.{Server, send_message, dial}
use peer_store.Server.Keeps.{identity, Keeps, bind-Keeps, at_peer-Keeps, dial-Keeps, peer_first}
use peer_store.Node.{World, on_node, set_node}
use peer_store.Node.Keeps.{on_node-Keeps, set_node-Keeps}
use peer_store.Node.Remote.{find_successor_of}
use peer_store.Node.Remote.Keeps.{find_successor-Keeps}
use peer_store.Node.Maintain.{ask_successor, stabilize, set_finger, fix_finger, check_predecessor}

-- `tick` carries the number that randInt draws if the routine asks for one.
pub data Event : Type 0 where
  tick : ℕ → Event
  stopped : Event

unfoldable pub routine : (ℕ → Exec Server Unit) → List Event → Exec Server Unit
routine m [] = pure tt
routine m (tick i ∷ events) = do m i; routine m events
routine m (stopped ∷ events) = pure tt

module _ (h : Host) (w : World) (fuel : ℕ) where
  unfoldable pub stabilize_routine : List Event → Exec Server Unit
  stabilize_routine = routine (λ i. on_node (stabilize h))

  unfoldable pub fix_fingers_routine : List Event → Exec Server Unit
  fix_fingers_routine = routine (λ i. on_node (fix_finger h w fuel i))

  unfoldable pub check_predecessor_routine : List Event → Exec Server Unit
  check_predecessor_routine = routine (λ i. on_node (check_predecessor h w))

-- stopChan, and Stop, which closes it: closing it twice panics.
pub data StopChan : Type 0 where
  running closed : StopChan

unfoldable pub stop : Exec StopChan Unit
stop running = (ok tt, closed)
stop closed = (err channel_closed, closed)

routine-Keeps :
    (m : ℕ → Exec Server Unit)
    → ((i : ℕ) → Keeps (m i))
    → (events : List Event) → Keeps (routine m events)
unfolding routine
routine-Keeps m k [] s = refl
routine-Keeps m k (tick i ∷ events) s = bind-Keeps (m i) _ (k i) (λ u. routine-Keeps m k events) s
routine-Keeps m k (stopped ∷ events) s = refl

-- A call on what a pointer names, and nothing where it is nil.
maybe-Keeps :
    {X : Type 0} (o : Option X) (f : X → Exec Server Unit)
    → ((x : X) → Keeps (f x))
    → (s : Server)
    → identity (elim o as (λ _. Result {0} Unit × Server) [ none ↦ (ok tt, s) | some x ↦ f x s ]).1
      ≡ identity s
maybe-Keeps none f k s = refl
maybe-Keeps (some x) f k s = k x s

drop_predecessor-Keeps : Keeps (set_node (λ m. record m { predecessor = none }))
drop_predecessor-Keeps = set_node-Keeps (λ m. record m { predecessor = none }) (λ m. refl)

module _ (h : Host) (w : World) (fuel : ℕ) where
  ask_successor-Keeps : (n : ChordNode) (succ : NodeRef) → Keeps (ask_successor h n succ)
  unfolding ask_successor
  ask_successor-Keeps n succ s =
      peer_first succ.address (send_message h (get_predecessor n.address)) _
        (λ u. at_peer-Keeps succ.address (send_message h (notify (big_bytes n.id) n.address))) s

  stabilize-Keeps : (n : ChordNode) → Keeps (stabilize h n)
  unfolding stabilize
  stabilize-Keeps n s = elim (Bool-cases (is_alone n)) [
    | inl single ↦ rw single refl
    | inr more ↦ rw more (maybe-Keeps n.successor (ask_successor h n) (ask_successor-Keeps n) s)
  ]

  fix_finger-Keeps : (i : ℕ) (n : ChordNode) → Keeps (fix_finger h w fuel i n)
  unfolding fix_finger
  fix_finger-Keeps i n s =
      bind-Keeps (find_successor_of h w fuel n (finger_id n.id i)) _
        (find_successor-Keeps h w fuel n (finger_id n.id i))
        (λ r. set_node-Keeps (set_finger i r) (λ m. refl)) s

  -- The Dial of a predecessor that is not among the peers.
  abbrev redial : Bytes → Exec Server Unit
  redial a s =
      let (r, s') = dial w.net a s in
      elim r [ ok _ ↦ (ok tt, s') | err _ ↦ set_node (λ m. record m { predecessor = none }) s' ]

  redialled :
      (r : Result Bytes) (s : Server)
      → identity
          (elim r as (λ _. Result {0} Unit × Server) [
            | ok _ ↦ (ok tt, s)
            | err _ ↦ set_node (λ m. record m { predecessor = none }) s
          ]).1
        ≡ identity s
  redialled (ok _) s = refl
  redialled (err _) s = drop_predecessor-Keeps s

  redial-Keeps : (a : Bytes) → Keeps (redial a)
  redial-Keeps a s = redialled (dial w.net a s).0 (dial w.net a s).1 ∙ dial-Keeps w.net a s

  asked-Keeps :
      (p : NodeRef) (o : Option Peer) (s : Server)
      → identity
          (elim o as (λ _. Result {0} Unit × Server) [
            | some _ ↦ (ok tt, s)
            | none ↦ redial p.address s
          ]).1
        ≡ identity s
  asked-Keeps p (some q) s = refl
  asked-Keeps p none s = redial-Keeps p.address s

  check_predecessor-Keeps : (n : ChordNode) → Keeps (check_predecessor h w n)
  unfolding check_predecessor
  check_predecessor-Keeps n s =
      maybe-Keeps n.predecessor
        (λ p s. elim (find_peer p.address s.peers) as (λ _. Result {0} Unit × Server) [
          | some _ ↦ (ok tt, s)
          | none ↦ redial p.address s
        ])
        (λ p s. asked-Keeps p (find_peer p.address s.peers) s) s

  -- However long the three routines of a node run, and whatever the outside does meanwhile: the node
  -- stays on its ring with its identifier and its address, or on none, and what it listens on and
  -- where it stores do not change.
  pub routines_keep_identity :
      (events : List Event) (s : Server)
      → (identity (stabilize_routine h w fuel events s).1 ≡ identity s)
        × (identity (fix_fingers_routine h w fuel events s).1 ≡ identity s)
        × (identity (check_predecessor_routine h w fuel events s).1 ≡ identity s)
  unfolding stabilize_routine fix_fingers_routine check_predecessor_routine
  routines_keep_identity events s = (
    routine-Keeps _ (λ i. on_node-Keeps _ stabilize-Keeps) events s,
    routine-Keeps _ (λ i. on_node-Keeps _ (fix_finger-Keeps i)) events s,
    routine-Keeps _ (λ i. on_node-Keeps _ check_predecessor-Keeps) events s,
  )
