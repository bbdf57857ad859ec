-- ===== src/Node/Maintain.antt =====
-- The maintenance of chord_util.go, and how a node comes into a ring, in chord.go. The
-- routines that repeat it are in `Node.Maintain.Routine`.
pub mod Notified
pub mod Open
pub mod Routine
use peer_store.Prelude.{ℕ, Option, none, some, ◌==◌, if◌then◌else◌, Bytes, bytes_eq}
use peer_store.Result.{Exec, ok, err, ◌>>=◌, ◌>>◌, try}
use peer_store.Message.{get_predecessor, notify}
use peer_store.Host.{Host}
use peer_store.Ring.{finger_id}
use peer_store.Ring.BigInt.{big_bytes}
use peer_store.Chord.{NodeRef, ChordNode, new_chord_node, create, hash_to_node_id}
use peer_store.Chord.Stabilize.{is_alone}
use peer_store.Peer.{find_peer}
use peer_store.Server.{Server, at_peer, send_message, dial}
use peer_store.Node.{World, set_node}
use peer_store.Node.Remote.{find_successor_of}

abbrev pub set_finger : ℕ → NodeRef → ChordNode → ChordNode
set_finger i r n = record n { fingers = λ j. if j == i then some r else n.fingers j }

abbrev pub set_successor : NodeRef → ChordNode → ChordNode
set_successor r n = record n { successor = some r }

module _ (h : Host) where
  unfoldable pub send_notify : Bytes → ChordNode → Exec Server Unit
  send_notify target n = try (at_peer target (send_message h (notify (big_bytes n.id) n.address)))

  -- The two messages to the successor: the second is left out where the first fails.
  unfoldable pub ask_successor : ChordNode → NodeRef → Exec Server Unit
  ask_successor n succ = try (do
    at_peer succ.address (send_message h (get_predecessor n.address))
    at_peer succ.address (send_message h (notify (big_bytes n.id) n.address)))

  -- The successor is never nil once the node has been created or has joined.
  unfoldable pub stabilize : ChordNode → Exec Server Unit
  stabilize n s =
      if is_alone n
      then (ok tt, s)
      else elim n.successor [ none ↦ (ok tt, s) | some succ ↦ ask_successor n succ s ]

  -- `i` is the number that randInt draws below M.
  unfoldable pub fix_finger : World → ℕ → ℕ → ChordNode → Exec Server Unit
  fix_finger w fuel i n = try (do
    successor ← find_successor_of h w fuel n (finger_id n.id i)
    set_node (set_finger i successor))

  unfoldable pub check_predecessor : World → ChordNode → Exec Server Unit
  check_predecessor w n s = elim n.predecessor [
    | none ↦ (ok tt, s)
    | some p ↦ elim (find_peer p.address s.peers) [
      | some _ ↦ (ok tt, s)
      | none ↦
          let (r, s') = dial w.net p.address s in
          elim r [ ok _ ↦ (ok tt, s') | err _ ↦ set_node (λ m. record m { predecessor = none }) s' ]
    ]
  ]

  unfoldable pub join : World → Bytes → ChordNode → Exec Server Unit
  join w addr n s =
      if bytes_eq addr n.address
      then set_node create s
      else (do
        set_node (λ m. record m { predecessor = none })
        remote ← dial w.net addr
        set_node (set_successor (record { id = hash_to_node_id h remote; address = remote }))
        send_notify remote n)
          s

  unfoldable pub init_chord : Exec Server Unit
  init_chord s = (ok tt, record s { chord = some (create (new_chord_node h s.addr)) })

  abbrev pub or_new : Server → Option ChordNode → ChordNode
  or_new s none = new_chord_node h s.addr
  or_new s (some n) = n

  unfoldable pub join_chord : World → Bytes → Exec Server Unit
  join_chord w addr s = let n = or_new s s.chord in join w addr n (record s { chord = some n })
