-- ===== src/Examples/Round.antt =====
-- A round of stabilize, and a node that joins, at concrete values.
use peer_store.Prelude.{◌≡◌, refl, some, [], ◌∷◌, ◌++◌, Bytes, text, bytes_eq}
use peer_store.Message.{notify}
use peer_store.Result.{ok}
use peer_store.Host.{Host}
use peer_store.Ring.BigInt.{big_bytes, set_bytes-big_bytes}
use peer_store.Chord.{ChordNode, self, create, new_chord_node}
use peer_store.Chord.Stabilize.{is_alone}
use peer_store.Chord.Stabilize
use peer_store.Peer.{incoming_message, find_peer}
use peer_store.Peer.Int64.{sending}
use peer_store.Server.{Server}
use peer_store.Node.Maintain.{stabilize}
use peer_store.Node.Maintain.Notified.{stabilize-notify}
use peer_store.Node.Maintain.Open.{welcoming, newcomer_not_notified}
use peer_store.Dispatch.{on_rpc, loop}
use peer_store.Dispatch.Keeps.{loop_keeps_identity}
use peer_store.Server.Keeps.{id_of}
use peer_store.Start.First.{alone_node, first_node}
use peer_store.Examples.Machine.{machine}
use peer_store.Examples.Files.{chord_config, empty_disk}
use peer_store.Examples.TwoNodes.{low, high, high_ref, middle}
use peer_store.Examples.Network.{open_peer}
use peer_store.Examples.Ring.{world, member}

-- A host on which every message is the notification of one node.
abbrev notifying : Bytes → Bytes → Host
notifying id_bytes address = record machine { decode_message = λ b. some (notify id_bytes address) }

abbrev told_by_low : Host
told_by_low = notifying (big_bytes low.id) low.address

abbrev upper : Server
upper = record member { addr = text "b"; chord = some high; peers = [] }

stabilize-notify_example :
    (s' : Server) × (stabilize told_by_low low member ≡ (ok tt, s'))
    × (find_peer (text "b") s'.peers
        ≡ some (sending open_peer (incoming_message ∷ [] ++ incoming_message ∷ [])))
    × (on_rpc told_by_low world 10 (text "x") [] upper
        ≡ (ok tt, record upper { chord = some (Stabilize.notify high (self low)).0 }))
unfolding is_alone bytes_eq find_peer
stabilize-notify_example =
    stabilize-notify told_by_low world 10 member upper low high high_ref open_peer (text "x") [] []
      refl refl refl refl refl refl refl refl refl

abbrev told_by_high : Host
told_by_high = notifying (big_bytes middle) (text "b")

abbrev alone : ChordNode
alone = alone_node machine chord_config

-- The first node of a ring, with a connection from another port of the upper node.
abbrev first : Server
first = record (first_node machine [] [] chord_config empty_disk) {
  peers = (text "b:50000", open_peer) ∷ [];
}

newcomer_not_notified_example :
    (on_rpc told_by_high world 10 (text "b:50000") [] first
      ≡ (ok tt, record first { chord = some (welcoming high_ref alone) }))
    × (stabilize told_by_high
          (welcoming high_ref alone)
          (record first { chord = some (welcoming high_ref alone) })
        ≡ (ok tt, record first { chord = some (welcoming high_ref alone) }))
unfolding is_alone create new_chord_node bytes_eq find_peer
newcomer_not_notified_example =
    newcomer_not_notified told_by_high world 10 first alone high_ref (text "b:50000")
      (big_bytes middle) [] refl refl refl refl refl (set_bytes-big_bytes middle) refl

-- Two payloads: the first node is notified twice.
abbrev ran : Server
ran = (loop told_by_high world 10 ((text "b:50000", []) ∷ (text "x", text "?") ∷ []) first).1

loop_keeps_identity_example :
    (ran.addr ≡ first.addr) × (ran.store ≡ first.store) × (id_of ran.chord ≡ id_of first.chord)
loop_keeps_identity_example =
    loop_keeps_identity told_by_high world 10 ((text "b:50000", []) ∷ (text "x", text "?") ∷ [])
      first
