-- ===== src/Node/Maintain/Open.antt =====
-- A node that has joined the first node of a ring is not notified in its turn.
use peer_store.Prelude.{
  ℕ, ◌≡◌, ◌∙◌, refl, ap, true, none, some, Bool, arith, [], Bytes, Bool-cases, inl, inr,
}
use peer_store.Result.{ok}
use peer_store.Message.{notify, get_predecessor}
use peer_store.Host.{Host}
use peer_store.Ring.BigInt.{set_bytes}
use peer_store.Chord.{NodeRef, ChordNode}
use peer_store.Chord.Stabilize.{is_alone, accepts, handle_message_notify}
use peer_store.Chord.Stabilize
use peer_store.Peer.{find_peer}
use peer_store.Server.{Server, at_peer-none, send_message}
use peer_store.Node.{World}
use peer_store.Node.Maintain.{stabilize, ask_successor}
use peer_store.Dispatch.{on_rpc}
use peer_store.Node.Maintain.Notified.{is_notified}

-- A node alone once it has heard of another one.
abbrev pub welcoming : NodeRef → ChordNode → ChordNode
welcoming r n = record n { predecessor = some r; successor = some r }

notify_alone :
    (n : ChordNode) (r : NodeRef)
    → n.predecessor ≡ none
    → is_alone n ≡ true
    → Stabilize.notify n r ≡ (welcoming r n, true)
unfolding Stabilize.notify accepts
notify_alone n r no_pred alone = ground arith

module _ (h : Host) (s : Server) (n : ChordNode) (r : NodeRef) where
  abbrev pub welcomed : Server
  welcomed = record s { chord = some (welcoming r n) }

  cannot_ask :
      find_peer r.address s.peers ≡ none
      → ask_successor h (welcoming r n) r welcomed ≡ (ok tt, welcomed)
  unfolding ask_successor
  cannot_ask unknown =
      rw
        (
          ask_successor,
          at_peer-none r.address (send_message h (get_predecessor n.address)) welcomed unknown,
        )
        refl

  stabilize_idle :
      find_peer r.address s.peers ≡ none → stabilize h (welcoming r n) welcomed ≡ (ok tt, welcomed)
  unfolding stabilize
  stabilize_idle unknown = elim (Bool-cases (is_alone (welcoming r n))) [
    | inl alone ↦ rw alone refl
    | inr other ↦ rw (other, cannot_ask unknown) refl
  ]

-- A node that is alone on its ring and holds no file hears from a node `r` whose own address is not
-- among its connections, as it is where that node has dialled from another port: it takes `r` for its
-- predecessor and its successor, and its next stabilize sends nothing, to `r` or to anyone else, and
-- changes nothing.
pub newcomer_not_notified :
    (h : Host) (w : World) (fuel : ℕ) (s : Server) (n : ChordNode) (r : NodeRef)
    (from id_bytes payload : Bytes)
    → s.chord ≡ some n
    → n.predecessor ≡ none
    → is_alone n ≡ true
    → n.responsibles ≡ []
    → find_peer r.address s.peers ≡ none
    → set_bytes id_bytes ≡ r.id
    → h.decode_message payload ≡ some (notify id_bytes r.address)
    → (on_rpc h w fuel from payload s ≡ (ok tt, record s { chord = some (welcoming r n) }))
      × (stabilize h (welcoming r n) (record s { chord = some (welcoming r n) })
          ≡ (ok tt, record s { chord = some (welcoming r n) }))
newcomer_not_notified h w fuel s n r from id_bytes payload here no_pred alone no_files unknown named
      decodes =
    (
      is_notified h w fuel s n from id_bytes payload r here no_files named decodes
          ∙ ap (λ (m : ChordNode). (ok tt, record s { chord = some m }))
              (ap (λ (x : ChordNode × Bool). x.0) (notify_alone n r no_pred alone)),
      stabilize_idle h s n r unknown,
    )
