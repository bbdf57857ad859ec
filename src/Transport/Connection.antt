-- ===== src/Transport/Connection.antt =====
-- The read loop of handleConn in p2p/tcp_transport.go.
use peer_store.Prelude.{
  ℕ, zero, suc, ◌≡◌, refl, ap, ◌∙◌, none, List, [], ◌∷◌, if◌then◌else◌, replicate, Bytes,
}
use peer_store.Result.{Result, ok, err}
use peer_store.Host.{Host}
use peer_store.Server.{Server}
use peer_store.Node.{World}
use peer_store.Dispatch.{on_rpc, loop}
use peer_store.Transport.{Rpc, decode}

-- What the loop has put on the channel, and what is left of the connection when it stops to wait for
-- the end of a stream, or at the end of its rounds.
pub record Delivered : Type 0 where
  pub rpcs : List (Bytes × Bytes)
  pub left : Bytes

abbrev pub deliver : Bytes → Bytes → Delivered → Delivered
deliver from payload d = record d { rpcs = (from, payload) ∷ d.rpcs }

-- `rest` is what the rounds that follow deliver.
abbrev pub on_decoded : Bytes → Bytes → Delivered → Result Rpc → Delivered
on_decoded from left rest (err _) = rest
on_decoded from left rest (ok rpc) =
    if rpc.stream then record { rpcs = []; left = left } else deliver from rpc.payload rest

-- The loop has no end of its own: `fuel` is a number of rounds, and `more` says for each number of
-- rounds left how many bytes the second Read finds behind the first one.
unfoldable pub read_loop : (ℕ → ℕ) → ℕ → Bytes → Bytes → Delivered
read_loop more zero from inbox = record { rpcs = []; left = inbox }
read_loop more (suc fuel) from inbox =
    let (rpc, left) = decode (more fuel) inbox in
    on_decoded from left (read_loop more fuel from left) rpc

-- A closed connection never ends the loop: each of its rounds delivers one more empty payload.
closed_delivers :
    (more : ℕ → ℕ) (fuel : ℕ) (from : Bytes)
    → read_loop more fuel from [] ≡ record { rpcs = replicate fuel (from, []); left = [] }
unfolding read_loop decode replicate
closed_delivers more zero from = refl
closed_delivers more (suc fuel) from = ap (deliver from []) (closed_delivers more fuel from)

one_ignored :
    (h : Host) (w : World) (fuel : ℕ) (from : Bytes) (s : Server)
    → h.decode_message [] ≡ none
    → on_rpc h w fuel from [] s ≡ (ok tt, s)
unfolding on_rpc
one_ignored h w fuel from s refused = rw (on_rpc, refused) refl

ignored :
    (h : Host) (w : World) (fuel rounds : ℕ) (from : Bytes) (s : Server)
    → h.decode_message [] ≡ none
    → loop h w fuel (replicate rounds (from, [])) s ≡ (ok tt, s)
unfolding loop replicate
ignored h w fuel zero from s refused = refl
ignored h w fuel (suc rounds) from s refused =
    rw (one_ignored h w fuel from s refused) (ignored h w fuel rounds from s refused)

-- Once the other side has closed the connection, the read loop goes on: any number of rounds delivers
-- as many empty payloads and takes nothing more from the connection. Where the decoder of messages
-- refuses an empty payload, the server's loop passes over all of them and the node stays as it was.
pub closed_connection_spins :
    (h : Host) (w : World) (fuel rounds : ℕ) (more : ℕ → ℕ) (from : Bytes) (s : Server)
    → h.decode_message [] ≡ none
    → (read_loop more rounds from [] ≡ record { rpcs = replicate rounds (from, []); left = [] })
      × (loop h w fuel (read_loop more rounds from []).rpcs s ≡ (ok tt, s))
closed_connection_spins h w fuel rounds more from s refused =
    let spins = closed_delivers more rounds from in
    (
      spins,
      ap (λ (d : Delivered). loop h w fuel d.rpcs s) spins ∙ ignored h w fuel rounds from s refused,
    )
