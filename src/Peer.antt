-- ===== src/Peer.antt =====
-- A connection to another node, TCPPeer of p2p/tcp_transport.go, and the numbers that binary.Read and
-- binary.Write put on it.
pub mod Int64
pub mod Map
use peer_store.Prelude.{
  ℕ, zero, suc, ◌+◌, ◌*◌, ◌/◌, ◌%◌, ◌^◌, Bool, Option, none, some, List, [], ◌∷◌, ◌++◌, length,
  take, drop, ltb, if◌then◌else◌, Bytes, bytes_eq,
}
use peer_store.Result.{Exec, Result, ok, err, ◌>>=◌, ◌>>◌, pure, try, send_failed, peer_missing}

-- `inbox` is what the other side still sends before it closes and the decoder of the read loop has
-- not taken. In a transfer of the mesh the decoder has taken the byte that announces the stream; the
-- ring's operations on files read that byte themselves. A Read past the end fails. `sent` is what has
-- been written, and `up` whether writing works. The wait of the read loop
-- during a stream is in `Transport.Turns`.
pub record Peer : Type 0 where
  pub inbox : Bytes
  pub sent : Bytes
  pub up : Bool

abbrev pub incoming_message : ℕ
incoming_message = 1

abbrev pub incoming_stream : ℕ
incoming_stream = 2

unfoldable pub send : Bytes → Exec Peer Unit
send b p = if p.up then (ok tt, record p { sent = p.sent ++ b }) else (err send_failed, p)

-- io.Copy(peer, r): a reader that is empty is not written.
unfoldable pub copy_to : Bytes → Exec Peer Unit
unfolding send
copy_to [] = pure tt
copy_to (b ∷ bs) = send (b ∷ bs)

-- binary.Write of an int64, lowest byte first.
unfoldable pub little_endian : ℕ → ℕ → Bytes
little_endian zero n = []
little_endian (suc k) n = n % 256 ∷ little_endian k (n / 256)

unfoldable pub from_little_endian : Bytes → ℕ
from_little_endian [] = 0
from_little_endian (b ∷ bs) = b + 256 * from_little_endian bs

unfoldable pub write_int64 : ℕ → Exec Peer Unit
unfolding little_endian send
write_int64 n = try (send (little_endian 8 (n % 2 ^ 64)))

-- binary.Read into a variable that is 0, its error dropped. A negative number stands as 2^64 more.
unfoldable pub read_int64 : Exec Peer ℕ
unfolding from_little_endian
read_int64 p =
    if ltb (length p.inbox) 8
    then (ok 0, record p { inbox = [] })
    else (ok (from_little_endian (take 8 p.inbox)), record p { inbox = drop 8 p.inbox })

-- io.LimitReader gives nothing for a negative limit.
abbrev pub limit : ℕ → ℕ
limit n = if ltb n (2 ^ 63) then n else 0

-- io.ReadAll(io.LimitReader(peer, n))
unfoldable pub read_limited : ℕ → Exec Peer Bytes
read_limited n p = (ok (take (limit n) p.inbox), record p { inbox = drop (limit n) p.inbox })

-- The map of peers, in the order in which a `range` visits it.
abbrev pub Peers : Type 0
Peers = List (Bytes × Peer)

unfoldable pub find_peer : Bytes → Peers → Option Peer
find_peer a [] = none
find_peer a ((b, p) ∷ ps) = if bytes_eq b a then some p else find_peer a ps

-- An assignment to `peers[a]`.
unfoldable pub put_peer : Bytes → Peer → Peers → Peers
put_peer a p [] = (a, p) ∷ []
put_peer a p ((b, q) ∷ ps) =
    let rest = put_peer a p ps in if bytes_eq b a then (b, p) ∷ ps else (b, q) ∷ rest

unfoldable pub addresses : Peers → List Bytes
addresses [] = []
addresses ((a, p) ∷ ps) = a ∷ addresses ps

-- The peers after a call on the first of them, and the calls on the rest if they are made.
abbrev pub after_call :
    Bytes → Peers → Result {0} Unit × Peer → Result {0} Unit × Peers → Result {0} Unit × Peers
after_call a ps (ok _, p) (r, qs) = (r, (a, p) ∷ qs)
after_call a ps (err e, p) rest = (err e, (a, p) ∷ ps)

-- A call on each peer in turn that stops at the first error.
unfoldable pub each : Exec Peer Unit → Exec Peers Unit
each m [] = (ok tt, [])
each m ((a, p) ∷ ps) = after_call a ps (m p) (each m ps)
