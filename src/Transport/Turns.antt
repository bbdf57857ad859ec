-- ===== src/Transport/Turns.antt =====
-- One connection that two goroutines read: the read loop of handleConn in p2p/tcp_transport.go, with
-- the reads of p2p/encoding.go, and handleMessageStoreFile of mesh_handler.go, which the message that
-- has come before has started. Each Read, Add, Wait and Done is a step, and the steps come in any
-- order. A Read gives any number of the bytes that are there. The connection stays up.
pub mod Received
pub mod Raced
use peer_store.Prelude.{
  ℕ, zero, suc, ◌+◌, ◌<◌, ◌≤◌, ◌≡◌, ◌≢◌, Option, none, some, List, [], ◌∷◌, ◌++◌, length, take,
  drop, Bytes,
}
use peer_store.Peer.{incoming_stream}
use peer_store.Transport.{buf_size}

-- Where the read loop stands: at the first Read of Decode; at the second; after Decode has returned
-- with Stream set; in the Wait.
pub data Reader : Type 0 where
  peeking taking announced waiting : Reader

-- Where the handler stands: `receiving` has the number of bytes that its LimitReader still lets
-- through and those that it has read. `closed` is after CloseStream, with what has been stored;
-- `failed` is after an error of WriteEncrypt, where the handler has returned; `panicked` is after a
-- Done on a counter that is 0.
pub data Handler : Type 0 where
  receiving : ℕ → Bytes → Handler
  closed : Bytes → Handler
  failed panicked : Handler

-- A TCPPeer: the bytes that have not been read, and the counter of its WaitGroup; with the payloads
-- that the read loop has put on the channel.
pub record Conn : Type 0 where
  pub wire : Bytes
  pub count : ℕ
  pub reader : Reader
  pub handler : Handler
  pub payloads : List Bytes

-- NewTCPPeer, with what the other side sends; the handler waits for `size` bytes.
unfoldable pub new_tcp_peer : Bytes → ℕ → Conn
new_tcp_peer wire size = record {
  wire = wire;
  count = 0;
  reader = peeking;
  handler = receiving size [];
  payloads = [];
}

-- CloseStream, a Done: the counter after it, or its panic on a counter of 0.
abbrev pub close_stream : ℕ → Option ℕ
close_stream zero = none
close_stream (suc w) = some w

pub data Step (c : Conn) : Conn → Type 0 where
  peeks_stream :
      (ws : Bytes)
      → c.reader ≡ peeking
      → c.wire ≡ incoming_stream ∷ ws
      → Step c (record c { wire = ws; reader = announced })
  peeks_other :
      (b : ℕ) (ws : Bytes)
      → c.reader ≡ peeking
      → c.wire ≡ b ∷ ws
      → b ≢ incoming_stream
      → Step c (record c { wire = ws; reader = taking })
  takes :
      (k : ℕ)
      → c.reader ≡ taking
      → 0 < k
      → k ≤ buf_size
      → k ≤ length c.wire
      → Step c (record c {
        wire = drop k c.wire;
        reader = peeking;
        payloads = c.payloads ++ take k c.wire ∷ [];
      })
  adds : c.reader ≡ announced → Step c (record c { count = suc c.count; reader = waiting })
  wakes : c.reader ≡ waiting → c.count ≡ 0 → Step c (record c { reader = peeking })
  receives :
      (k left : ℕ) (got : Bytes)
      → c.handler ≡ receiving (k + left) got
      → 0 < k
      → k ≤ length c.wire
      → Step c (record c { wire = drop k c.wire; handler = receiving left (got ++ take k c.wire) })
  fails : (got : Bytes) → c.handler ≡ receiving 0 got → Step c (record c { handler = failed })
  closes :
      (w : ℕ) (got : Bytes)
      → c.handler ≡ receiving 0 got
      → close_stream c.count ≡ some w
      → Step c (record c { count = w; handler = closed got })
  panics :
      (got : Bytes)
      → c.handler ≡ receiving 0 got
      → close_stream c.count ≡ none
      → Step c (record c { handler = panicked })

pub data Steps (c : Conn) : Conn → Type 0 where
  start : Steps c c
  later : {d e : Conn} → Steps c d → Step d e → Steps c e
