-- ===== src/Lib.antt =====
-- peer-store: a peer-to-peer file store, with files kept under content addresses, encrypted, and
-- found either on a full mesh of nodes or on a Chord ring.
--
-- Parts of the program and the modules that model them:
--
-- * Identifiers (chord_util.go): `Ring` has isBetween and fingerID on natural numbers, with the
--   places of the ring counted clockwise; `Ring.BigInt` has the bytes in which they travel.
-- * A Chord node by itself (chord.go, chord_util.go): `Chord` has the state, NewChordNode, Create,
--   closestPrecedingNode and the local part of FindSuccessor (`route`); `Chord.Lookup` runs
--   FindSuccessor over a whole ring; `Chord.Stabilize` has notify and what the handlers do to a
--   node's neighbours; `Chord.Transfer` has the choice of files in transferResponsibilities.
-- * A Chord node with its connections (chord.go, chord_util.go, chord_handler.go): `Node.Remote` has
--   FindSuccessor with findSuccessorRemote, `Node.Request` its request IDs, `Node.Answer` the handler
--   of the answers, `Node.Handlers` the other handlers, `Node.Maintain` stabilize, fixFinger,
--   checkPredecessor and Join, `Node.Maintain.Routine` the routines that repeat them,
--   `Node.Transfer` transferResponsibilities, and `Node.Files` StoreFile, GetFile and DeleteFile.
--   `Node.Remote.Locked` has the lock that a search holds while the loop goes on.
-- * A ring as a whole: `Overlay` has its nodes and the messages between them as a step relation, with
--   nodes that join, maintain the ring and handle what arrives; `Overlay.Round` runs stabilize with its
--   messages as a function, round after round.
-- * Encryption (crypto.go, crypto/): `Crypto`, with the keys and nonces in `Crypto.Keys`.
-- * The store (store.go): `Store` has the path transforms and `Store.Ops` the operations, which run
--   on the file system of `Disk` in the monad of `Result`; `Store.Contents` has the abstract view of
--   a store, a map from names to files.
-- * Splitting of files (mesh_util.go): `Mesh.Split`.
-- * A node and its connections (server.go, mesh_util.go, p2p/tcp_transport.go): `Peer` has what a
--   connection delivers and takes, and the numbers on it, and `Server` the node with its peers,
--   sendMessage, broadcast, OnPeer and Dial; `Transport` has the decoder of p2p/encoding.go,
--   `Transport.Connection` the read loop of handleConn, `Transport.Accept` handleConn and the accept
--   loop, and `Transport.Turns` the steps of the read loop and of a handler on one connection.
-- * The mesh (mesh.go, mesh_handler.go): `Mesh.Ops` has Store and Remove, `Mesh.Ops.Get` has Get,
--   `Mesh.Ops.Add` has Add, `Mesh.Handlers` the handlers of their messages, and `Mesh.Transfer` what
--   the two sides of a transfer write and read.
-- * The program (server.go, main.go, mesh_util.go): `Dispatch` has handleMessage and the loop that
--   calls it, `Start` has StartServer and NewFileServer, `Start.Run` a server from Start to Stop and
--   main, `Api` the HTTP handlers and `Api.Routes` their paths.
-- * Messages (message.go) and configuration (config.go): `Message`, with registerGobTypes in
--   `Message.Gob`, and `Config`.
--
-- The read loop of a connection puts payloads on a channel, the loop of `Dispatch` takes them off and
-- calls a handler for each, and the HTTP handlers call the same operations from outside. A lookup is
-- local decisions, `route`, chained by requests: the successor found on a ring is the node to which a
-- file goes, and the store of that node keeps it, encrypted with what the configuration put in the
-- variable `network`.
--
-- `Host` is what the program calls and does not define: SHA-1, AES in counter mode, ChaCha20, the
-- random source and encoding/gob, with the laws that the theorems use. `Examples.Machine` is a
-- concrete host that keeps the laws, for the tests in `Examples`. `Node.World` is what a node meets:
-- whether a Dial connects, the time, and the answers that its loop handles while it waits for one.
--
-- Fuel: `lookup` counts the nodes that take part in a search; more than the clockwise distance is
-- enough on any stable ring, and 161 where the finger tables are right. `lookup` takes every request
-- to be answered, which `find_successor_remote` does not: its fuel is the number of requests, since
-- the retry of the source has no bound, and `not_returned` says that they were not enough. The fuel
-- of `read_loop` is a number of rounds, since the loop has no end. The copying loop
-- `copy_stream_aes` is given one round more than the source has bytes. `big_bytes` is given the
-- number itself, which has at most as many digits.
--
-- Interleavings are step relations where they matter: `Overlay`, `Transport.Turns` and
-- `Node.Remote.Locked` allow any order of the steps of their goroutines and nodes. Elsewhere a
-- goroutine that the code starts runs to its end where it is started, and nothing else happens while
-- an operation runs, but for the answers that a `World` lists. The order in which a `range` visits a
-- map is the order of a list, and any list is allowed.
--
-- File names are the texts that the program passes to the file system; the theorems on `Store.Contents`
-- take those that name an entry of a directory, without "", "." and "..". A Read returns what has
-- arrived, as much as the caller of `decode` says.
--
-- Left out: permissions and full disks, the sockets, CloseStream and its WaitGroup but for
-- `Transport.Turns`, nodes that leave a ring, other locks, sleeps, the log, the texts of errors,
-- and the parsing of flags and of HTTP. What stands in comments at the ends of main.go and
-- store.go is no code.
pub mod Prelude
pub mod Ring
pub mod Chord
pub mod Message
pub mod Host
pub mod Crypto
pub mod Result
pub mod Config
pub mod Disk
pub mod Store
pub mod Peer
pub mod Server
pub mod Transport
pub mod Node
pub mod Overlay
pub mod Dispatch
pub mod Api
pub mod Start
pub mod Examples
pub mod Mesh
