-- ===== src/Mesh/Handlers/Stored.antt =====
-- A file that a peer sends is on the disk after the handler and is got from there.
use peer_store.Prelude.{ℕ, ◌+◌, ◌<◌, ◌^◌, ◌≡◌, some, true, refl, ◌++◌, length, Bytes}
use peer_store.Result.{ok}
use peer_store.Message.{Metadata}
use peer_store.Host.{Host, HostLaws, AreBytes}
use peer_store.Crypto.RoundTrip.{IsKeyed}
use peer_store.Disk.{Disk}
use peer_store.Store.Ops.{has, read_decrypt, write_encrypt}
use peer_store.Store.Written.{IsPlain, IsFree, metadata_of}
use peer_store.Store.RoundTrip.{IsStored, read-write}
use peer_store.Peer.{Peer, find_peer, put_peer, read_limited}
use peer_store.Peer.Int64.{reading, read_limited_lem}
use peer_store.Server.{Server, at_peer}
use peer_store.Mesh.Handlers.{handle_message_store_file}
use peer_store.Mesh.Ops.Get.{get_all, fetch_missing}

at_peer_reads :
    (a b after : Bytes) (p : Peer) (s : Server)
    → find_peer a s.peers ≡ some (reading p (b ++ after))
    → length b < 2 ^ 63
    → at_peer a (read_limited (length b)) s
      ≡ (ok b, record s { peers = put_peer a (reading p after) s.peers })
unfolding at_peer
at_peer_reads a b after p s there h = rw (at_peer, there, read_limited_lem p after b h) refl

handler_writes :
    (h : Host) (from cid key src after : Bytes) (part total_parts n : ℕ) (p : Peer) (s : Server)
    (d : Disk)
    → find_peer from s.peers ≡ some (reading p (src ++ after))
    → length src < 2 ^ 63
    → write_encrypt h s.store s.network cid key src part total_parts s.disk ≡ (ok n, d)
    → handle_message_store_file h from cid key part total_parts (length src) s
      ≡ (ok tt, record s { disk = d; peers = put_peer from (reading p after) s.peers })
unfolding handle_message_store_file
handler_writes h from cid key src after part total_parts n p s d there small written =
    rw (at_peer_reads from src after p s there small, written) refl

pub get_all_local :
    (h : Host) (cid file : Bytes) (n : ℕ) (metadata : Metadata) (s : Server)
    → has s.store cid s.disk ≡ true
    → read_decrypt h s.store s.network cid s.disk ≡ (ok (n, file, metadata), s.disk)
    → get_all h cid s ≡ (ok (file, metadata.file_name), s)
unfolding get_all fetch_missing
get_all_local h cid file n metadata s present read = rw (present, read) refl

-- On a host that keeps its laws: where a peer that is in the map sends a file of bytes, shorter than
-- 2^63, and the handler of the message that announces it has room on the disk, a network whose key
-- fits and two initialisation vectors, the handler succeeds, takes exactly the file from the
-- connection, and has stored it; getAll then returns the file and its name from the local disk.
pub get-handle_message_store_file :
    (h : Host) (laws : HostLaws h) (s : Server) (p : Peer) (from cid key src after v v' : Bytes)
    (part total_parts : ℕ)
    → find_peer from s.peers ≡ some (reading p (src ++ after))
    → length src < 2 ^ 63
    → IsKeyed s.network
    → IsPlain (s.store.transform cid)
    → IsFree s.store cid s.disk
    → AreBytes src
    → h.random s.disk.draws 16 ≡ some v
    → h.random (s.disk.draws + 1) 16 ≡ some v'
    → (n : ℕ) × (s' : Server) × (handle_message_store_file h from cid key part total_parts
          (length src)
          s
        ≡ (ok tt, s'))
      × (s'.peers ≡ put_peer from (reading p after) s.peers)
      × IsStored h s.store s.network cid src n
          (metadata_of s.store cid key part total_parts)
          s.disk
          s'.disk
      × (get_all h cid s' ≡ (ok (src, key), s'))
get-handle_message_store_file h laws s p from cid key src after v v' part total_parts there small
      keyed plain free bytes r r' =
    let (n, d, written, stored) =
      read-write h laws s.store s.network cid key src part total_parts s.disk v v' keyed plain free
        bytes r r' in
    let s' = record s { disk = d; peers = put_peer from (reading p after) s.peers } in
    (
      n,
      s',
      handler_writes h from cid key src after part total_parts n p s d there small written,
      refl,
      stored,
      get_all_local h cid src n (metadata_of s.store cid key part total_parts) s' stored.present
          stored.read_back,
    )
