-- ===== src/Mesh/Ops/Remove.antt =====
-- What Remove of mesh.go does on the local disk and tells the peers.
use peer_store.Prelude.{◌≡◌, ◌⊎◌, inl, inr, true, false, some, refl, ◌∷◌, ◌++◌, Bytes}
use peer_store.Result.{ok, err, send_failed}
use peer_store.Message.{delete_file}
use peer_store.Host.{Host}
use peer_store.Disk.{Disk, ◌//◌, is_name, blocked}
use peer_store.Store.Ops.{has, delete}
use peer_store.Store.Delete.{has-delete}
use peer_store.Peer.{Peers}
use peer_store.Server.{Server, broadcast}
use peer_store.Server.Broadcast.{AreUp, Cut, told, broadcast_exact}
use peer_store.Mesh.Ops.{remove}

remove_told :
    (h : Host) (cid : Bytes) (s : Server) (ps : Peers) (d : Disk)
    → broadcast h (delete_file cid) s ≡ (ok tt, record s { peers = ps })
    → delete s.store cid s.disk ≡ (ok tt, d)
    → remove h cid s ≡ (ok tt, record s { peers = ps; disk = d })
unfolding remove
remove_told h cid s ps d sent gone = rw (sent, gone) refl

remove_cut :
    (h : Host) (cid : Bytes) (s s' : Server)
    → broadcast h (delete_file cid) s ≡ (err send_failed, s')
    → remove h cid s ≡ (err send_failed, s')
unfolding remove
remove_cut h cid s s' sent = rw sent refl

-- Where the message encodes, the name has no slash and is not "", "." or "..", and no file stands at
-- or above the file's own directory: Remove either
-- finds every connection writable, tells every peer and succeeds, and then Has says that the file is
-- not on the local disk; or it fails at the first connection that is not, having told the peers
-- before it and left the disk as it was.
pub has-remove :
    (h : Host) (cid buf : Bytes) (s : Server)
    → h.encode_message (delete_file cid) ≡ some buf
    → is_name cid ≡ true
    → blocked s.disk (s.store.root // cid) ≡ false
    → (AreUp s.peers
        × ((s' : Server) × (remove h cid s ≡ (ok tt, s'))
            × (s'.peers ≡ told buf s.peers)
            × (has s.store cid s'.disk ≡ false)))
      ⊎ ((c : Cut s.peers) × (remove h cid s ≡ (
        err send_failed,
        record s { peers = told buf c.reached ++ (c.at, c.peer) ∷ c.rest },
      )))
has-remove h cid buf s enc named free = elim (broadcast_exact h (delete_file cid) s buf enc) [
  | inl (ups, sent) ↦
      let (d, gone, absent, _, _) = has-delete h s.store s.network cid s.disk named free in
      inl (
        ups,
        (
          record s { peers = told buf s.peers; disk = d },
          remove_told h cid s (told buf s.peers) d sent gone,
          refl,
          absent,
        ),
      )
  | inr (c, sent) ↦ inr (
    c,
    remove_cut h cid s (record s { peers = told buf c.reached ++ (c.at, c.peer) ∷ c.rest }) sent,
  )
]
