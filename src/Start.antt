-- ===== src/Start.antt =====
-- StartServer of main.go, with NewFileServer of server.go.
pub mod First
pub mod Run
use peer_store.Prelude.{
  ℕ, Option, none, some, [], ◌++◌, ◌==◌, length, if◌then◌else◌, Bytes, text, bytes_eq,
}
use peer_store.Result.{Exec, Result, pure}
use peer_store.Message.{Network}
use peer_store.Host.{Host}
use peer_store.Config.{Config, initialize_network}
use peer_store.Disk.{Disk}
use peer_store.Store.{PathKey, new_store, cas_path_transform}
use peer_store.Server.{Server}
use peer_store.Mesh.Ops.Add.{add}
use peer_store.Node.{World}
use peer_store.Node.Maintain.{init_chord, join_chord}

-- `addr` is the transport's address; `network` and `disk` are there before.
unfoldable pub new_file_server : Bytes → Bytes → Option (Bytes → PathKey) → Network → Disk → Server
new_file_server addr storage_root transform network disk = record {
  addr = addr;
  network = network;
  store = new_store storage_root transform;
  disk = disk;
  peers = [];
  chord = none;
  pending = [];
  requests = 0;
}

module _ (h : Host) (w : World) (key nonce : Bytes) where
  -- What StartServer does once the server runs.
  unfoldable pub enter : Config → Exec Server Unit
  enter c =
      if bytes_eq c.architecture (text "chord")
      then (if length c.join_addr == 0 then init_chord h else join_chord h w c.join_addr)
      else if bytes_eq c.architecture (text "mesh")
      then (if length c.join_addr == 0 then pure tt else add h w.net key nonce c.join_addr)
      else pure tt

  unfoldable pub start_server : Config → Network → Disk → Result {0} Unit × Server
  start_server c network disk = enter c (
      new_file_server c.listen_addr
        (c.listen_addr ++ (text "_" ++ (c.architecture ++ text "_network")))
        (some (cas_path_transform h)) (initialize_network c key nonce network) disk)
