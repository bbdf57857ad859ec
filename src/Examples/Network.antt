-- ===== src/Examples/Network.antt =====
-- Two nodes of a mesh at concrete values.
use peer_store.Prelude.{
  ℕ, ◌<◌, ◌≤◌, ◌≢◌, ap, take, drop, ◌≡◌, ◌⊎◌, refl, inl, true, false, none, arith, [], ◌∷◌, ◌++◌,
  length, replicate, Bytes, text, bytes_eq,
}
use peer_store.Message.{Network, get_file}
use peer_store.Result.{ok, err, send_failed}
use peer_store.Disk.{Disk}
use peer_store.Disk.Laws.{blocked-none}
use peer_store.Store.{Store, cas_path_transform}
use peer_store.Store.Ops.{dir_path}
use peer_store.Store.Written.{IsPlain, IsFree, metadata_of}
use peer_store.Store.RoundTrip.{IsStored}
use peer_store.Store.Address.{cas_path_transform-IsAddress}
use peer_store.Peer.{Peer, find_peer, put_peer}
use peer_store.Peer.Int64.{reading}
use peer_store.Server.{Server, broadcast, send_bytes}
use peer_store.Transport.{buf_size, read_size, decode, decode-send_bytes}
use peer_store.Server.Broadcast.{AreUp, Cut, told, broadcast_exact}
use peer_store.Mesh.Handlers.{handle_message_store_file}
use peer_store.Mesh.Handlers.Stored.{get-handle_message_store_file}
use peer_store.Mesh.Ops.Get.{get_all}
use peer_store.Examples.Machine.{machine, machine-HostLaws}

abbrev pub hello : Bytes
hello = text "hello"

abbrev pub name : Bytes
name = text "a.txt"

abbrev pub open_peer : Peer
open_peer = record { inbox = []; sent = []; up = true }

abbrev closed_peer : Peer
closed_peer = record { inbox = []; sent = []; up = false }

abbrev pub net : Network
net = record {
  enc_type = text "AES";
  enc_key = text "0123456789abcdef0123456789abcdef";
  nonce = text "nonce_of_12_";
  nodes = text "a" ∷ text "b" ∷ [];
  split = false;
}

abbrev pub files : Store
files = record { root = text "store"; transform = cas_path_transform machine }

abbrev pub empty_disk : Disk
empty_disk = record { file = λ p. none; dir = λ p. false; draws = 0 }

abbrev sender : Peer
sender = reading open_peer (hello ++ text "next")

abbrev pub server : Server
server = record {
  addr = text ":3000";
  network = net;
  store = files;
  disk = empty_disk;
  peers = (text "b", sender) ∷ (text "c", closed_peer) ∷ [];
  chord = none;
  pending = [];
  requests = 0;
}

broadcast_exact_example :
    (AreUp server.peers
      × (broadcast machine (get_file name) server
          ≡ (ok tt, record server { peers = told [] server.peers })))
    ⊎ ((c : Cut server.peers) × (broadcast machine (get_file name) server ≡ (
      err send_failed,
      record server { peers = told [] c.reached ++ (c.at, c.peer) ∷ c.rest },
    )))
broadcast_exact_example = broadcast_exact machine (get_file name) server [] refl

pub server-IsFree : IsFree files (text "cid") empty_disk
server-IsFree = record {
  above = blocked-none empty_disk (dir_path files (text "cid")) (λ q. refl);
  no_dir = refl;
  no_metadata_dir = refl;
}

pub server-IsPlain : IsPlain (files.transform (text "cid"))
server-IsPlain = (cas_path_transform-IsAddress machine machine-HostLaws (text "cid")).plain

get-handle_message_store_file_example :
    (n : ℕ) × (s' : Server) × (handle_message_store_file machine
        (text "b")
        (text "cid")
        name
        0
        0
        (length hello)
        server
      ≡ (ok tt, s'))
    × (s'.peers ≡ put_peer (text "b") (reading sender (text "next")) server.peers)
    × IsStored machine files net
        (text "cid")
        hello
        n
        (metadata_of files (text "cid") name 0 0)
        empty_disk
        s'.disk
    × (get_all machine (text "cid") s' ≡ (ok (hello, name), s'))
unfolding replicate find_peer bytes_eq
get-handle_message_store_file_example =
    get-handle_message_store_file machine machine-HostLaws server sender (text "b") (text "cid")
      name hello (text "next") (replicate 16 7) (replicate 16 7) 0 0 refl (omega arith)
      (inl (refl, refl)) server-IsPlain server-IsFree (omega arith) refl refl

-- Three bytes of five have arrived.
decode-send_bytes_example :
    ((length hello ≤ buf_size)
      × (length hello ≤ 3)
      × (decode 2 (send_bytes hello open_peer).1.sent
          ≡ (ok (record { payload = hello; stream = false }), [])))
    ⊎ (((buf_size < length hello) ⊎ (3 < length hello))
        × (decode 2 (send_bytes hello open_peer).1.sent ≡ (
          ok (record { payload = take (read_size 2) hello; stream = false }),
          drop (read_size 2) hello,
        ))
        × (drop (read_size 2) hello ≢ []))
decode-send_bytes_example =
    decode-send_bytes open_peer hello 2 refl refl (λ e. omega (arith, ap (length {A = ℕ}) e))
