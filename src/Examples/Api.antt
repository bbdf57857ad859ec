-- ===== src/Examples/Api.antt =====
-- The HTTP handlers and the read loop of a connection at concrete values.
use peer_store.Prelude.{◌≡◌, refl, inl, some, arith, [], replicate, Bytes, text, bytes_eq}
use peer_store.Result.{ok}
use peer_store.Message.{zero_network}
use peer_store.Store.Ops.{dir_path, full_path}
use peer_store.Store.Written.{IsFree}
use peer_store.Disk.Laws.{blocked-none}
use peer_store.Server.{Server}
use peer_store.Mesh.Ops.{generate_cid}
use peer_store.Start.{start_server}
use peer_store.Start.First.{first_node}
use peer_store.Dispatch.{loop}
use peer_store.Transport.Connection.{read_loop, closed_connection_spins}
use peer_store.Api.{stored, attachment, failure, base, handle_api_store, handle_api_retrieve}
use peer_store.Api.RoundTrip.{post, get_request, retrieve-store}
use peer_store.Api.Lost.{upload_lost}
use peer_store.Examples.Machine.{machine, machine-HostLaws}
use peer_store.Examples.Files.{hello, empty_disk, chord_config}
use peer_store.Examples.Ring.{world}
use peer_store.Examples.Contents.{node, node-IsPlain, node-IsFree}

abbrev hello_cid : Bytes
hello_cid = generate_cid machine hello

retrieve-store_example :
    (s' : Server) × (handle_api_store machine world 10
        (text "mesh")
        (post (text "a.txt") hello)
        node
      ≡ (ok (stored hello_cid (text "a.txt")), s'))
    × (handle_api_retrieve machine world 10 (text "mesh") (get_request hello_cid) s'
        ≡ (ok (attachment (base (text "a.txt")) hello), s'))
unfolding replicate bytes_eq
retrieve-store_example =
    retrieve-store machine machine-HostLaws world 10 (text "mesh") node (text "a.txt") hello
      (replicate 16 7) (replicate 16 7) (replicate 16 7) refl refl (inl (refl, refl)) (refl, tt)
      (node-IsPlain hello) (node-IsFree hello_cid) (omega arith) refl refl refl

abbrev ring_node : Server
ring_node = first_node machine [] [] chord_config empty_disk

ring_node-IsFree : IsFree ring_node.store hello_cid empty_disk
ring_node-IsFree = record {
  above = blocked-none empty_disk (dir_path ring_node.store hello_cid) (λ q. refl);
  no_dir = refl;
  no_metadata_dir = refl;
}

upload_lost_example :
    (s' : Server) × (start_server machine world [] [] chord_config zero_network empty_disk
      ≡ (ok tt, ring_node))
    × (handle_api_store machine world 10 (text "chord") (post (text "a.txt") hello) ring_node
        ≡ (ok (stored hello_cid (text "a.txt")), s'))
    × (s'.disk.file (full_path ring_node.store hello_cid) ≡ some [])
    × (handle_api_retrieve machine world 10 (text "chord") (get_request hello_cid) s'
        ≡ (ok (failure 500), s'))
upload_lost_example =
    upload_lost machine machine-HostLaws world 10 [] [] (text "a.txt") hello chord_config empty_disk
      refl refl ring_node-IsFree

closed_connection_spins_example :
    (read_loop (λ k. 5) 3 (text "b") [] ≡ record { rpcs = replicate 3 (text "b", []); left = [] })
    × (loop machine world 10 (read_loop (λ k. 5) 3 (text "b") []).rpcs node ≡ (ok tt, node))
closed_connection_spins_example =
    closed_connection_spins machine world 10 3 (λ k. 5) (text "b") node refl
