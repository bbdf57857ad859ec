-- ===== src/Examples/Ring.antt =====
-- Requests and files between two nodes of a ring at concrete values.
use peer_store.Prelude.{
  ℕ, ◌<◌, ◌≤◌, ◌≡◌, ◌≢◌, ◌⊎◌, refl, ap, inl, true, none, some, arith, [], ◌∷◌, ◌++◌, length,
  replicate, Bytes, text, bytes_eq,
}
use peer_store.Result.{ok, err, not_returned, too_long}
use peer_store.Disk.{elem}
use peer_store.Ring.BigInt.{set_bytes}
use peer_store.Ring.{is_between}
use peer_store.Chord.{forward, route, closest_preceding_node, scan_fingers}
use peer_store.Store.Written.{metadata_of}
use peer_store.Store.RoundTrip.{IsStored}
use peer_store.Peer.{incoming_stream, find_peer, put_peer}
use peer_store.Peer.Int64.{reading, sending}
use peer_store.Server.{Server}
use peer_store.Node.{World, Response}
use peer_store.Node.Request.{request_id}
use peer_store.Node.Remote.{find_successor_remote, received}
use peer_store.Node.Remote.Stalled.{forwarded_request_stalls}
use peer_store.Node.Remote.Answered.{answered, find_successor_remote-answered}
use peer_store.Node.Handlers.{handle_message_find_successor}
use peer_store.Node.Handlers.Files.{serve_chord_file, handle_message_store_chord_file}
use peer_store.Node.Handlers.Files.RoundTrip.{receive-serve_chord_file}
use peer_store.Node.Handlers.Files.Stored.{taken_on, get-handle_message_store_chord_file}
use peer_store.Node.Files.{max_filename, receive_chord_file, get_chord}
use peer_store.Examples.Machine.{machine, machine-HostLaws}
use peer_store.Examples.TwoNodes.{low, high_ref}
use peer_store.Examples.Network.{
  hello, name, open_peer, net, files, empty_disk, server-IsFree, server-IsPlain,
}

-- The response to another request comes first, then the one to this request.
abbrev response : Bytes → Response
response rid = record { from = text "b"; node_id = 5 ∷ []; node_addr = text "d"; request_id = rid }

abbrev pub world : World
world = record {
  net = λ a. none;
  now = λ i. i;
  arrivals = λ rid. response (text "x") ∷ response rid ∷ [];
}

abbrev pub member : Server
member = record {
  addr = text "a";
  network = net;
  store = files;
  disk = empty_disk;
  peers = (text "b", open_peer) ∷ [];
  chord = some low;
  pending = [];
  requests = 0;
}

abbrev first_id : Bytes
first_id = request_id (text "a") (text "b") 0

-- Three quarters of the ring.
abbrev far : Bytes
far = 192 ∷ replicate 19 0

far_forward : route low (set_bytes far) ≡ forward high_ref
unfolding route bytes_eq set_bytes replicate is_between closest_preceding_node scan_fingers
far_forward = refl

b_there : find_peer (text "b") member.peers ≡ some open_peer
unfolding find_peer bytes_eq
b_there = refl

forwarded_request_stalls_example :
    (s' : Server) × (handle_message_find_successor machine world 10
        (text "c")
        far
        (text "c")
        (text "r")
        member
      ≡ (err not_returned, s'))
forwarded_request_stalls_example =
    forwarded_request_stalls machine world 10 member low high_ref open_peer (text "c") far
      (text "c") (text "r") refl far_forward b_there refl (λ r. ([], refl))

other_first : text "x" ≢ first_id
unfolding request_id
other_first e = omega (arith, ap (length {A = ℕ}) e)

find_successor_remote-answered_example :
    (s' : Server) × (find_successor_remote machine world 1 (text "a") (text "b") 7 member
      ≡ (ok (answered (response first_id)), s'))
    × (received first_id s'.pending ≡ none)
find_successor_remote-answered_example =
    find_successor_remote-answered machine world 0 7 (text "a") (text "b") [] member low open_peer
      (response (text "x") ∷ []) [] (response first_id) refl b_there refl refl refl
      (other_first, tt) refl

receive-serve_chord_file_example :
    (packet : Bytes) × (serve_chord_file name hello open_peer ≡ (ok tt, sending open_peer packet))
    × (((length name ≤ max_filename)
          × (receive_chord_file (reading open_peer packet)
              ≡ (ok (hello, name), reading open_peer [])))
        ⊎ ((max_filename < length name)
            × (receive_chord_file (reading open_peer packet)
                ≡ (err too_long, reading open_peer (name ++ hello)))))
receive-serve_chord_file_example =
    receive-serve_chord_file open_peer open_peer name hello refl (omega arith)

-- The upper node sends a file, with the signal before it.
abbrev told_member : Server
told_member = record member { peers = (text "b", reading open_peer (incoming_stream ∷ hello)) ∷ [] }

hello_some : hello ≢ []
hello_some e = omega (arith, ap (length {A = ℕ}) e)

get-handle_message_store_chord_file_example :
    (k : ℕ) × (s' : Server) × (handle_message_store_chord_file machine
        (text "b")
        (text "cid")
        name
        told_member
      ≡ (ok tt, s'))
    × (s'.peers ≡ put_peer (text "b") (reading open_peer []) told_member.peers)
    × IsStored machine files net
        (text "cid")
        hello
        k
        (metadata_of files (text "cid") name 0 0)
        empty_disk
        s'.disk
    × (s'.chord ≡ some (taken_on (text "cid") low))
    × (elem (text "cid") (taken_on (text "cid") low).responsibles ≡ true)
    × (get_chord machine world 10 (text "cid") s' ≡ (ok (hello, name), s'))
unfolding replicate find_peer bytes_eq
get-handle_message_store_chord_file_example =
    get-handle_message_store_chord_file machine machine-HostLaws world 10 told_member low open_peer
      (text "b") (text "cid") name hello (replicate 16 7) (replicate 16 7) refl refl hello_some
      (inl (refl, refl)) server-IsPlain server-IsFree (omega arith) refl refl

-- The same file, its signal already taken.
abbrev raced_member : Server
raced_member = record member { peers = (text "b", reading open_peer hello) ∷ [] }
