-- ===== src/Examples/Contents.antt =====
-- The store as a map, and a file that a node of the mesh keeps, at concrete values.
use peer_store.Prelude.{ℕ, ◌≡◌, refl, inl, none, arith, [], ◌∷◌, replicate, Bytes, bytes_eq, text}
use peer_store.Result.{ok}
use peer_store.Disk.{Disk, is_name, contains_slash}
use peer_store.Disk.Laws.{blocked-none}
use peer_store.Store.Ops.{dir_path, write_encrypt, delete}
use peer_store.Store.Written.{IsPlain, IsFree, metadata_of}
use peer_store.Store.Address.{cas_path_transform-IsAddress}
use peer_store.Store.Contents.{
  Contents, insert, erase, Represents, write_encrypt-Represents, delete-Represents,
}
use peer_store.Server.{Server}
use peer_store.Mesh.Ops.{generate_cid, store}
use peer_store.Mesh.Ops.Get.{get}
use peer_store.Mesh.Ops.Stored.{get-store}
use peer_store.Examples.Machine.{machine, machine-HostLaws}
use peer_store.Examples.Files.{cas_store, net, hello, empty_disk, empty_disk-IsFree, IsPlain-cid}
use peer_store.Examples.Network.{open_peer}
use peer_store.Examples.Network

abbrev nothing : Contents
nothing id = none

nothing-Represents : Represents machine cas_store net nothing empty_disk
nothing-Represents = record { found = λ id v plain e. cc e; missing = λ id plain e. refl }

abbrev with_file : Contents
with_file =
    insert (text "cid") (hello, metadata_of cas_store (text "cid") (text "a.txt") 1 2) nothing

write_encrypt-Represents_example :
    (n : ℕ) × (d' : Disk) × (write_encrypt machine cas_store net
        (text "cid")
        (text "a.txt")
        hello
        1
        2
        empty_disk
      ≡ (ok n, d'))
    × Represents machine cas_store net with_file d'
unfolding replicate is_name contains_slash bytes_eq
write_encrypt-Represents_example =
    write_encrypt-Represents machine machine-HostLaws cas_store net nothing (text "cid")
      (text "a.txt") hello 1 2 empty_disk (replicate 16 7) (replicate 16 7) nothing-Represents refl
      (inl (refl, refl)) IsPlain-cid (empty_disk-IsFree cas_store (text "cid")) (omega arith) refl
      refl

-- A disk on which the store has put a file, deleted by the next example.
written :
    (n : ℕ) × (d' : Disk) × (write_encrypt machine cas_store net
        (text "cid")
        (text "a.txt")
        hello
        1
        2
        empty_disk
      ≡ (ok n, d'))
    × Represents machine cas_store net with_file d'
unfolding replicate is_name contains_slash bytes_eq
written =
    write_encrypt-Represents machine machine-HostLaws cas_store net nothing (text "cid")
      (text "a.txt") hello 1 2 empty_disk (replicate 16 7) (replicate 16 7) nothing-Represents refl
      (inl (refl, refl)) IsPlain-cid (empty_disk-IsFree cas_store (text "cid")) (omega arith) refl
      refl

delete-Represents_example :
    (d' : Disk) × (delete cas_store (text "cid") written.1 ≡ (ok tt, d'))
    × Represents machine cas_store net (erase (text "cid") with_file) d'
unfolding is_name contains_slash bytes_eq
delete-Represents_example =
    delete-Represents machine cas_store net with_file (text "cid") written.1 written.3 refl

-- A node of the mesh with one peer.
abbrev pub node : Server
node = record Network.server { peers = (text "b", open_peer) ∷ [] }

pub node-IsPlain : (content : Bytes) → IsPlain (node.store.transform (generate_cid machine content))
node-IsPlain content =
    (cas_path_transform-IsAddress machine machine-HostLaws (generate_cid machine content)).plain

pub node-IsFree : (id : Bytes) → IsFree node.store id node.disk
node-IsFree id = record {
  above = blocked-none node.disk (dir_path node.store id) (λ q. refl);
  no_dir = refl;
  no_metadata_dir = refl;
}

get-store_example :
    (s' : Server) × (store machine (text "a.txt") hello node
      ≡ (ok (generate_cid machine hello), s'))
    × (get machine (generate_cid machine hello) s' ≡ (ok (hello, text "a.txt"), s'))
unfolding replicate
get-store_example =
    get-store machine machine-HostLaws node (text "a.txt") hello (replicate 16 7) (replicate 16 7)
      (replicate 16 7) refl (inl (refl, refl)) (refl, tt) (node-IsPlain hello)
      (node-IsFree (generate_cid machine hello)) (omega arith) refl refl refl
