-- ===== src/Mesh/Ops/Fetched/Kept.antt =====
-- What a round of getAll leaves on the disk.
use peer_store.Prelude.{
  ℕ, ◌≡◌, ◌≢◌, ◌∙◌, some, arith, [], ◌++◌, Bytes, text, bytes_eq_iff, bytes_eq_refl,
}
use peer_store.Result.{ok}
use peer_store.Message.{Network}
use peer_store.Host.{Host}
use peer_store.Crypto.{encrypt}
use peer_store.Crypto.RoundTrip.{wrote}
use peer_store.Disk.{Disk, or_empty}
use peer_store.Disk.Laws.{made, put, made-parent, made_same}
use peer_store.Store.{Store}
use peer_store.Store.Ops.{dir_path, full_path, metadata_path, write_metadata}
use peer_store.Store.Written.{
  IsFree, metadata_path_join, metadata_one_element, encrypted, metadata_of, write_metadata_lem,
}

-- The disk once getAll has opened the file, and once it has written what it reads, `c`, and then the
-- encrypted metadata `m`.
abbrev pub opened : Store → Bytes → Disk → Disk
opened s id d = put (full_path s id) [] (made (dir_path s id) d)

unfoldable pub received : Store → Bytes → Bytes → Disk → Disk
received s id c d =
    let o = opened s id d in put (full_path s id) (or_empty (o.file (full_path s id)) ++ c) o

pub fetched : Store → Bytes → Bytes → Bytes → Disk → Disk
fetched s id c m d =
    encrypted (metadata_path s id) m (put (metadata_path s id) [] (received s id c d))

module _ (s : Store) (id c m : Bytes) (d : Disk)
    (differ : full_path s id ≢ metadata_path s id) where
  pub file_fetched : (fetched s id c m d).file (full_path s id) ≡ some c
  unfolding fetched received
  file_fetched =
      ground
        (arith, bytes_eq_iff (metadata_path s id) (full_path s id), bytes_eq_refl (full_path s id))

  pub metadata_fetched : (fetched s id c m d).file (metadata_path s id) ≡ some m
  unfolding fetched received
  metadata_fetched = ground (arith, bytes_eq_refl (metadata_path s id))

pub metadata_written :
    (h : Host) (s : Store) (net : Network) (id key c buffer m : Bytes) (k : ℕ) (d : Disk)
    → IsFree s id d
    → h.encode_metadata (metadata_of s id key 0 0) ≡ some buffer
    → encrypt h net (h.random d.draws 16) buffer ≡ wrote m k
    → write_metadata h s net id key 0 0 (received s id c d) ≡ (ok tt, fetched s id c m d)
unfolding received fetched
metadata_written h s net id key c buffer m k d free enc done =
    write_metadata_lem h s net id key 0 0 (received s id c d) buffer m k
      (made-parent (dir_path s id) (text "metadata") (metadata_path s id) d
        (metadata_path_join s id) metadata_one_element)
      (made_same (dir_path s id) (text "metadata") (metadata_path s id) d (metadata_path_join s id)
          metadata_one_element
        ∙ free.no_metadata_dir)
      enc done
