-- ===== src/Store/RoundTrip.antt =====
-- What WriteEncrypt stores, ReadDecrypt returns.
use peer_store.Prelude.{
  ℕ, ◌+◌, ◌≡◌, ◌≢◌, ◌∙◌, refl, true, some, arith, [], length, Bytes, text, bytes_eq_iff,
  bytes_eq_refl,
}
use peer_store.Result.{ok}
use peer_store.Message.{Network, Metadata}
use peer_store.Host.{Host, HostLaws, AreBytes}
use peer_store.Crypto.{encrypt}
use peer_store.Crypto.RoundTrip.{IsKeyed, wrote, decrypt-encrypt}
use peer_store.Disk.{Disk}
use peer_store.Disk.Laws.{made-parent, made_same, made, put, stat_lem}
use peer_store.Store.{Store}
use peer_store.Store.Ops.{dir_path, full_path, metadata_path, has, write_encrypt, read_decrypt}
use peer_store.Store.Written.{
  IsPlain, IsFree, metadata_path_join, metadata_one_element, encrypted, encrypt_to_lem, open_lem,
  paths_differ, metadata_of, write_metadata_lem, read_decrypt_lem,
}

-- The disk after WriteEncrypt has written the encrypted file `c` and the encrypted metadata `m`.
pub stored : Store → Bytes → Bytes → Bytes → Disk → Disk
stored s id c m d =
    let e = encrypted (full_path s id) c (put (full_path s id) [] (made (dir_path s id) d)) in
    encrypted (metadata_path s id) m (put (metadata_path s id) [] e)

stored_draws : (s : Store) (id c m : Bytes) (d : Disk) → (stored s id c m d).draws ≡ d.draws + 2
unfolding stored
stored_draws s id c m d = omega arith

module _ (s : Store) (id c m : Bytes) (d : Disk)
    (differ : full_path s id ≢ metadata_path s id) where
  pub file_stored : (stored s id c m d).file (full_path s id) ≡ some c
  unfolding stored
  file_stored =
      ground
        (arith, bytes_eq_iff (metadata_path s id) (full_path s id), bytes_eq_refl (full_path s id))

  pub metadata_stored : (stored s id c m d).file (metadata_path s id) ≡ some m
  unfolding stored
  metadata_stored = ground (arith, bytes_eq_refl (metadata_path s id))

  others_kept :
      (q : Bytes)
      → q ≢ full_path s id
      → q ≢ metadata_path s id
      → (stored s id c m d).file q ≡ d.file q
  unfolding stored
  others_kept q a b =
      ground (arith, bytes_eq_iff (metadata_path s id) q, bytes_eq_iff (full_path s id) q)

module _ (h : Host) (s : Store) (net : Network) (id key src : Bytes) (part total_parts : ℕ)
    (d : Disk) (plain : IsPlain (s.transform id)) (free : IsFree s id d) where
  pub write_encrypt_lem :
      (c buffer m : Bytes) (n k : ℕ)
      → encrypt h net (h.random d.draws 16) src ≡ wrote c n
      → h.encode_metadata (metadata_of s id key part total_parts) ≡ some buffer
      → encrypt h net (h.random (d.draws + 1) 16) buffer ≡ wrote m k
      → write_encrypt h s net id key src part total_parts d ≡ (ok n, stored s id c m d)
  unfolding write_encrypt stored
  write_encrypt_lem c buffer m n k done enc done' =
      let opened = put (full_path s id) [] (made (dir_path s id) d) in
      rw
        (
          open_lem s id d plain free,
          encrypt_to_lem h net (full_path s id) src c n opened done,
          write_metadata_lem h s net id key part total_parts (encrypted (full_path s id) c opened)
              buffer m k
              (made-parent (dir_path s id) (text "metadata") (metadata_path s id) d
                (metadata_path_join s id) metadata_one_element)
              (made_same (dir_path s id) (text "metadata") (metadata_path s id) d
                  (metadata_path_join s id) metadata_one_element
                ∙ free.no_metadata_dir)
              enc done',
        )
        refl

-- What a reader finds under `id` after a write, and what the write left alone.
pub record IsStored (h : Host) (s : Store) (net : Network) (id src : Bytes) (n : ℕ)
    (metadata : Metadata) (d d' : Disk) : Type 0 where
  pub read_back : read_decrypt h s net id d' ≡ (ok (n, src, metadata), d')
  pub present : has s id d' ≡ true
  pub kept : (q : Bytes) → q ≢ full_path s id → q ≢ metadata_path s id → d'.file q ≡ d.file q
  pub drawn : d'.draws ≡ d.draws + 2

-- On a host that keeps its laws, where nothing on the disk is in the way, the file's name is plain,
-- the network's key fits and the random source gives two initialisation vectors: WriteEncrypt of a file of bytes succeeds, and
-- after it ReadDecrypt returns the same bytes, with the number that WriteEncrypt returned and the
-- metadata that it was given; Has says that the file is there; and no file but the two that were
-- written has changed.
pub read-write :
    (h : Host) (laws : HostLaws h) (s : Store) (net : Network) (id key src : Bytes)
    (part total_parts : ℕ) (d : Disk) (v v' : Bytes)
    → IsKeyed net
    → IsPlain (s.transform id)
    → IsFree s id d
    → AreBytes src
    → h.random d.draws 16 ≡ some v
    → h.random (d.draws + 1) 16 ≡ some v'
    → (n : ℕ) × (d' : Disk) × (write_encrypt h s net id key src part total_parts d ≡ (ok n, d'))
      × IsStored h s net id src n (metadata_of s id key part total_parts) d d'
unfolding has
read-write h laws s net id key src part total_parts d v v' keyed plain free bytes r r' =
    let metadata = metadata_of s id key part total_parts in
    let differ = paths_differ s id d plain free in
    let (buffer, enc, buffer_bytes) = laws.encodes_metadata metadata in
    let (c, (done, dec)) =
      decrypt-encrypt h laws net v src (laws.random_length _ 16 v r) bytes keyed in
    let (m, (done', dec')) =
      decrypt-encrypt h laws net v' buffer (laws.random_length _ 16 v' r') buffer_bytes keyed in
    (
      length c,
      stored s id c m d,
      write_encrypt_lem h s net id key src part total_parts d plain free c buffer m (length c)
          (length m) (rw r done) enc (rw r' done'),
      record {
        read_back =
            read_decrypt_lem h s net id (stored s id c m d) c m src buffer (length c) (length m)
              metadata (file_stored s id c m d differ) (metadata_stored s id c m d differ) dec dec'
              (laws.decode-encode_metadata metadata buffer enc);
        present = stat_lem (full_path s id) (stored s id c m d) c (file_stored s id c m d differ);
        kept = others_kept s id c m d differ;
        drawn = stored_draws s id c m d;
      },
    )
