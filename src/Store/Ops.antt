-- ===== src/Store/Ops.antt =====
-- The methods of Store. Each takes the variable `network`, which encrypt and decrypt read.
use peer_store.Prelude.{ℕ, ◌+◌, Bool, Option, none, some, Bytes, text, length}
use peer_store.Result.{
  GoError, Exec, ok, err, ◌>>=◌, ◌>>◌, pure, encode_failed, decode_failed, encrypt_failed,
  decrypt_failed,
}
use peer_store.Message.{Network, Metadata}
use peer_store.Host.{Host}
use peer_store.Crypto.{encrypt, decrypt, block_size}
use peer_store.Disk.{Disk, ◌//◌, stat, mkdir_all, create, write, open_file, remove_all}
use peer_store.Store.{full_path_name, Store}

abbrev pub or_raise {ℓ} : {A : Type ℓ} {S : Type ℓ} → GoError → Option A → Exec S A
or_raise e none s = (err e, s)
or_raise e (some a) s = (ok a, s)

module _ (h : Host) where
  -- encrypt(src, f): the initialisation vector is the next draw from crypto/rand.
  unfoldable pub encrypt_to : Network → Bytes → Bytes → Exec Disk ℕ
  encrypt_to net path src d =
      let w = encrypt h net (h.random d.draws block_size) src in
      (do write path w.bytes; or_raise encrypt_failed w.result) (record d { draws = d.draws + 1 })

module _ (s : Store) where
  unfoldable pub dir_path : Bytes → Bytes
  dir_path id = s.root // (id // (s.transform id).path_name)

  unfoldable pub full_path : Bytes → Bytes
  full_path id = s.root // (id // full_path_name (s.transform id))

  unfoldable pub metadata_path : Bytes → Bytes
  metadata_path id = s.root // (id // ((s.transform id).path_name // text "metadata"))

  unfoldable pub clear : Exec Disk Unit
  clear = remove_all s.root

  unfoldable pub has : Bytes → Disk → Bool
  unfolding full_path
  has id d = stat (full_path id) d

  unfoldable pub delete : Bytes → Exec Disk Unit
  delete id = remove_all (s.root // id)

  unfoldable pub open_file_for_writing : Bytes → Exec Disk Bytes
  unfolding dir_path full_path
  open_file_for_writing id = do mkdir_all (dir_path id); create (full_path id)

  unfoldable pub write_stream : Bytes → Bytes → Exec Disk ℕ
  unfolding open_file_for_writing
  write_stream id src = do f ← open_file_for_writing id; write f src; pure (length src)

  -- The size and the content: the caller reads the file to its end.
  unfoldable pub read_stream : Bytes → Exec Disk (ℕ × Bytes)
  unfolding full_path
  read_stream id = do file ← open_file (full_path id); pure (length file, file)

  unfoldable pub read : Bytes → Exec Disk (ℕ × Bytes)
  unfolding read_stream
  read id = read_stream id

module _ (h : Host) (s : Store) (net : Network) where
  unfoldable pub write_metadata : Bytes → Bytes → ℕ → ℕ → Exec Disk Unit
  unfolding metadata_path encrypt_to
  write_metadata id key part total_parts = do
    f ← create (metadata_path s id)
    buffer ← or_raise encode_failed (
        h.encode_metadata (record {
          cid = id;
          file_id = (s.transform id).file_name;
          file_name = key;
          part = part;
          total_parts = total_parts;
        }))
    encrypt_to h net f buffer
    pure tt

  unfoldable pub store_write : Bytes → Bytes → Bytes → ℕ → ℕ → Exec Disk ℕ
  unfolding write_stream write_metadata
  store_write id key src part total_parts = do
    n ← write_stream s id src
    write_metadata id key part total_parts
    pure n

  unfoldable pub write_encrypt : Bytes → Bytes → Bytes → ℕ → ℕ → Exec Disk ℕ
  unfolding open_file_for_writing write_metadata encrypt_to
  write_encrypt id key src part total_parts = do
    f ← open_file_for_writing s id
    n ← encrypt_to h net f src
    write_metadata id key part total_parts
    pure n

  unfoldable pub read_metadata : Bytes → Exec Disk Metadata
  unfolding metadata_path
  read_metadata id = do
    file ← open_file (metadata_path s id)
    let w = decrypt h net file
    or_raise decrypt_failed w.result
    or_raise decode_failed (h.decode_metadata w.bytes)

  unfoldable pub read_decrypt : Bytes → Exec Disk (ℕ × Bytes × Metadata)
  unfolding read_stream read_metadata
  read_decrypt id = do
    (size, file) ← read_stream s id
    let w = decrypt h net file
    n ← or_raise decrypt_failed w.result
    metadata ← read_metadata id
    pure (n, w.bytes, metadata)
