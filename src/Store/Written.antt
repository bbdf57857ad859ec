-- ===== src/Store/Written.antt =====
-- What the steps of WriteEncrypt and of ReadDecrypt do where nothing is in their way.
use peer_store.Prelude.{
  ℕ, ◌+◌, ◌≡◌, ◌≢◌, ◌∙◌, sym, refl, true, false, some, [], ◌++◌, append_assoc, Bytes, text,
}
use peer_store.Result.{ok, bind_ok}
use peer_store.Message.{Network, Metadata}
use peer_store.Host.{Host}
use peer_store.Crypto.{encrypt, decrypt}
use peer_store.Crypto.RoundTrip.{wrote}
use peer_store.Disk.{
  Disk, ◌//◌, contains_slash, parent, or_empty, blocked, mkdir_all, create, write,
}
use peer_store.Disk.Path.{join_injective}
use peer_store.Disk.Laws.{
  made-parent, made_same, made, put, mkdir_all_lem, create_lem, open_file_lem,
}
use peer_store.Store.{PathKey, full_path_name, Store}
use peer_store.Store.Ops.{
  dir_path, full_path, metadata_path, open_file_for_writing, encrypt_to, write_metadata,
  read_decrypt,
}

-- The file's name is one path element and is not the name of the metadata.
pub record IsPlain (k : PathKey) : Type 0 where
  pub one_element : contains_slash k.file_name ≡ false
  pub not_metadata : k.file_name ≢ text "metadata"

-- Nothing on the disk is in the way of the file and its metadata.
pub record IsFree (s : Store) (id : Bytes) (d : Disk) : Type 0 where
  pub above : blocked d (dir_path s id) ≡ false
  pub no_dir : d.dir (full_path s id) ≡ false
  pub no_metadata_dir : d.dir (metadata_path s id) ≡ false

module _ (s : Store) (id : Bytes) where
  pub full_path_join : full_path s id ≡ dir_path s id // (s.transform id).file_name
  unfolding full_path dir_path full_path_name
  full_path_join = simp append_assoc

  pub metadata_path_join : metadata_path s id ≡ dir_path s id // text "metadata"
  unfolding metadata_path dir_path
  metadata_path_join = simp append_assoc

pub metadata_one_element : contains_slash (text "metadata") ≡ false
unfolding contains_slash
metadata_one_element = refl

abbrev pub encrypted : Bytes → Bytes → Disk → Disk
encrypted p c d = record (put p (or_empty (d.file p) ++ c) d) { draws = d.draws + 1 }

pub encrypt_to_lem :
    (h : Host) (net : Network) (p src c : Bytes) (n : ℕ) (d : Disk)
    → encrypt h net (h.random d.draws 16) src ≡ wrote c n
    → encrypt_to h net p src d ≡ (ok n, encrypted p c d)
unfolding encrypt_to write
encrypt_to_lem h net p src c n d e = rw e refl

module _ (s : Store) (id : Bytes) (d : Disk) (plain : IsPlain (s.transform id))
    (free : IsFree s id d) where
  pub open_lem :
      open_file_for_writing s id d
      ≡ (ok (full_path s id), put (full_path s id) [] (made (dir_path s id) d))
  unfolding open_file_for_writing
  open_lem =
      bind_ok (mkdir_all (dir_path s id)) (λ _. create (full_path s id)) d (made (dir_path s id) d)
        tt (mkdir_all_lem (dir_path s id) d free.above)
      ∙ create_lem (full_path s id) (made (dir_path s id) d)
          (made-parent (dir_path s id) (s.transform id).file_name (full_path s id) d
            (full_path_join s id) plain.one_element)
          (made_same (dir_path s id) (s.transform id).file_name (full_path s id) d
              (full_path_join s id) plain.one_element
            ∙ free.no_dir)

  -- The two paths differ in their last element.
  pub paths_differ : full_path s id ≢ metadata_path s id
  paths_differ e = plain.not_metadata (
      join_injective (dir_path s id) (s.transform id).file_name (text "metadata")
        (sym (full_path_join s id) ∙ e ∙ metadata_path_join s id))

abbrev pub metadata_of : Store → Bytes → Bytes → ℕ → ℕ → Metadata
metadata_of s id key part total_parts = record {
  cid = id;
  file_id = (s.transform id).file_name;
  file_name = key;
  part = part;
  total_parts = total_parts;
}

module _ (h : Host) (s : Store) (net : Network) (id key : Bytes) (part total_parts : ℕ) where
  pub write_metadata_lem :
      (d : Disk) (buffer c : Bytes) (n : ℕ)
      → d.dir (parent (metadata_path s id)) ≡ true
      → d.dir (metadata_path s id) ≡ false
      → h.encode_metadata (metadata_of s id key part total_parts) ≡ some buffer
      → encrypt h net (h.random d.draws 16) buffer ≡ wrote c n
      → write_metadata h s net id key part total_parts d
        ≡ (ok tt, encrypted (metadata_path s id) c (put (metadata_path s id) [] d))
  unfolding write_metadata
  write_metadata_lem d buffer c n there no_dir enc done =
      rw
        (
          create_lem (metadata_path s id) d there no_dir,
          enc,
          encrypt_to_lem h net (metadata_path s id) buffer c n (put (metadata_path s id) [] d) done,
        )
        refl

module _ (h : Host) (s : Store) (net : Network) (id : Bytes) (d : Disk) (c m : Bytes) where
  pub read_decrypt_lem :
      (src buffer : Bytes) (n k : ℕ) (metadata : Metadata)
      → d.file (full_path s id) ≡ some c
      → d.file (metadata_path s id) ≡ some m
      → decrypt h net c ≡ wrote src n
      → decrypt h net m ≡ wrote buffer k
      → h.decode_metadata buffer ≡ some metadata
      → read_decrypt h s net id d ≡ (ok (n, src, metadata), d)
  unfolding read_decrypt
  read_decrypt_lem src buffer n k metadata there meta dec dec' value =
      rw
        (
          open_file_lem (full_path s id) d c there,
          dec,
          open_file_lem (metadata_path s id) d m meta,
          dec',
          value,
        )
        refl
