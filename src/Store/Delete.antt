-- ===== src/Store/Delete.antt =====
-- Delete takes a file off the disk, and leaves the others.
use peer_store.Prelude.{◌≡◌, true, false, none, refl, ap, sym, ◌∙◌, ◌∷◌, append_assoc, Bytes}
use peer_store.Result.{ok, err, not_exist}
use peer_store.Message.{Network}
use peer_store.Host.{Host}
use peer_store.Disk.Path.{base_join, name-slash}
use peer_store.Disk.{is_name, Disk, slash, ◌//◌, blocked, within, stat}
use peer_store.Disk.Laws.{removed, remove_all_lem, open_file-none}
use peer_store.Disk.Removed.{removed-none, stat-removed}
use peer_store.Store.{Store, full_path_name}
use peer_store.Store.Ops.{full_path, has, delete, read_stream, read_decrypt}

module _ (s : Store) (id : Bytes) where
  pub full_path_below : full_path s id ≡ (s.root // id) // full_path_name (s.transform id)
  unfolding full_path
  full_path_below = sym (append_assoc s.root (slash ∷ id) (slash ∷ full_path_name (s.transform id)))

-- Delete of a name that names an entry of a directory.
pub delete_lem :
    (s : Store) (id : Bytes) (d : Disk)
    → is_name id ≡ true
    → delete s id d ≡ (ok tt, removed (s.root // id) d)
unfolding delete
delete_lem s id d named =
    remove_all_lem (s.root // id) d (ap is_name (base_join s.root id (name-slash id named)) ∙ named)

-- Where no file stands at or above a file's own directory, whose name has no slash and is not "", "."
-- or "..", Delete succeeds; after it Has says that
-- the file is not there, ReadDecrypt fails because there is no such file, and every file outside
-- that directory is as it was.
pub has-delete :
    (h : Host) (s : Store) (net : Network) (id : Bytes) (d : Disk)
    → is_name id ≡ true
    → blocked d (s.root // id) ≡ false
    → (d' : Disk) × (delete s id d ≡ (ok tt, d'))
      × (has s id d' ≡ false)
      × (read_decrypt h s net id d' ≡ (err not_exist, d'))
      × ((q : Bytes) → within (s.root // id) q ≡ false → d'.file q ≡ d.file q)
unfolding has read_decrypt read_stream
has-delete h s net id d named free =
    let d' = removed (s.root // id) d in
    let gone : d'.file (full_path s id) ≡ none =
      ap d'.file (full_path_below s id)
      ∙ removed-none (s.root // id) d (full_path_name (s.transform id)) in
    (
      d',
      delete_lem s id d named,
      ap (λ p. stat p d') (full_path_below s id)
          ∙ stat-removed (s.root // id) d (full_path_name (s.transform id)) free,
      rw (open_file-none (full_path s id) d' gone) refl,
      λ q out. rw out refl,
    )
