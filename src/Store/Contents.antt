-- ===== src/Store/Contents.antt =====
-- The store as a map from names to files: what each operation of the store does to the map.
use peer_store.Prelude.{
  ℕ, ◌+◌, ◌≡◌, ◌≢◌, refl, sym, ap, subst, ◌∙◌, true, false, none, some, Option, Bytes, bytes_eq,
  bytes_eq_iff, if◌then◌else◌, Bool-cases, inl, inr,
}
use peer_store.Result.{ok}
use peer_store.Message.{Network, Metadata}
use peer_store.Host.{Host, HostLaws, AreBytes}
use peer_store.Crypto.RoundTrip.{IsKeyed}
use peer_store.Disk.{Disk, ◌//◌, is_name, within}
use peer_store.Store.{Store, full_path_name}
use peer_store.Store.Ops.{full_path, metadata_path, write_encrypt, read_decrypt, delete}
use peer_store.Disk.Path.{name-slash}
use peer_store.Disk.Laws.{removed}
use peer_store.Disk.Removed.{removed-none}
use peer_store.Store.Written.{IsPlain, IsFree, metadata_of}
use peer_store.Store.RoundTrip.{IsStored, read-write}
use peer_store.Store.Delete.{full_path_below, delete_lem}
use peer_store.Store.Frame.{read_same}
use peer_store.Store.Apart.{
  full_apart, full_metadata_apart, metadata_full_apart, metadata_apart, full_outside,
  metadata_outside,
}

-- Each name with the file and its metadata.
abbrev pub Contents : Type 0
Contents = Bytes → Option (Bytes × Metadata)

abbrev pub insert : Bytes → Bytes × Metadata → Contents → Contents
insert id v m k = if bytes_eq id k then some v else m k

abbrev pub erase : Bytes → Contents → Contents
erase id m k = if bytes_eq id k then none else m k

-- The disk holds exactly the map, for names that are entries of a directory, which have no slash and are
-- not "", "." or "..": ReadDecrypt finds what is in it, and for what is not in it there is no file.
pub record Represents (h : Host) (s : Store) (net : Network) (m : Contents) (d : Disk)
    : Type 0 where
  pub found :
      (id : Bytes) (v : Bytes × Metadata)
      → is_name id ≡ true
      → m id ≡ some v
      → (n : ℕ) × (read_decrypt h s net id d ≡ (ok (n, v.0, v.1), d))
  pub missing : (id : Bytes) → is_name id ≡ true → m id ≡ none → d.file (full_path s id) ≡ none

insert_same :
    (id k : Bytes) (v : Bytes × Metadata) (m : Contents)
    → bytes_eq id k ≡ true
    → insert id v m k ≡ some v
insert_same id k v m e = rw e refl

insert_other :
    (id k : Bytes) (v : Bytes × Metadata) (m : Contents)
    → bytes_eq id k ≡ false
    → insert id v m k ≡ m k
insert_other id k v m e = rw e refl

erase_other : (id k : Bytes) (m : Contents) → bytes_eq id k ≡ false → erase id m k ≡ m k
erase_other id k m e = rw e refl

erase_same : (id k : Bytes) (m : Contents) → bytes_eq id k ≡ true → erase id m k ≡ none
erase_same id k m e = rw e refl

apart : (id k : Bytes) → bytes_eq id k ≡ false → id ≢ k
apart id k other same = cc (other, (bytes_eq_iff id k).1 same)

module _ (h : Host) (s : Store) (net : Network) (m : Contents) (d d' : Disk) (id : Bytes)
    (named_id : is_name id ≡ true) (rep : Represents h s net m d) where
  -- A change that keeps the files of the other names keeps what is found of them.
  abbrev Keeps : Bytes → Type 0
  Keeps k =
      (d'.file (full_path s k) ≡ d.file (full_path s k))
      × (d'.file (metadata_path s k) ≡ d.file (metadata_path s k))

  others_found :
      (k : Bytes) (v : Bytes × Metadata)
      → is_name k ≡ true
      → Keeps k
      → m k ≡ some v
      → (n : ℕ) × (read_decrypt h s net k d' ≡ (ok (n, v.0, v.1), d'))
  others_found k v plain keeps e =
      let (n, ran) = rep.found k v plain e in
      (n, read_same h s net k d d' (n, v.0, v.1) keeps.0 keeps.1 ran)

  found_same :
      (src : Bytes) (metadata : Metadata) (n : ℕ)
      → IsStored h s net id src n metadata d d'
      → (k : Bytes) (v : Bytes × Metadata) → id ≡ k
      → some (src, metadata) ≡ some v
      → (n' : ℕ) × (read_decrypt h s net k d' ≡ (ok (n', v.0, v.1), d'))
  found_same src metadata n stored k v same e =
      let value : (src, metadata) ≡ v = cc e in
      (
        n,
        subst (λ j. read_decrypt h s net j d' ≡ (ok (n, v.0, v.1), d')) same
            (subst (λ (w : Bytes × Metadata). read_decrypt h s net id d' ≡ (ok (n, w.0, w.1), d'))
              value stored.read_back),
      )

  insert-Represents :
      (src : Bytes) (metadata : Metadata) (n : ℕ)
      → IsStored h s net id src n metadata d d'
      → Represents h s net (insert id (src, metadata) m) d'
  insert-Represents src metadata n stored =
      let keeps : (k : Bytes) → is_name k ≡ true → id ≢ k → Keeps k = λ k named ne.
        let plain = name-slash k named in
        (
          stored.kept (full_path s k) (full_apart s id k (name-slash id named_id) plain ne)
              (full_metadata_apart s id k (name-slash id named_id) plain ne),
          stored.kept (metadata_path s k)
              (metadata_full_apart s id k (name-slash id named_id) plain ne)
              (metadata_apart s id k (name-slash id named_id) plain ne),
        ) in
      record {
        found = λ k v plain e. elim (Bool-cases (bytes_eq id k)) [
          | inl same ↦
              found_same src metadata n stored k v ((bytes_eq_iff id k).0 same)
                (sym (insert_same id k (src, metadata) m same) ∙ e)
          | inr other ↦
              others_found k v plain (keeps k plain (apart id k other))
                (sym (insert_other id k (src, metadata) m other) ∙ e)
        ];
        missing = λ k plain e. elim (Bool-cases (bytes_eq id k)) [
          | inl same ↦ cc (insert_same id k (src, metadata) m same, e)
          | inr other ↦
              (keeps k plain (apart id k other)).0
              ∙ rep.missing k plain (sym (insert_other id k (src, metadata) m other) ∙ e)
        ];
      }

  erase-Represents :
      ((q : Bytes) → within (s.root // id) q ≡ false → d'.file q ≡ d.file q)
      → d'.file (full_path s id) ≡ none
      → Represents h s net (erase id m) d'
  erase-Represents kept gone =
      let keeps : (k : Bytes) → is_name k ≡ true → id ≢ k → Keeps k = λ k named ne.
        let plain = name-slash k named in
        (
          kept (full_path s k) (full_outside s id k (name-slash id named_id) plain ne),
          kept (metadata_path s k) (metadata_outside s id k (name-slash id named_id) plain ne),
        ) in
      record {
        found = λ k v plain e. elim (Bool-cases (bytes_eq id k)) [
          | inl same ↦ cc (erase_same id k m same, e)
          | inr other ↦
              others_found k v plain (keeps k plain (apart id k other))
                (sym (erase_other id k m other) ∙ e)
        ];
        missing = λ k plain e. elim (Bool-cases (bytes_eq id k)) [
          | inl same ↦
              ap (λ (j : Bytes). d'.file (full_path s j)) (sym ((bytes_eq_iff id k).0 same)) ∙ gone
          | inr other ↦
              (keeps k plain (apart id k other)).0
              ∙ rep.missing k plain (sym (erase_other id k m other) ∙ e)
        ];
      }

deleted_file :
    (s : Store) (id : Bytes) (d : Disk) → (removed (s.root // id) d).file (full_path s id) ≡ none
deleted_file s id d =
    ap (removed (s.root // id) d).file (full_path_below s id)
    ∙ removed-none (s.root // id) d (full_path_name (s.transform id))

-- WriteEncrypt refines the insertion into a map, for names that have no slash and are not "", "." or
-- "..": where the disk holds the map, nothing on it is in the way of the new file, whose own name is plain, the network's key fits,
-- the host keeps its laws and gives two initialisation vectors, it succeeds, and the disk holds the
-- map with the file and its metadata under the name and every other such name as it was.
pub write_encrypt-Represents :
    (h : Host) (laws : HostLaws h) (s : Store) (net : Network) (m : Contents) (id key src : Bytes)
    (part total_parts : ℕ) (d : Disk) (v v' : Bytes)
    → Represents h s net m d
    → is_name id ≡ true
    → IsKeyed net
    → IsPlain (s.transform id)
    → IsFree s id d
    → AreBytes src
    → h.random d.draws 16 ≡ some v
    → h.random (d.draws + 1) 16 ≡ some v'
    → (n : ℕ) × (d' : Disk) × (write_encrypt h s net id key src part total_parts d ≡ (ok n, d'))
      × Represents h s net (insert id (src, metadata_of s id key part total_parts) m) d'
write_encrypt-Represents h laws s net m id key src part total_parts d v v' rep named_id keyed plain
      free bytes r r' =
    let (n, d', ran, stored) =
      read-write h laws s net id key src part total_parts d v v' keyed plain free bytes r r' in
    (
      n,
      d',
      ran,
      insert-Represents h s net m d d' id named_id rep src (metadata_of s id key part total_parts) n
          stored,
    )

-- Delete refines the removal from a map, for names that have no slash and are not "", "." or "..": where
-- the disk holds the map, it succeeds, and the disk holds the map without the name.
pub delete-Represents :
    (h : Host) (s : Store) (net : Network) (m : Contents) (id : Bytes) (d : Disk)
    → Represents h s net m d
    → is_name id ≡ true
    → (d' : Disk) × (delete s id d ≡ (ok tt, d')) × Represents h s net (erase id m) d'
delete-Represents h s net m id d rep named_id =
    let d' = removed (s.root // id) d in
    (
      d',
      delete_lem s id d named_id,
      erase-Represents h s net m d d' id named_id rep (λ q out. rw out refl) (deleted_file s id d),
    )
