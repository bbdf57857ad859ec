-- ===== src/Disk/Laws.antt =====
-- What the operations on files do, one equation for each, for use with the operations shut.
use peer_store.Prelude.{
  ◌≡◌, refl, ap, ◌∙◌, true, false, ◌||◌, none, some, arith, [], ◌∷◌, ◌++◌, List, Option, Bytes,
  bytes_eq_iff,
}
use peer_store.Result.{ok, err, not_exist}
use peer_store.Disk.{
  Disk, update, or_empty, parent, cuts, elem, any_file, contains_slash, ◌//◌, blocked, within, stat,
  mkdir_all, create, write, open_file, remove_all, cleared, base, is_name,
}
use peer_store.Disk.Path.{parent_join, elem-cuts_self, elem-cuts_join}

abbrev pub made : Bytes → Disk → Disk
made p d = record d { dir = λ q. d.dir q || elem q (cuts [] p) }

abbrev pub put : Bytes → Bytes → Disk → Disk
put p b d = record d { file = update d.file p b }

abbrev pub removed : Bytes → Disk → Disk
removed p d = cleared (within p) d

module _ (p : Bytes) (d : Disk) where
  pub mkdir_all_lem : blocked d p ≡ false → mkdir_all p d ≡ (ok tt, made p d)
  unfolding mkdir_all
  mkdir_all_lem h = ground arith

  pub create_lem : d.dir (parent p) ≡ true → d.dir p ≡ false → create p d ≡ (ok p, put p [] d)
  unfolding create
  create_lem h k = ground arith

  pub write_lem : (b : Bytes) → write p b d ≡ (ok tt, put p (or_empty (d.file p) ++ b) d)
  unfolding write
  write_lem b = refl

  pub open_file_lem : (b : Bytes) → d.file p ≡ some b → open_file p d ≡ (ok b, d)
  unfolding open_file
  open_file_lem b h = ground arith

  pub open_file-none : d.file p ≡ none → open_file p d ≡ (err not_exist, d)
  unfolding open_file
  open_file-none h = ground arith

  -- A path whose last element names an entry of a directory.
  pub remove_all_lem : is_name (base p) ≡ true → remove_all p d ≡ (ok tt, removed p d)
  unfolding remove_all is_name
  remove_all_lem named = ground arith

  any_file-elem :
      (b : Bytes) (l : List Bytes) → d.file p ≡ some b → elem p l ≡ true → any_file d.file l ≡ true
  unfolding any_file elem
  any_file-elem b [] h e = cc
  any_file-elem b (q ∷ qs) h e = ground (arith, bytes_eq_iff q p, any_file-elem b qs h)

  pub stat_lem : (b : Bytes) → d.file p ≡ some b → stat p d ≡ true
  unfolding stat
  stat_lem b h = ground (arith, any_file-elem b (cuts [] p) h (elem-cuts_self p))

-- On a disk without files nothing is in the way of a path.
no_files :
    (file : Bytes → Option Bytes) (l : List Bytes)
    → ((q : Bytes) → file q ≡ none)
    → any_file file l ≡ false
unfolding any_file
no_files file [] h = refl
no_files file (q ∷ qs) h = ground (arith, h q, no_files file qs h)

pub blocked-none : (d : Disk) (p : Bytes) → ((q : Bytes) → d.file q ≡ none) → blocked d p ≡ false
unfolding blocked
blocked-none d p h = no_files d.file (cuts [] p) h

-- A file right below a directory that was made: its parent is there, and the directories that were
-- made are not in its place.
module _ (p n q : Bytes) (d : Disk) (below : q ≡ p // n) (plain : contains_slash n ≡ false) where
  pub made-parent : (made p d).dir (parent q) ≡ true
  made-parent =
      let here : parent q ≡ p = ap parent below ∙ parent_join p n plain in
      ground (arith, elem-cuts_self p, ap (λ (x : Bytes). d.dir x || elem x (cuts [] p)) here)

  pub made_same : (made p d).dir q ≡ d.dir q
  made_same = ground (arith, ap (λ (x : Bytes). elem x (cuts [] p)) below, elem-cuts_join p n)
