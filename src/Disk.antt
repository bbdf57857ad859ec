-- ===== src/Disk.antt =====
-- The part of the os package that store.go uses: files and directories by path, as the text that
-- the program passes. The device has room, nothing else writes to it, and paths are compared
-- as texts: two that name one file by way of "", "." or ".." are apart here.
pub mod Path
pub mod Laws
pub mod Removed
use peer_store.Prelude.{
  ℕ, suc, Bool, true, false, not, ◌&&◌, ◌||◌, Option, none, some, List, [], ◌∷◌, ◌++◌, ◌==◌,
  if◌then◌else◌, Bytes, text, bytes_eq, has_prefix,
}
use peer_store.Result.{Exec, ok, err, not_exist, io_failed}

-- `draws` counts the encryptions so far; each takes its own draw from crypto/rand.
pub record Disk : Type 0 where
  pub file : Bytes → Option Bytes
  pub dir : Bytes → Bool
  pub draws : ℕ

abbrev pub slash : ℕ
slash = b'/'

infixr 66 ◌//◌
abbrev pub ◌//◌ : Bytes → Bytes → Bytes
p // q = p ++ slash ∷ q

abbrev pub is_some {ℓ} : {A : Type ℓ} → Option A → Bool
is_some none = false
is_some (some a) = true

unfoldable pub contains_slash : Bytes → Bool
contains_slash [] = false
contains_slash (c ∷ cs) = c == slash || contains_slash cs

-- The path up to its last slash.
pub parent : Bytes → Bytes
unfolding contains_slash
parent [] = []
parent (c ∷ cs) = if contains_slash cs then c ∷ parent cs else []

-- The last element of the path, what stands behind its last slash.
pub base : Bytes → Bytes
unfolding contains_slash
base [] = []
base (c ∷ cs) =
    let rest = base cs in if contains_slash cs then rest else if c == slash then cs else c ∷ cs

abbrev pub dot : Bytes
dot = text "."

abbrev pub dot_dot : Bytes
dot_dot = text ".."

-- One element of a path that names an entry of a directory.
unfoldable pub is_name : Bytes → Bool
unfolding contains_slash
is_name b = not (contains_slash b || bytes_eq b [] || bytes_eq b dot || bytes_eq b dot_dot)

-- The path and the directories above it: `done` is what stands before the rest.
pub cuts : Bytes → Bytes → List Bytes
cuts done [] = done ∷ []
cuts done (c ∷ cs) = let rest = cuts (done ++ c ∷ []) cs in if c == slash then done ∷ rest else rest

unfoldable pub elem : Bytes → List Bytes → Bool
elem p [] = false
elem p (q ∷ qs) = bytes_eq q p || elem p qs

pub any_file : (Bytes → Option Bytes) → List Bytes → Bool
any_file file [] = false
any_file file (q ∷ qs) = is_some (file q) || any_file file qs

-- The path or something above it is a file.
unfoldable pub blocked : Disk → Bytes → Bool
unfolding cuts any_file
blocked d p = any_file d.file (cuts [] p)

-- `p` itself, or something below it.
unfoldable pub within : Bytes → Bytes → Bool
within p q = bytes_eq q p || has_prefix q (p // [])

-- os.Stat, asked only whether the error is os.ErrNotExist. A file above the path is another error.
unfoldable pub stat : Bytes → Disk → Bool
unfolding blocked
stat p d = d.dir p || blocked d p

-- os.MkdirAll
unfoldable pub mkdir_all : Bytes → Exec Disk Unit
unfolding blocked elem
mkdir_all p d =
    if blocked d p
    then (err io_failed, d)
    else (ok tt, record d { dir = λ q. d.dir q || elem q (cuts [] p) })

abbrev pub update : (Bytes → Option Bytes) → Bytes → Bytes → Bytes → Option Bytes
update file p b q = if bytes_eq p q then some b else file q

-- os.Create: the handle is the path.
unfoldable pub create : Bytes → Exec Disk Bytes
unfolding parent
create p d =
    if d.dir (parent p) && not (d.dir p)
    then (ok p, record d { file = update d.file p [] })
    else (err io_failed, d)

abbrev pub or_empty : Option Bytes → Bytes
or_empty none = []
or_empty (some b) = b

-- Writes through a handle, one after the other.
unfoldable pub write : Bytes → Bytes → Exec Disk Unit
write p b d = (ok tt, record d { file = update d.file p (or_empty (d.file p) ++ b) })

-- os.Open and a Read to the end; opening a directory counts as a failure.
unfoldable pub open_file : Bytes → Exec Disk Bytes
open_file p d = elim (d.file p) [ none ↦ (err not_exist, d) | some b ↦ (ok b, d) ]

-- The disk without the paths that the test names.
abbrev pub cleared : (Bytes → Bool) → Disk → Disk
cleared gone d = record d {
  file = λ q. if gone q then none else d.file q;
  dir = λ q. d.dir q && not (gone q);
}

-- Below the directory; where nothing is left of its text, that is the directory in which all paths
-- of the program start.
below : Bytes → Bytes → Bool
below p q = bytes_eq p [] || has_prefix q (p // [])

-- os.RemoveAll, which has no error for a path that is not there. A path that ends in a slash is the
-- directory before it. A last element "." is refused. With a last element ".." everything in the
-- directory that holds the one before it is removed, and then that directory cannot be.
unfoldable pub remove_all : Bytes → Exec Disk Unit
unfolding base within parent below
remove_all p d =
    if bytes_eq (base p) dot
    then (err io_failed, d)
    else if bytes_eq (base p) dot_dot
    then (if d.dir (parent p)
        then (err io_failed, cleared (below (parent (parent p))) d)
        else (ok tt, d))
    else if bytes_eq (base p) []
    then (ok tt, cleared (within (parent p)) d)
    else (ok tt, cleared (within p) d)
