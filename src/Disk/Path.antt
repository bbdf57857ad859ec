-- ===== src/Disk/Path.antt =====
-- Paths: the parent of a file, the directories above it.
use peer_store.Prelude.{
  ◌+◌, ◌≤◌, ◌≡◌, true, false, [], ◌∷◌, ◌++◌, append_assoc, arith, length, length-append, Bytes,
  bytes_eq, bytes_eq_iff, bytes_eq_refl, ap, sym, ◌∙◌, append-nil, Bool-cases, inl, inr,
}
use peer_store.Disk.{contains_slash, is_name, base, parent, cuts, elem, slash, ◌//◌}

contains_slash_join : (p n : Bytes) → contains_slash (p // n) ≡ true
unfolding contains_slash
contains_slash_join [] n = ground arith
contains_slash_join (c ∷ p) n = ground (arith, contains_slash_join p n)

pub base_join : (p n : Bytes) → contains_slash n ≡ false → base (p // n) ≡ n
unfolding base
base_join [] n h = ground arith
base_join (c ∷ p) n h = ground (arith, contains_slash_join p n, base_join p n h)

pub name-slash : (n : Bytes) → is_name n ≡ true → contains_slash n ≡ false
unfolding is_name
name-slash n h = ground arith

-- The parent of a file is the directory that it was joined to.
pub parent_join : (p n : Bytes) → contains_slash n ≡ false → parent (p // n) ≡ p
unfolding parent
parent_join [] n h = ground arith
parent_join (c ∷ p) n h = ground (arith, contains_slash_join p n, parent_join p n h)

elem-cuts_last : (done p : Bytes) → elem (done ++ p) (cuts done p) ≡ true
unfolding elem cuts
elem-cuts_last done [] = rw append-nil (ground (arith, bytes_eq_refl done))
elem-cuts_last done (c ∷ p) =
    let last : elem (done ++ c ∷ p) (cuts (done ++ c ∷ []) p) ≡ true =
      ap (λ (q : Bytes). elem q (cuts (done ++ c ∷ []) p)) (sym (append_assoc done (c ∷ []) p))
      ∙ elem-cuts_last (done ++ c ∷ []) p in
    ground (arith, last)

-- A directory is at or above itself.
pub elem-cuts_self : (p : Bytes) → elem p (cuts [] p) ≡ true
elem-cuts_self p = elem-cuts_last [] p

-- No directory at or above a path is longer than the path.
elem-cuts_short :
    (q done p : Bytes) → elem q (cuts done p) ≡ true → length q ≤ length done + length p
unfolding elem cuts
elem-cuts_short q done [] h =
    let same : done ≡ q = (bytes_eq_iff done q).0 (ground arith) in rw same (omega arith)
elem-cuts_short q done (c ∷ p) h = elim (Bool-cases (bytes_eq done q)) [
  | inl same ↦ rw ((bytes_eq_iff done q).0 same) (omega arith)
  | inr other ↦
      omega
        (arith, elem-cuts_short q (done ++ c ∷ []) p (ground arith), length-append done (c ∷ []))
]

-- What is joined to a directory is not at or above the directory.
pub elem-cuts_join : (p n : Bytes) → elem (p // n) (cuts [] p) ≡ false
elem-cuts_join p n = elim (Bool-cases (elem (p // n) (cuts [] p))) [
  | inl above ↦
      absurd (omega (arith, elem-cuts_short (p // n) [] p above, length-append p (slash ∷ n)))
  | inr other ↦ other
]

-- What is joined to one directory at one path is the same.
pub join_injective : (p a b : Bytes) → p // a ≡ p // b → a ≡ b
join_injective [] a b h = cc
join_injective (c ∷ p) a b h = join_injective p a b (cc)
