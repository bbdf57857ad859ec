-- ===== src/Store/Apart.antt =====
-- Names without a slash have their files apart.
use peer_store.Prelude.{
  ◌≡◌, ◌≢◌, ◌⊎◌, inl, inr, refl, sym, ap, ◌∙◌, true, false, arith, [], ◌∷◌, ◌++◌, append_assoc,
  ==→eq, Bytes, bytes_eq, bytes_eq_iff, has_prefix, Bool-cases,
}
use peer_store.Disk.{slash, ◌//◌, contains_slash, within}
use peer_store.Disk.Path.{join_injective}
use peer_store.Store.{Store}
use peer_store.Store.Ops.{full_path, metadata_path}

first_same :
    (a b x y : Bytes)
    → contains_slash a ≡ false
    → contains_slash b ≡ false
    → a // x ≡ b // y
    → a ≡ b
unfolding contains_slash
first_same [] [] x y ha hb e = refl
first_same [] (c ∷ b) x y ha hb e = let head : c ≡ slash = cc e in ground (arith, head)
first_same (c ∷ a) [] x y ha hb e = let head : c ≡ slash = cc e in ground (arith, head)
first_same (c ∷ a) (k ∷ b) x y ha hb e =
    let head : c ≡ k = cc e in
    let tail = first_same a b x y (ground arith) (ground arith) (cc e) in cc (head, tail)

-- The directories of two names under one root are apart, in whatever lies below them.
pub below_same :
    (root a b x y : Bytes)
    → contains_slash a ≡ false
    → contains_slash b ≡ false
    → root // (a // x) ≡ root // (b // y)
    → a ≡ b
below_same root a b x y ha hb e = first_same a b x y ha hb (join_injective root (a // x) (b // y) e)

no_slash_join : (a x : Bytes) → contains_slash (a // x) ≡ true
unfolding contains_slash
no_slash_join [] x = ground arith
no_slash_join (c ∷ a) x = ground (arith, no_slash_join a x)

has_prefix_split : (s p : Bytes) → has_prefix s p ≡ true → (y : Bytes) × (s ≡ p ++ y)
unfolding has_prefix
has_prefix_split s [] h = (s, refl)
has_prefix_split [] (k ∷ p) h = cc h
has_prefix_split (c ∷ s) (k ∷ p) h =
    let (y, e) = has_prefix_split s p (ground arith) in
    let head : c ≡ k = ==→eq c k (ground arith) in (y, cc (head, e))

within_split : (p q : Bytes) → within p q ≡ true → (q ≡ p) ⊎ ((y : Bytes) × (q ≡ p // y))
unfolding within
within_split p q h = elim (Bool-cases (bytes_eq q p)) [
  | inl e ↦ inl ((bytes_eq_iff q p).0 e)
  | inr e ↦
      let (y, s) = has_prefix_split q (p // []) (ground arith) in
      inr (y, s ∙ append_assoc p (slash ∷ []) y)
]

-- What lies below one name is not within the directory of another.
pub outside :
    (root a b x : Bytes)
    → contains_slash a ≡ false
    → contains_slash b ≡ false
    → a ≢ b
    → within (root // a) (root // (b // x)) ≡ false
outside root a b x ha hb ne = elim (Bool-cases (within (root // a) (root // (b // x)))) [
  | inr out ↦ out
  | inl h ↦ elim (within_split (root // a) (root // (b // x)) h) [
    | inl e ↦
        let same = join_injective root (b // x) a e in
        cc (ap contains_slash same, no_slash_join b x, ha)
    | inr (y, e) ↦
        absurd
          (ne (sym (below_same root b a x y hb ha (e ∙ append_assoc root (slash ∷ a) (slash ∷ y)))))
  ]
]

module _ (s : Store) (a b : Bytes) (ha : contains_slash a ≡ false) (hb : contains_slash b ≡ false)
    (ne : a ≢ b) where
  pub full_apart : full_path s b ≢ full_path s a
  unfolding full_path
  full_apart e = ne (sym (below_same s.root b a _ _ hb ha e))

  pub full_metadata_apart : full_path s b ≢ metadata_path s a
  unfolding full_path metadata_path
  full_metadata_apart e = ne (sym (below_same s.root b a _ _ hb ha e))

  pub metadata_full_apart : metadata_path s b ≢ full_path s a
  unfolding full_path metadata_path
  metadata_full_apart e = ne (sym (below_same s.root b a _ _ hb ha e))

  pub metadata_apart : metadata_path s b ≢ metadata_path s a
  unfolding metadata_path
  metadata_apart e = ne (sym (below_same s.root b a _ _ hb ha e))

  pub full_outside : within (s.root // a) (full_path s b) ≡ false
  unfolding full_path
  full_outside = outside s.root a b _ ha hb ne

  pub metadata_outside : within (s.root // a) (metadata_path s b) ≡ false
  unfolding metadata_path
  metadata_outside = outside s.root a b _ ha hb ne
