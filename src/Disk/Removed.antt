-- ===== src/Disk/Removed.antt =====
-- What os.RemoveAll leaves behind.
use peer_store.Prelude.{
  ◌≡◌, Bool, true, false, ◌||◌, none, Option, refl, ap, sym, ◌∙◌, arith, List, [], ◌∷◌, ◌++◌,
  append_assoc, append-nil, Bytes, has_prefix, has_prefix_append, if◌then◌else◌, Bool-cases, inl,
  inr,
}
use peer_store.Disk.{Disk, slash, ◌//◌, is_some, cuts, any_file, blocked, within, stat}
use peer_store.Disk.Laws.{removed}

neither : (a b : Bool) → a ≡ false → b ≡ false → (a || b) ≡ false
neither a b h k = ground arith

module _ (file : Bytes → Option Bytes) where
  fewer_files :
      (p : Bytes) (ps : List Bytes)
      → any_file file ps ≡ false
      → any_file (λ q. if within p q then none else file q) ps ≡ false
  unfolding any_file
  fewer_files p [] h = refl
  fewer_files p (q ∷ ps) h = elim (Bool-cases (within p q)) [
    | inl inside ↦ rw inside (fewer_files p ps (ground arith))
    | inr outside ↦ rw outside (ground (arith, fewer_files p ps (ground arith)))
  ]

  module _ (p : Bytes) (empty : (x : Bytes) → file (p // x) ≡ none) where
    none_below : (y q : Bytes) → any_file file (cuts (p // y) q) ≡ false
    unfolding any_file cuts
    none_below y [] = rw (empty y) refl
    none_below y (c ∷ q) =
        let next : any_file file (cuts ((p // y) ++ c ∷ []) q) ≡ false =
          rw (append_assoc p (slash ∷ y) (c ∷ [])) (none_below (y ++ c ∷ []) q) in
        ground (arith, next, empty y)

    none_joined :
        (done r q : Bytes)
        → done ++ r ≡ p
        → any_file file (cuts done r) ≡ false
        → any_file file (cuts done (r // q)) ≡ false
    unfolding any_file cuts
    none_joined done [] q e h =
        let same : done ≡ p = sym (append-nil done) ∙ e in
        let below : any_file file (cuts (p ++ slash ∷ []) q) ≡ false = none_below [] q in
        let here : is_some (file done) ≡ false = ground arith in
        let here' : is_some (file p) ≡ false =
          ap (λ (x : Bytes). is_some (file x)) (sym same) ∙ here in
        rw same (neither _ _ here' below)
    none_joined done (c ∷ r) q e h =
        let next =
          none_joined (done ++ c ∷ []) r q (append_assoc done (c ∷ []) r ∙ e) (ground arith) in
        ground (arith, next)

-- What is joined to a path lies within it.
pub within_join : (p x : Bytes) → within p (p // x) ≡ true
unfolding within
within_join p x =
    let starts : has_prefix (p // x) (p // []) ≡ true =
      ap (λ (b : Bytes). has_prefix b (p // [])) (sym (append_assoc p (slash ∷ []) x))
      ∙ has_prefix_append (p // []) x in
    ground (arith, starts)

module _ (p : Bytes) (d : Disk) where
  pub removed-none : (x : Bytes) → (removed p d).file (p // x) ≡ none
  removed-none x = rw (within_join p x) refl

  -- Where nothing at or above a path is a file, nothing is found below it once it is removed.
  pub stat-removed : (x : Bytes) → blocked d p ≡ false → stat (p // x) (removed p d) ≡ false
  unfolding stat blocked
  stat-removed x h =
      let above =
        none_joined (removed p d).file p removed-none [] p x refl
          (fewer_files d.file p (cuts [] p) h) in
      ground (arith, above, within_join p x)
