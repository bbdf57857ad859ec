-- ===== src/Mesh/Split/RoundTrip.antt =====
-- What is split can be combined again.
use native.Mathlib.Nat.{div-add-mod, add-zero}
use Prim.Native.Nat.{min}
use peer_store.Prelude.{
  ℕ, zero, suc, ◌+◌, ◌-◌, ◌*◌, ◌/◌, ◌%◌, ◌<◌, ◌≤◌, ◌≡◌, ◌≢◌, refl, sym, ap, ◌∙◌, none, some, arith,
  Option-cases, inl, inr, All, ltb, if◌then◌else◌, List, [], ◌∷◌, ◌++◌, append-nil, append_assoc,
  sum, concat, length, length-drop, length-take, take, drop, take_all, drop-drop, take_add, map,
  Bytes,
}
use peer_store.Result.{ok, err, missing_part}
use peer_store.Mesh.Split.{
  part_lengths, slices, split_file, ReaderMap, part_at, combine_from, combine_file,
}

sum-part_lengths : (k p r : ℕ) → sum (part_lengths k p r) ≡ k * p + min r k
unfolding part_lengths
sum-part_lengths zero p r = omega arith
sum-part_lengths (suc k) p r = ground (arith, sum-part_lengths k p r, sum-part_lengths k p (r - 1))

pub length-part_lengths : (k p r : ℕ) → length (part_lengths k p r) ≡ k
unfolding part_lengths
length-part_lengths zero p r = refl
length-part_lengths (suc k) p r = omega (arith, length-part_lengths k p)

concat-slices :
    (content : Bytes) (offset : ℕ) (ns : List ℕ)
    → concat (slices content offset ns) ≡ take (sum ns) (drop offset content)
unfolding slices take
concat-slices content offset [] = refl
concat-slices content offset (n ∷ ns) = cc (
  concat-slices content (offset + n) ns,
  drop-drop n offset content,
  take_add n (sum ns) (drop offset content),
)

length-slices :
    (content : Bytes) (offset : ℕ) (ns : List ℕ) → length (slices content offset ns) ≡ length ns
unfolding slices
length-slices content offset [] = refl
length-slices content offset (n ∷ ns) = ap suc (length-slices content (offset + n) ns)

-- The lengths of the parts are the ones that were set, as long as the content suffices.
map-length-slices :
    (content : Bytes) (offset : ℕ) (ns : List ℕ)
    → offset + sum ns ≤ length content
    → map length (slices content offset ns) ≡ ns
unfolding slices
map-length-slices content offset [] h = refl
map-length-slices content offset (n ∷ ns) h =
    let first : length (take n (drop offset content)) ≡ n =
      omega (arith, length-take n (drop offset content), length-drop offset content) in
    cc (first, map-length-slices content (offset + n) ns (omega arith))

sum_lengths : (n size : ℕ) → n ≢ 0 → sum (part_lengths n (size / n) (size % n)) ≡ size
sum_lengths n size ne = omega (arith, sum-part_lengths n (size / n) (size % n), div-add-mod size n)

-- Parts `i`, `i + 1`, … of the map are the listed ones.
abbrev pub HasParts : ReaderMap → ℕ → List Bytes → Type 0
HasParts m i [] = Unit
HasParts m i (p ∷ ps) = (part_at i m ≡ some p) × HasParts m (i + 1) ps

module _ (m : ReaderMap) (k i : ℕ) (acc : Bytes) where
  combine_step :
      (p : Bytes)
      → part_at i m ≡ some p
      → combine_from m (suc k) i acc ≡ combine_from m k (i + 1) (acc ++ p)
  unfolding combine_from
  combine_step p h = ground arith

  combine_stop : part_at i m ≡ none → combine_from m (suc k) i acc ≡ err missing_part
  unfolding combine_from
  combine_stop h = ground arith

combine_zero : (m : ReaderMap) (i : ℕ) (acc : Bytes) → combine_from m 0 i acc ≡ ok acc
unfolding combine_from
combine_zero m i acc = refl

combine_from_lem :
    (m : ReaderMap) (ps : List Bytes) (i : ℕ) (acc : Bytes)
    → HasParts m i ps
    → combine_from m (length ps) i acc ≡ ok (acc ++ concat ps)
combine_from_lem m [] i acc h = combine_zero m i acc ∙ ap ok (sym (append-nil acc))
combine_from_lem m (p ∷ ps) i acc h =
    combine_step m (length ps) i acc p h.0
    ∙ combine_from_lem m ps (i + 1) (acc ++ p) h.1
    ∙ ap ok (append_assoc acc p (concat ps))

-- The parts that splitFile makes of a file, for a positive number of nodes.
abbrev parts_of : ℕ → Bytes → List Bytes
parts_of n content = slices content 0 (part_lengths n (length content / n) (length content % n))

split_file_lem : (n : ℕ) (content : Bytes) → n ≢ 0 → split_file n content ≡ ok (parts_of n content)
unfolding split_file
split_file_lem n content ne = ground arith

concat-parts_of : (n : ℕ) (content : Bytes) → n ≢ 0 → concat (parts_of n content) ≡ content
unfolding drop
concat-parts_of n content ne =
    let ns = part_lengths n (length content / n) (length content % n) in
    concat-slices content 0 ns
    ∙ take_all (sum ns) content (omega (arith, sum_lengths n (length content) ne))

-- The parts that splitFile makes for a positive number of nodes, collected in any order under the
-- numbers from 1 on and nothing else with them, are combined into the file again by combineFile.
pub combine-split :
    (n : ℕ) (content : Bytes) (ps : List Bytes) (m : ReaderMap)
    → n ≢ 0
    → split_file n content ≡ ok ps
    → HasParts m 1 ps
    → length m ≡ length ps
    → combine_file m ≡ ok content
unfolding combine_file
combine-split n content ps m ne split has count =
    let same : ps ≡ parts_of n content = cc (split, split_file_lem n content ne) in
    ap (λ (k : ℕ). combine_from m k 1 []) count
    ∙ combine_from_lem m ps 1 [] has
    ∙ ap ok (ap concat same ∙ concat-parts_of n content ne)

-- The lengths that splitFile sets differ by one at most.
abbrev pub IsShare : ℕ → ℕ → Type 0
IsShare p n = (p ≤ n) × (n ≤ p + 1)

shares-part_lengths : (k p r : ℕ) → All (IsShare p) (part_lengths k p r)
unfolding part_lengths
shares-part_lengths zero p r = tt
shares-part_lengths (suc k) p r =
    (ground arith, shares-part_lengths k p (if ltb 0 r then r - 1 else r))

-- For a positive number of nodes splitFile succeeds and makes one part for each node; put together
-- they are the file, and each has the size of the file divided by the number of nodes, or one more.
pub split_balanced :
    (n : ℕ) (content : Bytes)
    → n ≢ 0
    → (ps : List Bytes) × (split_file n content ≡ ok ps)
      × (length ps ≡ n)
      × (concat ps ≡ content)
      × All (IsShare (length content / n)) (map length ps)
unfolding drop
split_balanced n content ne =
    let ns = part_lengths n (length content / n) (length content % n) in
    (
      parts_of n content,
      split_file_lem n content ne,
      length-slices content 0 ns ∙ length-part_lengths n _ _,
      concat-parts_of n content ne,
      rw (map-length-slices content 0 ns (omega (arith, sum_lengths n (length content) ne)))
          (shares-part_lengths n (length content / n) (length content % n)),
    )

missing_stops :
    (m : ReaderMap) (k i j : ℕ) (acc : Bytes)
    → j < k
    → part_at (i + j) m ≡ none
    → combine_from m k i acc ≡ err missing_part
missing_stops m zero i j acc lt h = absurd (omega arith)
missing_stops m (suc k) i zero acc lt h = combine_stop m k i acc (rw add-zero at h)
missing_stops m (suc k) i (suc j) acc lt h = elim (Option-cases (part_at i m)) [
  | inl no_part ↦ combine_stop m k i acc no_part
  | inr (p, e) ↦
      combine_step m k i acc p e
      ∙ missing_stops m k (i + 1) j (acc ++ p) (omega arith)
          (ap (λ (x : ℕ). part_at x m) (omega arith) ∙ h)
]

-- combineFile fails where a number from 1 to the size of the map has no part.
pub combine_missing :
    (m : ReaderMap) (j : ℕ)
    → j < length m
    → part_at (1 + j) m ≡ none
    → combine_file m ≡ err missing_part
unfolding combine_file
combine_missing m j lt h = missing_stops m (length m) 1 j [] lt h
