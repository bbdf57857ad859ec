-- ===== src/Mesh/Split.antt =====
-- splitFile and combineFile of mesh_util.go.
pub mod RoundTrip
use peer_store.Prelude.{
  ℕ, zero, suc, ◌+◌, ◌-◌, ◌/◌, ◌%◌, Option, none, some, List, [], ◌∷◌, ◌++◌, length, take, drop,
  ltb, ◌==◌, if◌then◌else◌, Bytes,
}
use peer_store.Result.{Result, ok, err, no_nodes, missing_part}

-- The loop over `lengthArray`, with `k` entries left to set.
unfoldable pub part_lengths : ℕ → ℕ → ℕ → List ℕ
part_lengths zero part_size remainder = []
part_lengths (suc k) part_size remainder =
    (if ltb 0 remainder then part_size + 1 else part_size)
    ∷ part_lengths k part_size (if ltb 0 remainder then remainder - 1 else remainder)

-- The loop over the lengths: `data[offset : offset+length]`.
unfoldable pub slices : Bytes → ℕ → List ℕ → List Bytes
slices content offset [] = []
slices content offset (n ∷ ns) = take n (drop offset content) ∷ slices content (offset + n) ns

-- `num_peers` is len(network.Nodes).
unfoldable pub split_file : ℕ → Bytes → Result (List Bytes)
unfolding part_lengths slices
split_file num_peers content =
    if num_peers == 0
    then err no_nodes
    else ok (
        slices content 0
          (part_lengths num_peers (length content / num_peers) (length content % num_peers)))

-- A map from part numbers to readers, without the readers' positions: each is read once.
abbrev pub ReaderMap : Type 0
ReaderMap = List (ℕ × Bytes)

unfoldable pub part_at : ℕ → ReaderMap → Option Bytes
part_at i [] = none
part_at i ((j, b) ∷ m) = if j == i then some b else part_at i m

-- The loop of combineFile with `k` rounds left.
unfoldable pub combine_from : ReaderMap → ℕ → ℕ → Bytes → Result Bytes
combine_from m zero i combined = ok combined
combine_from m (suc k) i combined = elim (part_at i m) [
  | none ↦ err missing_part
  | some part ↦ combine_from m k (i + 1) (combined ++ part)
]

unfoldable pub combine_file : ReaderMap → Result Bytes
unfolding combine_from part_at
combine_file m = combine_from m (length m) 1 []
