-- ===== src/Store.antt =====
-- store.go: files under content addresses.
pub mod Ops
pub mod Written
pub mod RoundTrip
pub mod Address
pub mod Unkeyed
pub mod Delete
pub mod Frame
pub mod Apart
pub mod Contents
use peer_store.Prelude.{
  ℕ, zero, suc, ◌+◌, ◌*◌, ◌/◌, ◌%◌, Option, none, some, List, [], ◌∷◌, ◌++◌, length, take, drop,
  ltb, if◌then◌else◌, Bytes, text, ◌==◌,
}
use peer_store.Disk.{slash, ◌//◌}
use peer_store.Host.{Host}

-- hex.EncodeToString
unfoldable pub hex_digit : ℕ → ℕ
hex_digit d = if ltb d 10 then b'0' + d else 87 + d

unfoldable pub hex_encode : Bytes → Bytes
unfolding hex_digit
hex_encode [] = []
hex_encode (b ∷ bs) = hex_digit (b / 16) ∷ hex_digit (b % 16) ∷ hex_encode bs

pub record PathKey : Type 0 where
  pub path_name : Bytes
  pub file_name : Bytes

-- The loop of CASPathTransformFunc with `k` rounds left.
unfoldable pub blocks : ℕ → ℕ → ℕ → Bytes → List Bytes
blocks zero i size hash = []
blocks (suc k) i size hash = take size (drop (i * size) hash) ∷ blocks k (i + 1) size hash

-- strings.Join(paths, "/")
unfoldable pub join : List Bytes → Bytes
join [] = []
join (p ∷ []) = p
join (p ∷ q ∷ qs) = p // join (q ∷ qs)

unfoldable pub cas_path_transform : Host → Bytes → PathKey
unfolding blocks join hex_encode
cas_path_transform h key =
    let hash = hex_encode (h.sha1 key) in
    record { path_name = join (blocks (length hash / 5) 0 5 hash); file_name = hash }

unfoldable pub default_path_transform : Bytes → PathKey
default_path_transform key = record { path_name = key; file_name = key }

unfoldable pub full_path_name : PathKey → Bytes
full_path_name p = p.path_name // p.file_name

-- strings.Split(PathName, "/")[0]
unfoldable pub first_path_name : Bytes → Bytes
first_path_name [] = []
first_path_name (c ∷ cs) = let rest = first_path_name cs in if c == slash then [] else c ∷ rest

pub record Store : Type 0 where
  pub root : Bytes
  pub transform : Bytes → PathKey

-- NewStore; `none` is a nil function.
unfoldable pub new_store : Bytes → Option (Bytes → PathKey) → Store
new_store root transform = record {
  root = if length root == 0 then text "rootStore" else root;
  transform = elim transform [ none ↦ default_path_transform | some f ↦ f ];
}
