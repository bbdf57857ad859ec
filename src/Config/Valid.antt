-- ===== src/Config/Valid.antt =====
-- Which configurations are accepted, and what network they start.
use peer_store.Prelude.{
  ℕ, ◌≡◌, sym, subst, some, ◌⊎◌, inl, inr, Bool, false, ◌&&◌, not, arith, length, Bytes, text,
  bytes_eq, bytes_eq_iff, [], Bool-cases,
}
use peer_store.Result.{ok}
use peer_store.Message.{Network}
use peer_store.Host.{Host, HostLaws}
use peer_store.Crypto.Keys.{generate_nonce, new_encryption_key, length-new_encryption_key}
use peer_store.Crypto.RoundTrip.{IsKeyed}
use peer_store.Config.{Config, parse_config, is_first_node, initialize_network}

-- A text that is one of two, or of three.
one_of_two :
    (x a b : Bytes) → (not (bytes_eq x a) && not (bytes_eq x b)) ≡ false → (x ≡ a) ⊎ (x ≡ b)
one_of_two x a b h = elim (Bool-cases (bytes_eq x a)) [
  | inl e ↦ inl ((bytes_eq_iff x a).0 e)
  | inr other ↦ inr ((bytes_eq_iff x b).0 (ground arith))
]

one_of_three :
    (x a b c : Bytes)
    → (not (bytes_eq x a) && not (bytes_eq x b) && not (bytes_eq x c)) ≡ false
    → (x ≡ a) ⊎ (x ≡ b) ⊎ (x ≡ c)
one_of_three x a b c h = elim (Bool-cases (bytes_eq x a)) [
  | inl e ↦ inl ((bytes_eq_iff x a).0 e)
  | inr other ↦ inr (one_of_two x b c (ground arith))
]

split_or : (b : Bool) (x a : Bytes) → (b && not (bytes_eq x a)) ≡ false → (b ≡ false) ⊎ (x ≡ a)
split_or b x a h = elim (Bool-cases (bytes_eq x a)) [
  | inl e ↦ inr ((bytes_eq_iff x a).0 e)
  | inr other ↦ inl (ground arith)
]

-- A known architecture, a known encryption, and splitting only in the mesh.
pub record IsValid (c : Config) : Type 0 where
  pub architecture : (c.architecture ≡ text "mesh") ⊎ (c.architecture ≡ text "chord")
  pub encryption :
      (c.encryption ≡ text "AES") ⊎ (c.encryption ≡ text "CC20") ⊎ (c.encryption ≡ text "None")
  pub split_in_mesh : (c.split ≡ false) ⊎ (c.architecture ≡ text "mesh")

-- What ParseConfig accepts is a valid configuration, returned as it was given.
pub parse_config-IsValid :
    (c c' : Config) (warned : Bool) → parse_config c ≡ ok (c', warned) → IsValid c × (c' ≡ c)
unfolding parse_config
parse_config-IsValid c c' warned h = (
  record {
    architecture = one_of_two c.architecture (text "mesh") (text "chord") (ground arith);
    encryption = one_of_three c.encryption (text "AES") (text "CC20") (text "None") (ground arith);
    split_in_mesh = split_or c.split c.architecture (text "mesh") (ground arith);
  },
  ground arith,
)

-- A valid configuration is accepted.
pub IsValid-parse_config :
    (c : Config) → IsValid c → (warned : Bool) × (parse_config c ≡ ok (c, warned))
unfolding parse_config
IsValid-parse_config c v = (
  bytes_eq c.join_addr [] && not (is_first_node c.listen_addr),
  ground (
    arith,
    v.architecture,
    v.encryption,
    v.split_in_mesh,
    bytes_eq_iff c.architecture (text "mesh"),
    bytes_eq_iff c.architecture (text "chord"),
    bytes_eq_iff c.encryption (text "AES"),
    bytes_eq_iff c.encryption (text "CC20"),
    bytes_eq_iff c.encryption (text "None"),
  ),
)

-- The network that a valid mesh configuration starts, with a key of 32 bytes and a nonce of 12, has
-- a known encryption and a key and a nonce of the sizes that it wants.
pub initialize_network-IsKeyed :
    (c : Config) (key nonce : Bytes) (network : Network)
    → IsValid c
    → c.architecture ≡ text "mesh"
    → length key ≡ 32
    → length nonce ≡ 12
    → IsKeyed (initialize_network c key nonce network)
unfolding initialize_network
initialize_network-IsKeyed c key nonce network v mesh hk hn =
    elim (Bool-cases (bytes_eq c.architecture (text "mesh"))) [
      | inl e ↦ rw e (keyed v.encryption)
      | inr e ↦ cc (e, (bytes_eq_iff c.architecture (text "mesh")).1 mesh)
    ]
  where
    keyed :
        (c.encryption ≡ text "AES") ⊎ (c.encryption ≡ text "CC20") ⊎ (c.encryption ≡ text "None")
        → ((c.encryption ≡ text "AES") × (length key ≡ 32))
          ⊎ ((c.encryption ≡ text "CC20") × (length key ≡ 32) × (length nonce ≡ 12))
          ⊎ (c.encryption ≡ text "None")
    keyed (inl aes) = inl (aes, hk)
    keyed (inr (inl chacha)) = inr (inl (chacha, hk, hn))
    keyed (inr (inr plain)) = inr (inr plain)

-- What ParseConfig accepts for the mesh starts, on a host that keeps its laws and with a nonce from
-- GenerateNonce, a network with a known encryption and a key and a nonce of the sizes that it wants,
-- even where the random source has failed to give NewEncryptionKey a key.
pub started_network-IsKeyed :
    (h : Host) (laws : HostLaws h) (flags c : Config) (warned : Bool) (draw draw' : ℕ)
    (nonce : Bytes) (network : Network)
    → parse_config flags ≡ ok (c, warned)
    → c.architecture ≡ text "mesh"
    → generate_nonce h draw' ≡ some nonce
    → IsKeyed (initialize_network c (new_encryption_key h draw) nonce network)
unfolding generate_nonce
started_network-IsKeyed h laws flags c warned draw draw' nonce network parsed mesh drawn =
    let (valid, same) = parse_config-IsValid flags c warned parsed in
    initialize_network-IsKeyed c (new_encryption_key h draw) nonce network
      (subst IsValid (sym same) valid) mesh (length-new_encryption_key h laws draw)
      (laws.random_length draw' 12 nonce drawn)
