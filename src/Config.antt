-- ===== src/Config.antt =====
-- config.go.
pub mod Valid
use peer_store.Prelude.{
  ℕ, Bool, true, false, not, ◌&&◌, ◌||◌, List, [], ◌∷◌, if◌then◌else◌, Bytes, text, bytes_eq,
  has_suffix,
}
use peer_store.Result.{Result, ok, err, bad_architecture, bad_encryption, bad_split}
use peer_store.Message.{Network}

pub record Config : Type 0 where
  pub architecture : Bytes
  pub encryption : Bytes
  pub split : Bool
  pub join_addr : Bytes
  pub listen_addr : Bytes
  pub api_port : ℕ

unfoldable pub is_first_node : Bytes → Bool
is_first_node addr = has_suffix addr (text ":3000")

-- ParseConfig after flag.Parse has set the fields: the configuration, and whether the warning about
-- a missing join address was logged.
unfoldable pub parse_config : Config → Result (Config × Bool)
unfolding is_first_node
parse_config c =
    if not (bytes_eq c.architecture (text "mesh")) && not (bytes_eq c.architecture (text "chord"))
    then err bad_architecture
    else if not (bytes_eq c.encryption (text "AES"))
        && not (bytes_eq c.encryption (text "CC20"))
        && not (bytes_eq c.encryption (text "None"))
    then err bad_encryption
    else if c.split && not (bytes_eq c.architecture (text "mesh"))
    then err bad_split
    else ok (c, bytes_eq c.join_addr [] && not (is_first_node c.listen_addr))

-- InitializeNetwork, which sets the variable `network`; the key and the nonce are what
-- NewEncryptionKey and GenerateNonce draw.
unfoldable pub initialize_network : Config → Bytes → Bytes → Network → Network
initialize_network c key nonce network =
    if bytes_eq c.architecture (text "mesh")
    then record {
      enc_type = c.encryption;
      enc_key = key;
      nonce = nonce;
      nodes = c.listen_addr ∷ [];
      split = c.split;
    }
    else network
