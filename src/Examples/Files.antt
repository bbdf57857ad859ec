-- ===== src/Examples/Files.antt =====
-- Encryption, the store, splitting and the configuration at concrete values.
use peer_store.Prelude.{
  ℕ, ◌+◌, ◌≡◌, refl, inl, inr, true, false, none, some, arith, List, [], ◌∷◌, ◌++◌, length,
  replicate, take, drop, has_suffix, Bytes, text, bytes_eq,
}
use peer_store.Message.{Network}
use peer_store.Result.{ok}
use peer_store.Crypto.{xor_from, copy_stream_aes}
use peer_store.Crypto.Stream.{copy_stream_aes_total}
use peer_store.Crypto.RoundTrip.{Inverse, decrypt-encrypt}
use peer_store.Mesh.Split.{split_file}
use peer_store.Config.{Config, parse_config}
use peer_store.Config.Valid.{IsValid}
use peer_store.Disk.{Disk}
use peer_store.Disk.Laws.{blocked-none}
use peer_store.Store.{Store, cas_path_transform}
use peer_store.Store.Ops.{dir_path, write_encrypt}
use peer_store.Store.Written.{IsPlain, IsFree, metadata_of}
use peer_store.Store.RoundTrip.{IsStored, read-write}
use peer_store.Store.Address.{cas_path_transform-IsAddress}
use peer_store.Examples.Machine.{machine, machine-HostLaws}

abbrev pub hello : Bytes
hello = text "hello"

abbrev key32 : Bytes
key32 = text "0123456789abcdef0123456789abcdef"

abbrev pub net : Network
net = record {
  enc_type = text "AES";
  enc_key = key32;
  nonce = text "nonce_of_12_";
  nodes = text "a" ∷ text "b" ∷ [];
  split = true;
}

abbrev iv : Bytes
iv = text "sixteen bytes iv"

-- Two rounds of a loop over a buffer of three bytes.
copy_stream_aes_total_example :
    copy_stream_aes (λ i. i) 3 6 0 16 hello []
    ≡ some (record { bytes = [] ++ xor_from (λ i. i) 0 hello; result = some (16 + length hello) })
copy_stream_aes_total_example =
    copy_stream_aes_total (λ i. i) 3 6 0 16 hello [] (omega arith) (omega arith)

decrypt-encrypt_example : (c : Bytes) × Inverse machine net iv hello c
decrypt-encrypt_example =
    decrypt-encrypt machine machine-HostLaws net iv hello refl (omega arith) (inl (refl, refl))

-- Five bytes for two nodes.
abbrev parts : List Bytes
parts = text "hel" ∷ text "lo" ∷ []

split_runs : split_file 2 hello ≡ ok parts
unfolding split_file take drop
split_runs = refl

abbrev pub mesh_config : Config
mesh_config = record {
  architecture = text "mesh";
  encryption = text "AES";
  split = true;
  join_addr = [];
  listen_addr = text "127.0.0.1:3000";
  api_port = 8080;
}

abbrev pub chord_config : Config
chord_config = record {
  architecture = text "chord";
  encryption = text "AES";
  split = false;
  join_addr = [];
  listen_addr = text "127.0.0.1:3000";
  api_port = 8080;
}

mesh_accepted : parse_config mesh_config ≡ ok (mesh_config, false)
unfolding parse_config bytes_eq has_suffix
mesh_accepted = refl

mesh_config-IsValid : IsValid mesh_config
mesh_config-IsValid = record {
  architecture = inl refl;
  encryption = inl refl;
  split_in_mesh = inr refl;
}

abbrev pub cas_store : Store
cas_store = record { root = text "store"; transform = cas_path_transform machine }

abbrev pub empty_disk : Disk
empty_disk = record { file = λ p. none; dir = λ p. false; draws = 0 }

pub empty_disk-IsFree : (s : Store) (id : Bytes) → IsFree s id empty_disk
empty_disk-IsFree s id = record {
  above = blocked-none empty_disk (dir_path s id) (λ q. refl);
  no_dir = refl;
  no_metadata_dir = refl;
}

pub IsPlain-cid : IsPlain (cas_store.transform (text "cid"))
IsPlain-cid = (cas_path_transform-IsAddress machine machine-HostLaws (text "cid")).plain

read-write_example :
    (n : ℕ) × (d' : Disk) × (write_encrypt machine cas_store net
        (text "cid")
        (text "a.txt")
        hello
        1
        2
        empty_disk
      ≡ (ok n, d'))
    × IsStored machine cas_store net
        (text "cid")
        hello
        n
        (metadata_of cas_store (text "cid") (text "a.txt") 1 2)
        empty_disk
        d'
unfolding replicate
read-write_example =
    read-write machine machine-HostLaws cas_store net (text "cid") (text "a.txt") hello 1 2
      empty_disk (replicate 16 7) (replicate 16 7) (inl (refl, refl)) IsPlain-cid
      (empty_disk-IsFree cas_store (text "cid")) (omega arith) refl refl
