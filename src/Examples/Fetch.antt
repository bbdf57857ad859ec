-- ===== src/Examples/Fetch.antt =====
-- A file that one node of the mesh has and another one fetches, at concrete values.
use mathlib.Core.Option.{some-injective}
use peer_store.Prelude.{
  ◌<◌, ◌^◌, ◌≡◌, ◌∙◌, refl, ap, sym, subst, inl, false, none, some, arith, [], ◌∷◌, ◌++◌, length,
  replicate, take, drop, Bytes, text, bytes_eq, bytes_eq_refl, if◌then◌else◌,
}
use peer_store.Message.{Metadata}
use peer_store.Result.{ok}
use peer_store.Crypto.{Written, encrypt, encrypt_aes, copy_stream_aes}
use peer_store.Crypto.RoundTrip.{Inverse, decrypt-encrypt}
use peer_store.Disk.{Disk, stat}
use peer_store.Store.{cas_path_transform, full_path_name}
use peer_store.Store.Ops.{full_path, metadata_path, read_decrypt, has}
use peer_store.Store.Written.{metadata_of, read_decrypt_lem}
use peer_store.Peer.{incoming_stream, find_peer, put_peer}
use peer_store.Peer.Int64.{reading, sending}
use peer_store.Server.{Server}
use peer_store.Mesh.Handlers.{handle_message_get_file}
use peer_store.Mesh.Ops.Get.{get_all}
use peer_store.Mesh.Ops.Fetched.{get-handle_message_get_file}
use peer_store.Examples.Machine.{machine, machine-HostLaws, code, code_bytes, numbers}
use peer_store.Examples.Network.{hello, name, net, files, open_peer, server-IsFree, server-IsPlain}
use peer_store.Examples.Contents.{node}

abbrev pub cid : Bytes
cid = text "cid"

abbrev iv : Bytes
iv = text "sixteen bytes iv"

abbrev metadata : Metadata
metadata = metadata_of files cid name 0 0

cipher : (c : Bytes) × Inverse machine net iv hello c
cipher = decrypt-encrypt machine machine-HostLaws net iv hello refl (omega arith) (inl (refl, refl))

metadata_cipher : (m : Bytes) × Inverse machine net iv (code (numbers metadata)) m
metadata_cipher =
    decrypt-encrypt machine machine-HostLaws net iv (code (numbers metadata)) refl
      (code_bytes (numbers metadata)) (inl (refl, refl))

encrypt_runs : (encrypt machine net (some iv) hello).result ≡ some 21
unfolding encrypt bytes_eq encrypt_aes copy_stream_aes take drop
encrypt_runs = refl

cipher_small : length cipher.0 < 2 ^ 63
cipher_small =
    let size : length cipher.0 ≡ 21 =
      some-injective _ _ (sym (ap (λ (w : Written). w.result) cipher.1.0) ∙ encrypt_runs) in
    omega arith

-- The disk of a node that has the file.
abbrev keeper_disk : Disk
keeper_disk = record {
  file = λ p.
      if bytes_eq p (full_path files cid)
      then some cipher.0
      else if bytes_eq p (metadata_path files cid)
      then some metadata_cipher.0
      else none;
  dir = λ p. false;
  draws = 0;
}

keeper_file : keeper_disk.file (full_path files cid) ≡ some cipher.0
keeper_file = rw (bytes_eq_refl (full_path files cid)) refl

keeper_metadata : keeper_disk.file (metadata_path files cid) ≡ some metadata_cipher.0
unfolding full_path metadata_path bytes_eq cas_path_transform replicate take drop full_path_name
keeper_metadata = refl

keeper_reads :
    read_decrypt machine files net cid keeper_disk
    ≡ (ok (length cipher.0, hello, metadata), keeper_disk)
keeper_reads =
    read_decrypt_lem machine files net cid keeper_disk cipher.0 metadata_cipher.0 hello
      (code (numbers metadata)) (length cipher.0) (length metadata_cipher.0) metadata keeper_file
      keeper_metadata cipher.1.1 metadata_cipher.1.1
      (machine-HostLaws.decode-encode_metadata metadata (code (numbers metadata)) refl)

abbrev keeper : Server
keeper = record node { disk = keeper_disk }

keeper_small : (c : Bytes) → keeper.disk.file (full_path files cid) ≡ some c → length c < 2 ^ 63
keeper_small c e =
    subst (λ (x : Bytes). length x < 2 ^ 63) (some-injective _ _ (sym keeper_file ∙ e)) cipher_small

get-handle_message_get_file_example :
    (packet : Bytes) × (handle_message_get_file machine (text "b") cid keeper ≡ (
      ok tt,
      record keeper {
        peers = put_peer (text "b") (sending open_peer (incoming_stream ∷ packet)) keeper.peers;
      },
    ))
    × (s' : Server) × (get_all machine cid
          (record node { peers = (text "k", reading open_peer (packet ++ [])) ∷ [] })
        ≡ (ok (hello, name), s'))
    × (get_all machine cid s' ≡ (ok (hello, name), s'))
unfolding find_peer bytes_eq replicate has stat full_path_name cas_path_transform take drop
get-handle_message_get_file_example =
    get-handle_message_get_file machine machine-HostLaws node keeper open_peer open_peer (text "b")
      (text "k") cid hello [] [] (replicate 16 7) (length cipher.0) metadata refl keeper_reads refl
      refl (omega arith) keeper_small refl (inl (refl, refl)) refl server-IsPlain server-IsFree refl
      refl refl
