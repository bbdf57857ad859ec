-- ===== src/Store/Unkeyed.antt =====
-- Store methods while the variable `network` has no kind of encryption, which is how it stays on a
-- node of the Chord architecture.
use peer_store.Prelude.{◌≡◌, refl, some, Option, none, arith, [], ℕ, Bytes, text, bytes_eq_iff}
use peer_store.Result.{ok, err, decode_failed}
use peer_store.Message.{Network, zero_network}
use peer_store.Host.{Host, HostLaws}
use peer_store.Crypto.{encrypt, decrypt}
use peer_store.Crypto.RoundTrip.{wrote}
use peer_store.Disk.{Disk}
use peer_store.Disk.Laws.{open_file_lem}
use peer_store.Config.{Config, initialize_network}
use peer_store.Store.{Store}
use peer_store.Store.Ops.{full_path, metadata_path, write_encrypt, read_decrypt}
use peer_store.Store.Written.{IsPlain, IsFree, metadata_of, paths_differ}
use peer_store.Store.RoundTrip.{stored, file_stored, metadata_stored, write_encrypt_lem}

-- Neither call reads or writes anything, and neither fails.
unkeyed :
    (h : Host) (iv : Option Bytes) (src : Bytes)
    → (encrypt h zero_network iv src ≡ wrote [] 0) × (decrypt h zero_network src ≡ wrote [] 0)
unfolding encrypt decrypt
unkeyed h iv src = ground (
  arith,
  bytes_eq_iff [] (text "AES"),
  bytes_eq_iff [] (text "CC20"),
  bytes_eq_iff [] (text "None"),
)

chord_network :
    (c : Config) (key nonce : Bytes)
    → c.architecture ≡ text "chord"
    → initialize_network c key nonce zero_network ≡ zero_network
unfolding initialize_network
chord_network c key nonce chord = ground (arith, bytes_eq_iff c.architecture (text "mesh"))

module _ (h : Host) (s : Store) (net : Network) (id : Bytes) (d : Disk) (c m : Bytes) where
  undecodable :
      (src buffer : Bytes) (n k : ℕ)
      → d.file (full_path s id) ≡ some c
      → d.file (metadata_path s id) ≡ some m
      → decrypt h net c ≡ wrote src n
      → decrypt h net m ≡ wrote buffer k
      → h.decode_metadata buffer ≡ none
      → read_decrypt h s net id d ≡ (err decode_failed, d)
  unfolding read_decrypt
  undecodable src buffer n k there meta dec dec' value =
      rw
        (
          open_file_lem (full_path s id) d c there,
          dec,
          open_file_lem (metadata_path s id) d m meta,
          dec',
          value,
        )
        refl

-- On a node of the Chord architecture, whose network InitializeNetwork leaves at its zero value,
-- where nothing on the disk is in the way and the file's name is plain: WriteEncrypt reports
-- success, but the file that it has written is empty, and ReadDecrypt of it fails when it decodes
-- the metadata.
pub chord_mode_loses_files :
    (h : Host) (laws : HostLaws h) (s : Store) (c : Config) (key nonce id name src : Bytes)
    (part total_parts : ℕ) (d : Disk)
    → c.architecture ≡ text "chord"
    → IsPlain (s.transform id)
    → IsFree s id d
    → (d' : Disk) × (write_encrypt h s
          (initialize_network c key nonce zero_network)
          id
          name
          src
          part
          total_parts
          d
        ≡ (ok 0, d'))
      × (d'.file (full_path s id) ≡ some [])
      × (read_decrypt h s (initialize_network c key nonce zero_network) id d'
          ≡ (err decode_failed, d'))
chord_mode_loses_files h laws s c key nonce id name src part total_parts d chord plain free =
    let net = chord_network c key nonce chord in
    let (buffer, enc, _) = laws.encodes_metadata (metadata_of s id name part total_parts) in
    let d' = stored s id [] [] d in
    let differ = paths_differ s id d plain free in
    (
      d',
      rw net (
          write_encrypt_lem h s zero_network id name src part total_parts d plain free [] buffer []
            0 0 (unkeyed h _ src).0 enc (unkeyed h _ buffer).0),
      file_stored s id [] [] d differ,
      rw net (
          undecodable h s zero_network id d' [] [] [] [] 0 0 (file_stored s id [] [] d differ)
            (metadata_stored s id [] [] d differ) (unkeyed h none []).1 (unkeyed h none []).1
            laws.decode_empty),
    )
