-- ===== src/Examples/Gathered.antt =====
-- Five bytes in two parts, of which one node has the first and its peer the second.
use mathlib.Core.Option.{some-injective}
use peer_store.Prelude.{
  ◌++◌, concat, All, ℕ, ◌<◌, ◌^◌, ◌≡◌, ◌∙◌, refl, ap, sym, inl, some, true, arith, [], ◌∷◌, length,
  replicate, take, drop, Bytes, text, bytes_eq,
}
use peer_store.Message.{Network, Metadata}
use peer_store.Result.{ok}
use peer_store.Crypto.{Written, encrypt, encrypt_aes, copy_stream_aes}
use peer_store.Crypto.RoundTrip.{Inverse, decrypt-encrypt}
use peer_store.Disk.{Disk}
use peer_store.Store.Ops.{write_encrypt}
use peer_store.Store.RoundTrip.{IsStored, read-write}
use peer_store.Store.Written.{metadata_of}
use peer_store.Mesh.Split.{split_file, part_at}
use peer_store.Server.{Server}
use peer_store.Mesh.Ops.{generate_cid, store}
use peer_store.Mesh.Ops.Get.{get}
use peer_store.Mesh.Ops.Parted.{Parcel, parts_in, holders, Gets, store-parts}
use peer_store.Mesh.Ops.Gathered.{Delivery, IsDelivered, peers_of, get-parts}
use peer_store.Examples.Machine.{machine, machine-HostLaws}
use peer_store.Examples.Network.{hello, name, net, files, open_peer, server-IsFree, server-IsPlain}
use peer_store.Examples.Contents.{node, node-IsPlain, node-IsFree}
use peer_store.Examples.Fetch.{cid}

abbrev split_net : Network
split_net = record net { split = true }

abbrev iv : Bytes
iv = text "sixteen bytes iv"

abbrev metadata : Metadata
metadata = metadata_of files cid name 1 2

written :
    (n : ℕ) × (d : Disk) × (write_encrypt machine files split_net cid name
        (text "hel")
        1
        2
        node.disk
      ≡ (ok n, d))
    × IsStored machine files split_net cid (text "hel") n metadata node.disk d
unfolding replicate
written =
    read-write machine machine-HostLaws files split_net cid name (text "hel") 1 2 node.disk
      (replicate 16 7) (replicate 16 7) (inl (refl, refl)) server-IsPlain server-IsFree
      (omega arith) refl refl

cipher : (c : Bytes) × Inverse machine split_net iv (text "lo") c
cipher =
    decrypt-encrypt machine machine-HostLaws split_net iv (text "lo") refl (omega arith)
      (inl (refl, refl))

encrypt_runs : (encrypt machine split_net (some iv) (text "lo")).result ≡ some 18
unfolding encrypt bytes_eq encrypt_aes copy_stream_aes take drop replicate
encrypt_runs = refl

cipher_small : length cipher.0 < 2 ^ 63
cipher_small =
    let size : length cipher.0 ≡ 18 =
      some-injective _ _ (sym (ap (λ (w : Written). w.result) cipher.1.0) ∙ encrypt_runs) in
    omega arith

abbrev second : Delivery
second = record {
  from = text "k";
  peer = open_peer;
  number = 2;
  stored = cipher.0;
  content = text "lo";
  size = length cipher.0;
  after = [];
}

second-IsDelivered : IsDelivered machine split_net second
second-IsDelivered = record {
  up = refl;
  small_number = omega arith;
  small = cipher_small;
  decrypts = cipher.1.1;
}

abbrev holder : Server
holder = record node { network = split_net; disk = written.1 }

split_runs : split_file 2 hello ≡ ok (text "hel" ∷ text "lo" ∷ [])
unfolding split_file take drop
split_runs = refl

get-parts_example :
    (s' : Server) × (get machine cid (record holder { peers = peers_of (second ∷ []) })
      ≡ (ok (hello, name), s'))
unfolding part_at
get-parts_example =
    get-parts machine cid [] (text "hel") hello written.0 metadata (text "hel" ∷ text "lo" ∷ [])
      (second ∷ []) holder refl (omega arith) split_runs written.3.present written.3.read_back refl
      (second-IsDelivered, tt) (tt, tt) (refl, tt) (refl, (refl, tt)) refl

-- The same file on its way: the node keeps the first part and sends the second to its peer.
abbrev sender : Server
sender = record node { network = split_net }

first_written :
    (n : ℕ) × (d : Disk) × (write_encrypt machine sender.store split_net
        (generate_cid machine hello)
        name
        (text "hel")
        1
        2
        sender.disk
      ≡ (ok n, d))
    × IsStored machine sender.store split_net
        (generate_cid machine hello)
        (text "hel")
        n
        (metadata_of sender.store (generate_cid machine hello) name 1 2)
        sender.disk
        d
unfolding replicate
first_written =
    read-write machine machine-HostLaws sender.store split_net (generate_cid machine hello) name
      (text "hel") 1 2 sender.disk (replicate 16 7) (replicate 16 7) (inl (refl, refl))
      (node-IsPlain hello) (node-IsFree (generate_cid machine hello)) (omega arith) refl refl

abbrev parcel : Parcel
parcel = record { to = text "k"; peer = open_peer; part = text "lo"; buf = [] }

store-parts_example :
    (s' : Server) × (store machine name hello (record sender { peers = holders (parcel ∷ []) })
      ≡ (ok (generate_cid machine hello), s'))
    × (s'.disk ≡ first_written.1)
    × All (Gets s'.peers) (parcel ∷ [])
    × (text "hel" ++ concat (parts_in (parcel ∷ [])) ≡ hello)
store-parts_example =
    store-parts machine name hello (text "hel") first_written.0 (parcel ∷ []) sender first_written.1
      refl (omega arith) split_runs first_written.2 (refl, refl, tt) (tt, tt)
