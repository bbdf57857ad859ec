-- ===== src/Mesh/Ops/Parted.antt =====
-- storeSplit of mesh.go, where every peer can be written to.
use peer_store.Prelude.{
  ℕ, suc, ◌+◌, ◌≡◌, ◌≢◌, ◌∙◌, refl, ap, Bool, true, false, some, List, [], ◌∷◌, ◌++◌, append_assoc,
  All, All-zip, concat, length, Bytes, bytes_eq, bytes_eq_refl, bytes_eq_sym, if◌then◌else◌,
}
use peer_store.Result.{ok}
use peer_store.Message.{store_file}
use peer_store.Host.{Host}
use peer_store.Disk.{Disk}
use peer_store.Store.Ops.{write_encrypt}
use peer_store.Peer.{Peer, Peers, find_peer, put_peer, addresses, incoming_message, incoming_stream}
use peer_store.Peer.Int64.{sending, send_lem, copy_to_lem}
use peer_store.Peer.Map.{find_peer-put_peer, find_peer-put_peer_other}
use peer_store.Server.{Server, at_peer_lem}
use peer_store.Server.Broadcast.{send_message_lem}
use peer_store.Mesh.Split.{split_file}
use peer_store.Mesh.Split.RoundTrip.{split_balanced}
use peer_store.Mesh.Ops.{
  generate_cid, send_part, send_parts, store_parts, store_split, store_all, store,
}

-- A part for a peer, with the message that announces it.
pub record Parcel : Type 0 where
  pub to : Bytes
  pub peer : Peer
  pub part : Bytes
  pub buf : Bytes

abbrev pub packed : Parcel → Bytes
packed d = incoming_message ∷ d.buf ++ incoming_stream ∷ d.part

abbrev pub holders : List Parcel → Peers
holders [] = []
holders (d ∷ ds) = (d.to, d.peer) ∷ holders ds

abbrev pub parts_in : List Parcel → List Bytes
parts_in [] = []
parts_in (d ∷ ds) = d.part ∷ parts_in ds

-- No two go to one address.
abbrev pub AreApart : List Parcel → Type 0
AreApart [] = Unit
AreApart (d ∷ ds) = All (λ e. bytes_eq d.to e.to ≡ false) ds × AreApart ds

-- The messages of parts `i`, `i + 1`, … of `total`, on connections that can be written to.
abbrev pub AreReady : Host → Bytes → Bytes → ℕ → ℕ → List Parcel → Type 0
AreReady h cid key total i [] = Unit
AreReady h cid key total i (d ∷ ds) =
    (d.peer.up ≡ true)
    × (h.encode_message (store_file cid key i total (length d.part)) ≡ some d.buf)
    × AreReady h cid key total (i + 1) ds

apart_from :
    (d : Parcel) (ds : List Parcel)
    → All (λ e. bytes_eq d.to e.to ≡ false) ds
    → All (λ (e : Parcel). bytes_eq e.to d.to ≡ false) ds
apart_from d [] away = tt
apart_from d (e ∷ ds) (other, away) = (bytes_eq_sym e.to d.to ∙ other, apart_from d ds away)

stand : (ds : List Parcel) → AreApart ds → All (λ d. find_peer d.to (holders ds) ≡ some d.peer) ds
unfolding find_peer
stand [] apart = tt
stand (d ∷ ds) (away, apart) = (
  rw (bytes_eq_refl d.to) refl,
  All-zip _ _ (λ e. find_peer e.to (holders (d ∷ ds)) ≡ some e.peer)
      (λ e other there. rw other there) ds away (stand ds apart),
)

-- The peer is there, and the parcel has been written to it.
abbrev pub Stands : Peers → Parcel → Type 0
Stands ps d = find_peer d.to ps ≡ some d.peer

abbrev pub Gets : Peers → Parcel → Type 0
Gets ps d = find_peer d.to ps ≡ some (sending d.peer (packed d))

module _ (h : Host) (cid key : Bytes) (total : ℕ) where
  send_part_lem :
      (d : Parcel) (i : ℕ)
      → d.peer.up ≡ true
      → h.encode_message (store_file cid key i total (length d.part)) ≡ some d.buf
      → send_part h cid key i total d.part d.peer ≡ (ok tt, sending d.peer (packed d))
  unfolding send_part
  send_part_lem d i up enc =
      let p1 = sending d.peer (incoming_message ∷ d.buf) in
      let p2 = sending p1 (incoming_stream ∷ []) in
      rw
        (
          send_message_lem h (store_file cid key i total (length d.part)) d.buf d.peer enc up,
          send_lem p1 up (incoming_stream ∷ []),
          copy_to_lem p2 up d.part,
        )
        (simp append_assoc)

  -- The loop writes each parcel to its peer and changes nothing else.
  record Sent (s : Server) (i : ℕ) (ds : List Parcel) : Type 0 where
    after : Server
    runs : send_parts h cid key total (addresses (holders ds)) i (parts_in ds) s ≡ (ok tt, after)
    got : All (Gets after.peers) ds
    others :
        (b : Bytes)
        → All (λ d. bytes_eq d.to b ≡ false) ds
        → find_peer b after.peers ≡ find_peer b s.peers
    same_disk : after.disk ≡ s.disk

  sends :
      (ds : List Parcel) (i : ℕ) (s : Server)
      → AreReady h cid key total i ds
      → AreApart ds
      → All (Stands s.peers) ds
      → Sent s i ds
  unfolding send_parts addresses
  sends [] i s ready apart there = record {
    after = s;
    runs = refl;
    got = tt;
    others = λ b away. refl;
    same_disk = refl;
  }
  sends (d ∷ ds) i s (up, enc, ready) (away, apart) (at, there) =
      let s1 = record s { peers = put_peer d.to (sending d.peer (packed d)) s.peers } in
      let still : All (Stands s1.peers) ds =
        All-zip _ _ (Stands s1.peers)
          (λ e other e_at.
            find_peer-put_peer_other d.to e.to (sending d.peer (packed d)) s.peers other ∙ e_at)
          ds away there in
      let rest = sends ds (i + 1) s1 ready apart still in
      record {
        after = rest.after;
        runs =
            rw
              (at_peer_lem d.to (send_part h cid key i total d.part) s d.peer _ at
                (send_part_lem d i up enc))
              rest.runs;
        got = (
          rest.others d.to (apart_from d ds away)
              ∙ find_peer-put_peer d.to (sending d.peer (packed d)) s.peers,
          rest.got,
        );
        others = λ b (apart_b, all_b).
            rest.others b all_b
            ∙ find_peer-put_peer_other d.to b (sending d.peer (packed d)) s.peers apart_b;
        same_disk = rest.same_disk;
      }

length-parts_in : (ds : List Parcel) → length (parts_in ds) ≡ length ds
length-parts_in [] = refl
length-parts_in (d ∷ ds) = ap suc (length-parts_in ds)

-- A node that splits files stores one whose first part goes to its own disk, where WriteEncrypt of
-- that part succeeds, and which has a further part for each of its peers, one to each address; the
-- messages that announce the parts encode and every connection can be written to. Store returns the
-- content identifier, the disk has what WriteEncrypt left, and each peer has got the message with the
-- number of its part and, behind the byte for streams, the part. The parts together are the file.
pub store-parts :
    (h : Host) (key content first : Bytes) (n : ℕ) (ds : List Parcel) (s : Server) (d : Disk)
    → s.network.split ≡ true
    → length s.network.nodes ≢ 0
    → split_file (length s.network.nodes) content ≡ ok (first ∷ parts_in ds)
    → write_encrypt h s.store s.network
        (generate_cid h content)
        key
        first
        1
        (suc (length ds))
        s.disk
      ≡ (ok n, d)
    → AreReady h (generate_cid h content) key (suc (length ds)) 2 ds
    → AreApart ds
    → (s' : Server) × (store h key content (record s { peers = holders ds })
        ≡ (ok (generate_cid h content), s'))
      × (s'.disk ≡ d)
      × All (Gets s'.peers) ds
      × (first ++ concat (parts_in ds) ≡ content)
unfolding store store_split store_parts
store-parts h key content first n ds s d splits ne split written ready apart =
    let cid = generate_cid h content in
    let s0 = record s { peers = holders ds } in
    let s1 = record s0 { disk = d } in
    let sent = sends h cid key (suc (length ds)) ds 2 s1 ready apart (stand ds apart) in
    let stored : store_split h key content s0 ≡ (ok cid, sent.after) =
      rw (store_split, split, store_parts, length-parts_in ds, written, sent.runs) refl in
    let (ps, split', _, whole, _) = split_balanced (length s.network.nodes) content ne in
    let same : first ∷ parts_in ds ≡ ps = cc (split, split') in
    (
      sent.after,
      ap (λ (b : Bool). if b then store_split h key content s0 else store_all h key content s0)
            splits
          ∙ stored,
      sent.same_disk,
      sent.got,
      ap concat same ∙ whole,
    )
