-- ===== src/Mesh/Transfer/RoundTrip.antt =====
-- What one node serves, another receives.
use peer_store.Prelude.{ℕ, ◌<◌, ◌^◌, ◌≡◌, true, refl, [], ◌∷◌, ◌++◌, append_assoc, length, Bytes}
use peer_store.Result.{Exec, ok, ◌>>=◌, pure}
use peer_store.Peer.{Peer, little_endian, incoming_stream, read_limited}
use peer_store.Peer.Int64.{
  reading, sending, read_int64-little_endian, read_limited_lem, send_lem, copy_to_lem,
  write_int64_lem,
}
use peer_store.Mesh.Transfer.{serve_file, serve_part, receive_name, receive_part}

-- What comes after the byte that announces the stream.
abbrev pub file_packet : Bytes → Bytes → Bytes
file_packet name file =
    little_endian 8 (length name) ++ little_endian 8 (length file) ++ name ++ file

abbrev pub part_packet : ℕ → Bytes → Bytes
part_packet part file = little_endian 8 part ++ little_endian 8 (length file) ++ file

-- A round of getAll: the name, then the file as the store reads it.
unfoldable pub receive_file : Exec Peer (Bytes × Bytes)
receive_file = do (file_size, key) ← receive_name; file ← read_limited file_size; pure (key, file)

module _ (p : Peer) (up : p.up ≡ true) (file : Bytes) (small : length file < 2 ^ 63) where
  pub serve_file_lem :
      (name : Bytes)
      → length name < 2 ^ 63
      → serve_file name (length file) file p
        ≡ (ok tt, sending p (incoming_stream ∷ file_packet name file))
  unfolding serve_file
  serve_file_lem name h =
      let p1 = sending p (incoming_stream ∷ []) in
      let p2 = sending p1 (little_endian 8 (length name)) in
      let p3 = sending p2 (little_endian 8 (length file)) in
      let p4 = sending p3 name in
      rw
        (
          send_lem p up (incoming_stream ∷ []),
          write_int64_lem p1 up (length name) h,
          write_int64_lem p2 up (length file) small,
          copy_to_lem p3 up name,
          copy_to_lem p4 up file,
        )
        (simp append_assoc)

  serve_part_lem :
      (part : ℕ)
      → part < 2 ^ 63
      → serve_part part (length file) file p
        ≡ (ok tt, sending p (incoming_stream ∷ part_packet part file))
  unfolding serve_part
  serve_part_lem part h =
      let p1 = sending p (incoming_stream ∷ []) in
      let p2 = sending p1 (little_endian 8 part) in
      let p3 = sending p2 (little_endian 8 (length file)) in
      rw
        (
          send_lem p up (incoming_stream ∷ []),
          write_int64_lem p1 up part h,
          write_int64_lem p2 up (length file) small,
          copy_to_lem p3 up file,
        )
        (simp append_assoc)

module _ (q : Peer) (file after : Bytes) (small : length file < 2 ^ 63) where
  pub receive_name_lem :
      (name : Bytes)
      → length name < 2 ^ 63
      → receive_name (reading q (file_packet name file ++ after))
        ≡ (ok (length file, name), reading q (file ++ after))
  unfolding receive_name
  receive_name_lem name h =
      let sizes : file_packet name file ++ after
          ≡ little_endian 8 (length name)
            ++ (little_endian 8 (length file) ++ (name ++ (file ++ after))) =
        simp append_assoc in
      rw
        (
          sizes,
          read_int64-little_endian q (little_endian 8 (length file) ++ (name ++ (file ++ after)))
              (length name) h,
          read_int64-little_endian q (name ++ (file ++ after)) (length file) small,
          read_limited_lem q (file ++ after) name h,
        )
        refl

  receive_file_lem :
      (name : Bytes)
      → length name < 2 ^ 63
      → receive_file (reading q (file_packet name file ++ after))
        ≡ (ok (name, file), reading q after)
  unfolding receive_file
  receive_file_lem name h = rw (receive_name_lem name h, read_limited_lem q after file small) refl

  pub receive_part_lem :
      (part : ℕ)
      → part < 2 ^ 63
      → receive_part (reading q (part_packet part file ++ after))
        ≡ (ok (part, file), reading q after)
  unfolding receive_part
  receive_part_lem part h =
      let sizes : part_packet part file ++ after
          ≡ little_endian 8 part ++ (little_endian 8 (length file) ++ (file ++ after)) =
        simp append_assoc in
      rw
        (
          sizes,
          read_int64-little_endian q (little_endian 8 (length file) ++ (file ++ after)) part h,
          read_int64-little_endian q (file ++ after) (length file) small,
          read_limited_lem q after file small,
        )
        refl

-- What a node that can write to the connection `p` serves for a file arrives as it was: after the
-- byte that announces the stream, a round of getAll at the other end `q` reads the same name and the
-- same content, and leaves what comes after. The name and the file are shorter than 2^63 bytes.
pub receive-serve_file :
    (p q : Peer) (name file after : Bytes)
    → p.up ≡ true
    → length name < 2 ^ 63
    → length file < 2 ^ 63
    → (packet : Bytes) × (serve_file name (length file) file p
        ≡ (ok tt, sending p (incoming_stream ∷ packet)))
      × (receive_file (reading q (packet ++ after)) ≡ (ok (name, file), reading q after))
receive-serve_file p q name file after up hn hf = (
  file_packet name file,
  serve_file_lem p up file hf name hn,
  receive_file_lem q file after hf name hn,
)

-- What a node that can write to the connection `p` serves for a part of a file arrives as it was:
-- after the byte that announces the stream, a round of getSplit at the other end `q` reads the same
-- number and the same content, and leaves what comes after. The number is below 2^63 and the part is
-- shorter than 2^63 bytes.
pub receive-serve_part :
    (p q : Peer) (part : ℕ) (file after : Bytes)
    → p.up ≡ true
    → part < 2 ^ 63
    → length file < 2 ^ 63
    → (packet : Bytes) × (serve_part part (length file) file p
        ≡ (ok tt, sending p (incoming_stream ∷ packet)))
      × (receive_part (reading q (packet ++ after)) ≡ (ok (part, file), reading q after))
receive-serve_part p q part file after up hp hf = (
  part_packet part file,
  serve_part_lem p up file hf part hp,
  receive_part_lem q file after hf part hp,
)
