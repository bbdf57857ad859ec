-- ===== src/Node/Handlers/Files/RoundTrip.antt =====
-- A file of the ring that one node serves and another receives.
use peer_store.Prelude.{
  ℕ, ◌≤◌, ◌<◌, ◌^◌, ◌%◌, ◌≡◌, ◌⊎◌, inl, inr, true, false, refl, arith, [], ◌∷◌, ◌++◌, append_assoc,
  length, length-append, take-append, drop-append, ltb, Bytes, Bool-cases, ltb→lt,
}
use peer_store.Result.{ok, err, too_long}
use peer_store.Peer.{Peer, little_endian, from_little_endian, incoming_stream}
use peer_store.Peer.Int64.{
  reading, sending, send_lem, length-little_endian, from_little_endian-little_endian,
}
use peer_store.Node.Files.{read_full, read_rest, max_filename, receive_chord_file}
use peer_store.Node.Handlers.Files.{serve_chord_file}

abbrev pub chord_packet : Bytes → Bytes → Bytes
chord_packet name file = incoming_stream ∷ little_endian 4 (length name) ++ (name ++ file)

pub read_full_lem :
    (q : Peer) (b after : Bytes) (n : ℕ)
    → length b ≡ n
    → read_full n (reading q (b ++ after)) ≡ (ok b, reading q after)
unfolding read_full
read_full_lem q b after n e =
    let enough : ltb (length (b ++ after)) n ≡ false = ground (arith, length-append b after) in
    rw (enough, take-append n b after e, drop-append n b after e) refl

module _ (p q : Peer) (name file : Bytes) (small : length name < 2 ^ 32) where
  serve_chord_file_lem :
      p.up ≡ true → serve_chord_file name file p ≡ (ok tt, sending p (chord_packet name file))
  unfolding serve_chord_file
  serve_chord_file_lem up =
      let p1 = sending p (incoming_stream ∷ []) in
      let p2 = sending p1 (little_endian 4 (length name)) in
      let p3 = sending p2 name in
      let whole : length name % 2 ^ 32 ≡ length name = omega arith in
      rw
        (
          send_lem p up (incoming_stream ∷ []),
          whole,
          send_lem p1 up (little_endian 4 (length name)),
          send_lem p2 up name,
          send_lem p3 up file,
        )
        (simp append_assoc)

  size_read : from_little_endian (little_endian 4 (length name)) ≡ length name
  size_read = from_little_endian-little_endian 4 (length name) (omega arith)

  receive_short :
      ltb max_filename (length name) ≡ false
      → receive_chord_file (reading q (chord_packet name file)) ≡ (ok (file, name), reading q [])
  unfolding receive_chord_file read_rest
  receive_short short =
      rw
        (
          read_full_lem q (incoming_stream ∷ []) (little_endian 4 (length name) ++ (name ++ file)) 1
              refl,
          read_full_lem q (little_endian 4 (length name)) (name ++ file) 4
              (length-little_endian 4 (length name)),
          size_read,
          short,
          read_full_lem q name file (length name) refl,
        )
        refl

  receive_long :
      ltb max_filename (length name) ≡ true
      → receive_chord_file (reading q (chord_packet name file))
        ≡ (err too_long, reading q (name ++ file))
  unfolding receive_chord_file
  receive_long long =
      rw
        (
          read_full_lem q (incoming_stream ∷ []) (little_endian 4 (length name) ++ (name ++ file)) 1
              refl,
          read_full_lem q (little_endian 4 (length name)) (name ++ file) 4
              (length-little_endian 4 (length name)),
          size_read,
          long,
        )
        refl

-- What handleMessageGetChordFile writes on a connection that takes it, for a name shorter than 2^32
-- bytes and any file: GetFile at the other end reads the same name and the same content if the name
-- has at most 1000 bytes, and fails with the name too long if it has more.
pub receive-serve_chord_file :
    (p q : Peer) (name file : Bytes)
    → p.up ≡ true
    → length name < 2 ^ 32
    → (packet : Bytes) × (serve_chord_file name file p ≡ (ok tt, sending p packet))
      × (((length name ≤ max_filename)
            × (receive_chord_file (reading q packet) ≡ (ok (file, name), reading q [])))
          ⊎ ((max_filename < length name)
              × (receive_chord_file (reading q packet) ≡ (err too_long, reading q (name ++ file)))))
receive-serve_chord_file p q name file up small = (
  chord_packet name file,
  serve_chord_file_lem p q name file small up,
  elim (Bool-cases (ltb max_filename (length name))) [
    | inl long ↦ inr (ltb→lt max_filename (length name) long, receive_long p q name file small long)
    | inr short ↦ inl (ground arith, receive_short p q name file small short)
  ],
)
