-- ===== src/Store/Frame.antt =====
-- What a reader finds depends on the two files of the name only.
use peer_store.Prelude.{
  ℕ, ◌≡◌, refl, sym, ap, ◌∙◌, none, some, Option, Bytes, Option-cases, inl, inr,
}
use peer_store.Result.{Result, GoError, ok, err, not_exist, decrypt_failed, decode_failed}
use peer_store.Message.{Network, Metadata}
use peer_store.Host.{Host}
use peer_store.Crypto.{Written, decrypt}
use peer_store.Crypto.RoundTrip.{wrote}
use peer_store.Disk.{Disk}
use peer_store.Disk.Laws.{open_file_lem, open_file-none}
use peer_store.Store.{Store}
use peer_store.Store.Ops.{full_path, metadata_path, read_stream, read_metadata, read_decrypt}

-- What ReadDecrypt makes of the two decryptions and of the metadata.
abbrev outcome_of : Bytes → Option ℕ → Option ℕ → Option Metadata → Result (ℕ × Bytes × Metadata)
outcome_of file none k m = err decrypt_failed
outcome_of file (some n) none m = err decrypt_failed
outcome_of file (some n) (some k) none = err decode_failed
outcome_of file (some n) (some k) (some m) = ok (n, file, m)

outcome_parts :
    (b file : Bytes) (r k : Option ℕ) (m : Option Metadata) (n : ℕ) (metadata : Metadata)
    → outcome_of b r k m ≡ ok (n, file, metadata)
    → (b ≡ file) × (r ≡ some n) × (j : ℕ) × (k ≡ some j) × (m ≡ some metadata)
outcome_parts b file none k m n metadata e = cc e
outcome_parts b file (some i) none m n metadata e = cc e
outcome_parts b file (some i) (some j) none n metadata e = cc e
outcome_parts b file (some i) (some j) (some m) n metadata e = (cc e, cc e, j, refl, cc e)

written_parts : (w : Written) (b : Bytes) (n : ℕ) → w.bytes ≡ b → w.result ≡ some n → w ≡ wrote b n
written_parts w b n e f =
    ap (λ (x : Bytes). record { bytes = x; result = w.result }) e
    ∙ ap (λ (x : Option ℕ). record { bytes = b; result = x }) f

module _ (h : Host) (s : Store) (net : Network) (id : Bytes) where
  pub no_file :
      (d : Disk) → d.file (full_path s id) ≡ none → read_decrypt h s net id d ≡ (err not_exist, d)
  unfolding read_decrypt read_stream
  no_file d gone = rw (open_file-none (full_path s id) d gone) refl

  abbrev outcome : Bytes → Bytes → Result (ℕ × Bytes × Metadata)
  outcome c e =
      outcome_of (decrypt h net c).bytes (decrypt h net c).result (decrypt h net e).result
        (h.decode_metadata (decrypt h net e).bytes)

  read_outcome :
      (d : Disk) (c e : Bytes)
      → d.file (full_path s id) ≡ some c
      → d.file (metadata_path s id) ≡ some e
      → read_decrypt h s net id d ≡ (outcome c e, d)
  unfolding read_decrypt read_stream read_metadata
  read_outcome d c e there meta =
      let file = open_file_lem (full_path s id) d c there in
      let metas = open_file_lem (metadata_path s id) d e meta in
      elim (Option-cases (decrypt h net c).result) [
        | inl f ↦ rw (file, f) refl
        | inr (n, f) ↦ elim (Option-cases (decrypt h net e).result) [
          | inl g ↦ rw (file, f, metas, g) refl
          | inr (k, g) ↦ elim (Option-cases (h.decode_metadata (decrypt h net e).bytes)) [
            | inl m ↦ rw (file, f, metas, g, m) refl
            | inr (m, v) ↦ rw (file, f, metas, g, v) refl
          ]
        ]
      ]

  no_metadata :
      (d : Disk) (c : Bytes)
      → d.file (full_path s id) ≡ some c
      → d.file (metadata_path s id) ≡ none
      → (e : GoError) × (read_decrypt h s net id d ≡ (err e, d))
  unfolding read_decrypt read_stream read_metadata
  no_metadata d c there gone =
      let file = open_file_lem (full_path s id) d c there in
      elim (Option-cases (decrypt h net c).result) [
        | inl f ↦ (decrypt_failed, rw (file, f) refl)
        | inr (n, f) ↦ (not_exist, rw (file, f, open_file-none (metadata_path s id) d gone) refl)
      ]

  -- A name that is read has both its files.
  pub read_there :
      (d d' : Disk) (r : ℕ × Bytes × Metadata)
      → read_decrypt h s net id d ≡ (ok r, d')
      → (c : Bytes) × (e : Bytes) × (d.file (full_path s id) ≡ some c)
        × (d.file (metadata_path s id) ≡ some e)
  read_there d d' r ran = elim (Option-cases (d.file (full_path s id))) [
    | inl gone ↦ cc (ran, no_file d gone)
    | inr (c, there) ↦ elim (Option-cases (d.file (metadata_path s id))) [
      | inl gone ↦ let (e, failed) = no_metadata d c there gone in cc (ran, failed)
      | inr (e, meta) ↦ (c, e, there, meta)
    ]
  ]

  -- On a disk that agrees in the two files the same is read.
  pub read_same :
      (d d' : Disk) (r : ℕ × Bytes × Metadata)
      → d'.file (full_path s id) ≡ d.file (full_path s id)
      → d'.file (metadata_path s id) ≡ d.file (metadata_path s id)
      → read_decrypt h s net id d ≡ (ok r, d)
      → read_decrypt h s net id d' ≡ (ok r, d')
  read_same d d' r same same' ran =
      let (c, e, there, meta) = read_there d d r ran in
      let value : outcome c e ≡ ok r =
        ap (λ (x : Result (ℕ × Bytes × Metadata) × Disk). x.0)
          (sym (read_outcome d c e there meta) ∙ ran) in
      read_outcome d' c e (same ∙ there) (same' ∙ meta)
      ∙ ap (λ (x : Result (ℕ × Bytes × Metadata)). (x, d')) value

  -- What has been read is the decrypted file, and the metadata by themselves.
  pub read_parts :
      (d : Disk) (n : ℕ) (file : Bytes) (metadata : Metadata)
      → read_decrypt h s net id d ≡ (ok (n, file, metadata), d)
      → (c : Bytes) × (d.file (full_path s id) ≡ some c)
        × (decrypt h net c ≡ wrote file n)
        × (read_metadata h s net id d ≡ (ok metadata, d))
  unfolding read_metadata
  read_parts d n file metadata ran =
      let (c, e, there, meta) = read_there d d (n, file, metadata) ran in
      let value : outcome c e ≡ ok (n, file, metadata) =
        ap (λ (x : Result (ℕ × Bytes × Metadata) × Disk). x.0)
          (sym (read_outcome d c e there meta) ∙ ran) in
      let (bytes, result, j, result', decoded) =
        outcome_parts (decrypt h net c).bytes file (decrypt h net c).result (decrypt h net e).result
          (h.decode_metadata (decrypt h net e).bytes) n metadata value in
      (
        c,
        there,
        written_parts (decrypt h net c) file n bytes result,
        rw (open_file_lem (metadata_path s id) d e meta, result', decoded) refl,
      )
