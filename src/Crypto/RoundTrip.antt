-- ===== src/Crypto/RoundTrip.antt =====
-- decrypt undoes encrypt, for each of the three kinds of encryption.
use peer_store.Prelude.{
  ℕ, ◌+◌, ◌<◌, ◌≡◌, ◌∙◌, ap, ◌⊎◌, inl, inr, some, arith, [], ◌∷◌, ◌++◌, append_assoc, drop, length,
  length-append, take-append, drop-append, Bytes, text, bytes_eq_iff, sym, Option, none,
}
use peer_store.Message.{Network}
use peer_store.Host.{Host, HostLaws, AreBytes}
use peer_store.Crypto.{
  Written, xor_from, buf_size, read_block, encrypt_aes, decrypt_aes_with, decrypt_aes,
  chacha20_copy, encrypt, decrypt,
}
use peer_store.Crypto.Stream.{xor_from_twice, length-xor_from, copy_stream_aes_total}

-- The kind of encryption is one of the three, and the key and the nonce have the sizes that
-- NewEncryptionKey and GenerateNonce make.
abbrev pub IsKeyed : Network → Type 0
IsKeyed net =
    ((net.enc_type ≡ text "AES") × (length net.enc_key ≡ 32))
    ⊎ ((net.enc_type ≡ text "CC20") × (length net.enc_key ≡ 32) × (length net.nonce ≡ 12))
    ⊎ (net.enc_type ≡ text "None")

-- What a call returns that has written `bytes` and counted `n`.
abbrev pub wrote : Bytes → ℕ → Written
wrote bytes n = record { bytes = bytes; result = some n }

read_block_append : (v x : Bytes) → length v ≡ 16 → read_block (v ++ x) ≡ v
unfolding read_block
read_block_append v x e = rw append_assoc (take-append 16 v _ e)

decrypt_aes_with_lem :
    (s : Bytes → ℕ → ℕ) (c : Bytes)
    → 0 < length c
    → decrypt_aes_with s c
      ≡ wrote (xor_from (s (read_block c)) 0 (drop 16 c)) (16 + length (drop 16 c))
unfolding decrypt_aes_with
decrypt_aes_with_lem s [] pos = absurd (omega arith)
decrypt_aes_with_lem s (b ∷ bs) pos =
    let src = drop 16 (b ∷ bs) in
    ground (
      arith,
      copy_stream_aes_total (s (read_block (b ∷ bs))) buf_size (length src + 1) 0 16 src []
          (omega arith) (omega arith),
    )

module _ (h : Host) (key v : Bytes) (s : Bytes → ℕ → ℕ) (known : h.aes_ctr key ≡ some s)
    (e : length v ≡ 16) where
  encrypt_aes_lem :
      (src : Bytes)
      → encrypt_aes h key (some v) src ≡ wrote (v ++ xor_from (s v) 0 src) (16 + length src)
  unfolding encrypt_aes
  encrypt_aes_lem src = ground (
    arith,
    known,
    copy_stream_aes_total (s v) buf_size (length src + 1) 0 16 src v (omega arith) (omega arith),
  )

  decrypt_aes_lem :
      (x : Bytes) → decrypt_aes h key (v ++ x) ≡ wrote (xor_from (s v) 0 x) (16 + length x)
  unfolding decrypt_aes
  decrypt_aes_lem x = cc (
    known,
    read_block_append v x e,
    drop-append 16 v x e,
    decrypt_aes_with_lem s (v ++ x) (omega (arith, length-append v x)),
  )

-- The bytes that encrypt writes, with the counts that both calls return.
abbrev pub Inverse : Host → Network → Bytes → Bytes → Bytes → Type 0
Inverse h net v src c =
    (encrypt h net (some v) src ≡ wrote c (length c)) × (decrypt h net c ≡ wrote src (length c))

module _ (h : Host) (net : Network) (iv : Option Bytes) (src : Bytes) where
  as_aes :
      net.enc_type ≡ text "AES"
      → (encrypt h net iv src ≡ encrypt_aes h net.enc_key iv src)
        × (decrypt h net src ≡ decrypt_aes h net.enc_key src)
  unfolding encrypt decrypt
  as_aes kind = ground (arith, bytes_eq_iff net.enc_type (text "AES"))

  as_chacha20 :
      net.enc_type ≡ text "CC20"
      → (encrypt h net iv src ≡ chacha20_copy h net.enc_key net.nonce src)
        × (decrypt h net src ≡ chacha20_copy h net.enc_key net.nonce src)
  unfolding encrypt decrypt
  as_chacha20 kind =
      ground
        (arith, bytes_eq_iff net.enc_type (text "AES"), bytes_eq_iff net.enc_type (text "CC20"))

  as_copy :
      net.enc_type ≡ text "None"
      → (encrypt h net iv src ≡ wrote src (length src))
        × (decrypt h net src ≡ wrote src (length src))
  unfolding encrypt decrypt
  as_copy kind = ground (
    arith,
    bytes_eq_iff net.enc_type (text "AES"),
    bytes_eq_iff net.enc_type (text "CC20"),
    bytes_eq_iff net.enc_type (text "None"),
  )

chacha20_copy_lem :
    (h : Host) (key nonce src : Bytes) (s : ℕ → ℕ)
    → h.chacha20 key nonce ≡ some s
    → chacha20_copy h key nonce src ≡ wrote (xor_from s 0 src) (length src)
unfolding chacha20_copy
chacha20_copy_lem h key nonce src s known = ground arith

module _ (h : Host) (laws : HostLaws h) (net : Network) (v src : Bytes) (e : length v ≡ 16)
    (bytes : AreBytes src) where
  aes-Inverse :
      net.enc_type ≡ text "AES" → length net.enc_key ≡ 32 → (c : Bytes) × Inverse h net v src c
  aes-Inverse kind size =
      let (s, known) = laws.aes_key net.enc_key size in
      let x = xor_from (s v) 0 src in
      let twice = xor_from_twice (s v) 0 src (λ i. laws.aes_bytes net.enc_key v s i known) bytes in
      let count : length (v ++ x) ≡ 16 + length src =
        omega (arith, length-append v x, length-xor_from (s v) 0 src) in
      (
        v ++ x,
        (
          (as_aes h net (some v) src kind).0
              ∙ encrypt_aes_lem h net.enc_key v s known e src
              ∙ ap (wrote (v ++ x)) (sym count),
          (as_aes h net none (v ++ x) kind).1
              ∙ decrypt_aes_lem h net.enc_key v s known e x
              ∙ cc (twice, count, length-xor_from (s v) 0 src),
        ),
      )

  chacha20-Inverse :
      net.enc_type ≡ text "CC20"
      → length net.enc_key ≡ 32
      → length net.nonce ≡ 12
      → (c : Bytes) × Inverse h net v src c
  chacha20-Inverse kind size nonce_size =
      let (s, known) = laws.chacha20_key net.enc_key net.nonce size nonce_size in
      let x = xor_from s 0 src in
      let twice =
        xor_from_twice s 0 src (λ i. laws.chacha20_bytes net.enc_key net.nonce s i known) bytes in
      let run = λ (b : Bytes). chacha20_copy_lem h net.enc_key net.nonce b s known in
      let long = length-xor_from s 0 src in
      (
        x,
        (
          (as_chacha20 h net (some v) src kind).0 ∙ run src ∙ ap (wrote x) (sym long),
          (as_chacha20 h net none x kind).1 ∙ run x ∙ cc twice,
        ),
      )

  -- On a host that keeps its laws, for a network whose key and nonce have the right sizes, a source
  -- of bytes and 16 random bytes: encrypt succeeds, decrypt of what it wrote succeeds and writes the source again, and both return
  -- the length of the encrypted text.
  pub decrypt-encrypt : IsKeyed net → (c : Bytes) × Inverse h net v src c
  decrypt-encrypt (inl (kind, size)) = aes-Inverse kind size
  decrypt-encrypt (inr (inl (kind, size, nonce_size))) = chacha20-Inverse kind size nonce_size
  decrypt-encrypt (inr (inr kind)) =
      (src, ((as_copy h net (some v) src kind).0, (as_copy h net none src kind).1))
