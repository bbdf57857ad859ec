-- ===== src/Crypto/Keys.antt =====
-- The keys and nonces of crypto/crypto_aes.go and crypto/crypto_chacha20.go, with HashKey; and the copy
-- loop of crypto_chacha20.go, which nothing calls.
use peer_store.Prelude.{
  ℕ, ◌+◌, ◌≡◌, ◌<◌, refl, ap, ◌∙◌, inl, inr, Option, Option-cases, none, some, arith, [], length,
  replicate, Bytes,
}
use peer_store.Host.{Host, HostLaws}
use peer_store.Crypto.{Written, buf_size, xor_from, copy_stream_aes, chacha20_copy}
use peer_store.Crypto.Stream.{copy_stream_aes_total}
use peer_store.Store.{hex_encode}

-- `draw` counts the draws from the random source. GenerateNonce panics where it fails; `none`.
unfoldable pub generate_nonce : Host → ℕ → Option Bytes
generate_nonce h draw = h.random draw 12

-- The error of io.ReadFull is dropped, and the buffer keeps its zeros.
unfoldable pub new_encryption_key : Host → ℕ → Bytes
unfolding replicate
new_encryption_key h draw = elim (h.random draw 32) [ none ↦ replicate 32 0 | some key ↦ key ]

-- `md5` is md5.Sum.
unfoldable pub hash_key : (Bytes → Bytes) → Bytes → Bytes
unfolding hex_encode
hash_key md5 key = hex_encode (md5 key)

-- copyStream: the loop of copyStreamAES, counting from 0.
unfoldable pub copy_stream : (ℕ → ℕ) → ℕ → Bytes → Option Written
unfolding copy_stream_aes
copy_stream ks fuel src = copy_stream_aes ks buf_size fuel 0 0 src []

-- With more fuel than the source has bytes, copyStream writes and returns what io.Copy into a
-- cipher.StreamWriter does, which ChaCha20Encrypt and ChaCha20Decrypt use in its place, for a key and a
-- nonce that fit.
pub copy_stream-chacha20_copy :
    (h : Host) (key nonce src : Bytes) (ks : ℕ → ℕ) (fuel : ℕ)
    → h.chacha20 key nonce ≡ some ks
    → length src < fuel
    → copy_stream ks fuel src ≡ some (chacha20_copy h key nonce src)
unfolding copy_stream chacha20_copy
copy_stream-chacha20_copy h key nonce src ks fuel e lt =
    let whole = copy_stream_aes_total ks buf_size fuel 0 0 src [] (omega arith) lt in
    let counted : 0 + length src ≡ length src = omega arith in
    whole
    ∙ ap (λ (n : ℕ). some (record { bytes = xor_from ks 0 src; result = some n })) counted
    ∙ rw (chacha20_copy, e) refl

-- The key has 32 bytes, whether the random source has failed or not.
pub length-new_encryption_key :
    (h : Host) (laws : HostLaws h) (draw : ℕ) → length (new_encryption_key h draw) ≡ 32
unfolding new_encryption_key replicate
length-new_encryption_key h laws draw = elim (Option-cases (h.random draw 32)) [
  | inl failed ↦ rw (new_encryption_key, failed) refl
  | inr (key, e) ↦ rw (new_encryption_key, e) (laws.random_length draw 32 key e)
]
