-- ===== src/Crypto.antt =====
-- crypto.go, crypto/crypto_aes.go and crypto/crypto_chacha20.go: encryption of a file and its
-- inverse. The sources are buffers, whose Read fails at the end only, and the writers take what is
-- written to them.
pub mod Stream
pub mod Keys
pub mod RoundTrip
use Prim.Native.Nat.{bit_xor}
use peer_store.Prelude.{
  ℕ, zero, suc, ◌+◌, ◌*◌, Option, none, some, [], ◌∷◌, ◌++◌, length, take, drop, replicate,
  if◌then◌else◌, Bytes, text, bytes_eq,
}
use peer_store.Message.{Network}
use peer_store.Host.{Host}

-- What a call wrote to its destination, and the number that it returned; `none` is an error.
pub record Written : Type 0 where
  pub bytes : Bytes
  pub result : Option ℕ

-- XORKeyStream at place `off` of the stream.
unfoldable pub xor_from : (ℕ → ℕ) → ℕ → Bytes → Bytes
xor_from ks off [] = []
xor_from ks off (b ∷ bs) = bit_xor b (ks off) ∷ xor_from ks (suc off) bs

abbrev pub buf_size : ℕ
buf_size = 32 * 1024

abbrev pub block_size : ℕ
block_size = 16

-- The loop of copyStreamAES over a buffer of `size` bytes: a Read of at most as many, a Write of
-- what was read, until the source is at its end. `none` means that the fuel ran out.
unfoldable pub copy_stream_aes : (ℕ → ℕ) → ℕ → ℕ → ℕ → ℕ → Bytes → Bytes → Option Written
copy_stream_aes ks size zero off nw src dst = none
copy_stream_aes ks size (suc fuel) off nw [] dst = some (record { bytes = dst; result = some nw })
copy_stream_aes ks size (suc fuel) off nw (b ∷ bs) dst =
    let chunk = take size (b ∷ bs) in
    copy_stream_aes ks size fuel (off + length chunk) (nw + length chunk) (drop size (b ∷ bs))
      (dst ++ xor_from ks off chunk)

abbrev pub failed : Bytes → Written
failed bytes = record { bytes = bytes; result = none }

abbrev pub or_failed : Option Written → Written
or_failed none = failed []
or_failed (some w) = w

-- A Read of a block into a buffer of zeros.
unfoldable pub read_block : Bytes → Bytes
read_block src = take block_size (src ++ replicate block_size 0)

-- `iv` is what the random source gave.
unfoldable pub encrypt_aes : Host → Bytes → Option Bytes → Bytes → Written
encrypt_aes h key iv src = elim (h.aes_ctr key) [
  | none ↦ failed []
  | some block ↦ elim iv [
    | none ↦ failed []
    | some v ↦ or_failed (copy_stream_aes (block v) buf_size (length src + 1) 0 block_size src v)
  ]
]

-- A Read of nothing is the error at the end of the source.
unfoldable pub decrypt_aes_with : (Bytes → ℕ → ℕ) → Bytes → Written
decrypt_aes_with block [] = failed []
decrypt_aes_with block (b ∷ bs) =
    let src = drop block_size (b ∷ bs) in
    or_failed
      (copy_stream_aes (block (read_block (b ∷ bs))) buf_size (length src + 1) 0 block_size src [])

unfoldable pub decrypt_aes : Host → Bytes → Bytes → Written
unfolding decrypt_aes_with
decrypt_aes h key src = elim (h.aes_ctr key) [
  | none ↦ failed []
  | some block ↦ decrypt_aes_with block src
]

-- ChaCha20Encrypt and ChaCha20Decrypt, which are one text: io.Copy into a cipher.StreamWriter.
unfoldable pub chacha20_copy : Host → Bytes → Bytes → Bytes → Written
chacha20_copy h key nonce src = elim (h.chacha20 key nonce) [
  | none ↦ failed []
  | some ks ↦ record { bytes = xor_from ks 0 src; result = some (length src) }
]

-- io.Copy(dst, src)
abbrev pub copy : Bytes → Written
copy src = record { bytes = src; result = some (length src) }

unfoldable pub encrypt : Host → Network → Option Bytes → Bytes → Written
encrypt h net iv src =
    if bytes_eq net.enc_type (text "AES")
    then encrypt_aes h net.enc_key iv src
    else if bytes_eq net.enc_type (text "CC20")
    then chacha20_copy h net.enc_key net.nonce src
    else if bytes_eq net.enc_type (text "None")
    then copy src
    else record { bytes = []; result = some 0 }

unfoldable pub decrypt : Host → Network → Bytes → Written
decrypt h net src =
    if bytes_eq net.enc_type (text "AES")
    then decrypt_aes h net.enc_key src
    else if bytes_eq net.enc_type (text "CC20")
    then chacha20_copy h net.enc_key net.nonce src
    else if bytes_eq net.enc_type (text "None")
    then copy src
    else record { bytes = []; result = some 0 }
