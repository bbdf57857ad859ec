-- ===== src/Host.antt =====
-- What the program calls and does not implement: hashes and ciphers, gob, random numbers. `HostLaws`
-- states what their documentation promises.
use peer_store.Prelude.{ℕ, ◌<◌, ◌≡◌, Option, none, some, [], Bytes, All, length}
use peer_store.Message.{Metadata, Message}

-- A cipher is the byte that it adds at each place of the stream; `none` is the error that
-- aes.NewCipher and chacha20.NewUnauthenticatedCipher return for a key or a nonce that does not fit.
pub record Host : Type 0 where
  pub sha1 : Bytes → Bytes
  pub aes_ctr : Bytes → Option (Bytes → ℕ → ℕ)
  pub chacha20 : Bytes → Bytes → Option (ℕ → ℕ)
  -- the bytes that crypto/rand gives to the n-th encryption, as many as asked for, or its error
  pub random : ℕ → ℕ → Option Bytes
  -- encoding/gob
  pub encode_metadata : Metadata → Option Bytes
  pub decode_metadata : Bytes → Option Metadata
  pub encode_message : Message → Option Bytes
  pub decode_message : Bytes → Option Message

abbrev pub IsByte : ℕ → Type 0
IsByte b = b < 256

abbrev pub AreBytes : Bytes → Type 0
AreBytes = All IsByte

pub record HostLaws (h : Host) : Type 0 where
  pub length-sha1 : (b : Bytes) → length (h.sha1 b) ≡ 20
  pub sha1_bytes : (b : Bytes) → AreBytes (h.sha1 b)
  pub aes_key : (key : Bytes) → length key ≡ 32 → (s : Bytes → ℕ → ℕ) × (h.aes_ctr key ≡ some s)
  pub aes_bytes :
      (key iv : Bytes) (s : Bytes → ℕ → ℕ) (i : ℕ) → h.aes_ctr key ≡ some s → IsByte (s iv i)
  pub chacha20_key :
      (key nonce : Bytes)
      → length key ≡ 32
      → length nonce ≡ 12
      → (s : ℕ → ℕ) × (h.chacha20 key nonce ≡ some s)
  pub chacha20_bytes :
      (key nonce : Bytes) (s : ℕ → ℕ) (i : ℕ) → h.chacha20 key nonce ≡ some s → IsByte (s i)
  pub random_length : (t n : ℕ) (b : Bytes) → h.random t n ≡ some b → length b ≡ n
  pub random_bytes : (t n : ℕ) (b : Bytes) → h.random t n ≡ some b → AreBytes b
  pub encodes_metadata : (m : Metadata) → (b : Bytes) × (h.encode_metadata m ≡ some b) × AreBytes b
  pub decode-encode_metadata :
      (m : Metadata) (b : Bytes) → h.encode_metadata m ≡ some b → h.decode_metadata b ≡ some m
  -- a gob stream that ends before its value is an error
  pub decode_empty : h.decode_metadata [] ≡ none
