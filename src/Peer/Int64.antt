-- ===== src/Peer/Int64.antt =====
-- What is written to a peer is read back on the other side.
use peer_store.Prelude.{
  ℕ, zero, suc, ◌^◌, ◌%◌, ◌/◌, ◌<◌, ◌≡◌, true, false, refl, ap, arith, [], ◌∷◌, ◌++◌, length,
  length-append, append-nil, take-append, drop-append, ltb, Bytes,
}
use peer_store.Result.{ok}
use peer_store.Peer.{
  Peer, little_endian, from_little_endian, send, copy_to, read_int64, read_limited, write_int64,
}

pub length-little_endian : (k n : ℕ) → length (little_endian k n) ≡ k
unfolding little_endian
length-little_endian zero n = refl
length-little_endian (suc k) n = ap suc (length-little_endian k (n / 256))

pub from_little_endian-little_endian :
    (k n : ℕ) → n < 256 ^ k → from_little_endian (little_endian k n) ≡ n
unfolding little_endian from_little_endian
from_little_endian-little_endian zero n h = omega arith
from_little_endian-little_endian (suc k) n h =
    omega (arith, from_little_endian-little_endian k (n / 256) (omega arith))

abbrev pub reading : Peer → Bytes → Peer
reading q b = record q { inbox = b }

module _ (q : Peer) (after : Bytes) where
  pub read_int64-little_endian :
      (n : ℕ)
      → n < 2 ^ 63
      → read_int64 (reading q (little_endian 8 n ++ after)) ≡ (ok n, reading q after)
  unfolding read_int64
  read_int64-little_endian n h =
      let long : ltb (length (little_endian 8 n ++ after)) 8 ≡ false =
        ground (arith, length-append (little_endian 8 n) after, length-little_endian 8 n) in
      rw
        (
          long,
          take-append 8 (little_endian 8 n) after (length-little_endian 8 n),
          drop-append 8 (little_endian 8 n) after (length-little_endian 8 n),
          from_little_endian-little_endian 8 n (omega arith),
        )
        refl

  pub read_limited_lem :
      (b : Bytes)
      → length b < 2 ^ 63
      → read_limited (length b) (reading q (b ++ after)) ≡ (ok b, reading q after)
  unfolding read_limited
  read_limited_lem b h =
      let all : ltb (length b) (2 ^ 63) ≡ true = ground arith in
      rw (all, take-append (length b) b after refl, drop-append (length b) b after refl) refl

abbrev pub sending : Peer → Bytes → Peer
sending p b = record p { sent = p.sent ++ b }

module _ (p : Peer) (up : p.up ≡ true) where
  pub send_lem : (b : Bytes) → send b p ≡ (ok tt, sending p b)
  unfolding send
  send_lem b = rw up refl

  pub copy_to_lem : (b : Bytes) → copy_to b p ≡ (ok tt, sending p b)
  unfolding copy_to
  copy_to_lem [] = rw (append-nil p.sent) refl
  copy_to_lem (b ∷ bs) = send_lem (b ∷ bs)

  pub write_int64_lem :
      (n : ℕ) → n < 2 ^ 63 → write_int64 n p ≡ (ok tt, sending p (little_endian 8 n))
  unfolding write_int64
  write_int64_lem n h =
      let small : n % 2 ^ 64 ≡ n = omega arith in rw (small, send_lem (little_endian 8 n)) refl
