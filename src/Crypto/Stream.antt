-- ===== src/Crypto/Stream.antt =====
-- The copy loop writes the whole source under one key stream, and the stream cipher undoes itself.
use native.Mathlib.Nat.{add-zero, add-suc, suc-add, add_assoc}
use peer_store.Prelude.{
  ℕ, zero, suc, ◌+◌, ◌<◌, ◌≡◌, refl, ap, ◌∙◌, some, arith, [], ◌∷◌, ◌++◌, append-nil, append_assoc,
  take, drop, length, length-append, length-drop, take-append-drop, Bytes, xor_twice,
}
use peer_store.Host.{IsByte, AreBytes}
use peer_store.Crypto.{xor_from, copy_stream_aes}

pub xor_from_append :
    (ks : ℕ → ℕ) (off : ℕ) (xs ys : Bytes)
    → xor_from ks off (xs ++ ys) ≡ xor_from ks off xs ++ xor_from ks (off + length xs) ys
unfolding xor_from
xor_from_append ks off [] ys = rw add-zero
xor_from_append ks off (x ∷ xs) ys =
    cc (xor_from_append ks (suc off) xs ys, suc-add off (length xs), add-suc off (length xs))

pub xor_from_twice :
    (ks : ℕ → ℕ) (off : ℕ) (xs : Bytes)
    → ((i : ℕ) → IsByte (ks i))
    → AreBytes xs
    → xor_from ks off (xor_from ks off xs) ≡ xs
unfolding xor_from
xor_from_twice ks off [] k h = refl
xor_from_twice ks off (x ∷ xs) k h =
    cc (xor_twice x (ks off) h.0 (k off), xor_from_twice ks (suc off) xs k h.1)

pub length-xor_from : (ks : ℕ → ℕ) (off : ℕ) (xs : Bytes) → length (xor_from ks off xs) ≡ length xs
unfolding xor_from
length-xor_from ks off [] = refl
length-xor_from ks off (x ∷ xs) = ap suc (length-xor_from ks (suc off) xs)

-- With more fuel than the source has bytes the loop ends, whatever the size of the buffer: it has
-- written the whole source under the key stream from its place on, and counted every byte.
pub copy_stream_aes_total :
    (ks : ℕ → ℕ) (size fuel off nw : ℕ) (src dst : Bytes)
    → 0 < size
    → length src < fuel
    → copy_stream_aes ks size fuel off nw src dst
      ≡ some (record { bytes = dst ++ xor_from ks off src; result = some (nw + length src) })
unfolding copy_stream_aes
copy_stream_aes_total ks size zero off nw src dst pos lt = absurd (omega arith)
copy_stream_aes_total ks size (suc fuel) off nw [] dst pos lt =
    unfold xor_from in cc (append-nil dst, add-zero nw)
copy_stream_aes_total ks size (suc fuel) off nw (b ∷ bs) dst pos lt =
    let chunk = take size (b ∷ bs) in
    let rest = drop size (b ∷ bs) in
    copy_stream_aes_total ks size fuel (off + length chunk) (nw + length chunk) rest
      (dst ++ xor_from ks off chunk) pos (omega (arith, length-drop size (b ∷ bs)))
    ∙ cc (
      append_assoc dst (xor_from ks off chunk) (xor_from ks (off + length chunk) rest),
      xor_from_append ks off chunk rest,
      take-append-drop size (b ∷ bs),
      length-append chunk rest,
      add_assoc nw (length chunk) (length rest),
    )
