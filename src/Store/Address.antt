-- ===== src/Store/Address.antt =====
-- CASPathTransformFunc: the shape of a content address.
use peer_store.Prelude.{
  ℕ, zero, suc, ◌+◌, ◌*◌, ◌/◌, ◌<◌, ◌≡◌, ◌≢◌, ap, sym, ◌∙◌, refl, false, arith, List, [], ◌∷◌, ◌++◌,
  length, Bytes, All, length-take, length-drop, take, drop, take_all, take_add, drop-drop, concat,
  ◌≤◌,
}
use peer_store.Host.{Host, HostLaws, AreBytes}
use peer_store.Disk.{contains_slash}
use peer_store.Store.{hex_digit, hex_encode, blocks, join, PathKey, cas_path_transform}
use peer_store.Store.Written.{IsPlain}

pub length-hex_encode : (bs : Bytes) → length (hex_encode bs) ≡ 2 * length bs
unfolding hex_encode
length-hex_encode [] = refl
length-hex_encode (b ∷ bs) = omega (arith, length-hex_encode bs)

hex_digit_plain : (n : ℕ) → n < 16 → hex_digit n ≢ b'/'
unfolding hex_digit
hex_digit_plain n h = ground arith

hex_encode_plain : (bs : Bytes) → AreBytes bs → contains_slash (hex_encode bs) ≡ false
unfolding contains_slash hex_encode
hex_encode_plain [] h = refl
hex_encode_plain (b ∷ bs) h = ground (arith, hex_encode_plain bs h.1)

length-block_list : (k i size : ℕ) (hash : Bytes) → length (blocks k i size hash) ≡ k
unfolding blocks
length-block_list zero i size hash = refl
length-block_list (suc k) i size hash = ap suc (length-block_list k (i + 1) size hash)

length-blocks :
    (k i : ℕ) (hash : Bytes)
    → (i + k) * 5 ≤ length hash
    → All (λ (b : Bytes). length b ≡ 5) (blocks k i 5 hash)
unfolding blocks
length-blocks zero i hash h = tt
length-blocks (suc k) i hash h = (
  omega (arith, length-take 5 (drop (i * 5) hash), length-drop (i * 5) hash),
  length-blocks k (i + 1) hash (omega arith),
)

concat-blocks :
    (k i : ℕ) (hash : Bytes) → concat (blocks k i 5 hash) ≡ take (k * 5) (drop (i * 5) hash)
unfolding blocks take
concat-blocks zero i hash = refl
concat-blocks (suc k) i hash =
    ap (λ (l : Bytes). take 5 (drop (i * 5) hash) ++ l)
      (concat-blocks k (i + 1) hash
        ∙ ap (take (k * 5))
            (ap (λ (n : ℕ). drop n hash) (omega arith) ∙ sym (drop-drop 5 (i * 5) hash)))
    ∙ sym (take_add 5 (k * 5) (drop (i * 5) hash))
    ∙ ap (λ (n : ℕ). take n (drop (i * 5) hash)) (omega arith)

-- The address of a key: a file named by 40 hexadecimal digits, in eight nested directories named by
-- five of the digits each, in order.
pub record IsAddress (k : PathKey) : Type 0 where
  pub plain : IsPlain k
  pub digits : length k.file_name ≡ 40
  pub parts : List Bytes
  pub path : k.path_name ≡ join parts
  pub eight : length parts ≡ 8
  pub five : All (λ (b : Bytes). length b ≡ 5) parts
  pub whole : concat parts ≡ k.file_name

-- Where SHA-1 gives 20 bytes, CASPathTransformFunc gives every key an address whose file name has
-- 40 characters, none of them a slash, and is not "metadata", and whose path is the eight blocks of
-- five characters of that name in order.
pub cas_path_transform-IsAddress :
    (h : Host) (laws : HostLaws h) (key : Bytes) → IsAddress (cas_path_transform h key)
unfolding cas_path_transform
cas_path_transform-IsAddress h laws key =
    let hash = hex_encode (h.sha1 key) in
    let size : length hash ≡ 40 =
      omega (arith, length-hex_encode (h.sha1 key), laws.length-sha1 key) in
    record {
      plain = record {
        one_element = hex_encode_plain (h.sha1 key) (laws.sha1_bytes key);
        not_metadata = λ e. omega (arith, size, ap (length {A = ℕ}) e);
      };
      digits = size;
      parts = blocks (length hash / 5) 0 5 hash;
      path = refl;
      eight = length-block_list (length hash / 5) 0 5 hash ∙ omega (arith, size);
      five = length-blocks (length hash / 5) 0 hash (omega (arith, size));
      whole =
          concat-blocks (length hash / 5) 0 hash
          ∙ (unfold drop in take_all (length hash / 5 * 5) hash (omega (arith, size)));
    }
