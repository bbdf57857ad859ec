-- ===== src/Examples/Machine.antt =====
-- A host that meets its laws: the ciphers add the place of a byte, gob is a unary code.
use mathlib.Core.Option.{some-injective}
use peer_store.Prelude.{
  ℕ, zero, suc, ◌+◌, ◌%◌, ◌≡◌, refl, ap, subst, ◌∙◌, Bool-cases, inl, inr, Bool, true, false, arith,
  Option, none, some, List, [], ◌∷◌, ◌++◌, length, take, drop, replicate, take-append_length,
  drop-append_length, if◌then◌else◌, ◌==◌, Bytes,
}
use peer_store.Message.{Metadata}
use peer_store.Host.{Host, HostLaws, IsByte, AreBytes}

pub code : List ℕ → Bytes
code [] = []
code (zero ∷ ns) = 0 ∷ code ns
code (suc n ∷ ns) = 1 ∷ code (n ∷ ns)

pub decode_from : ℕ → Bytes → List ℕ
decode_from acc [] = []
decode_from acc (b ∷ bs) =
    let done = decode_from 0 bs in
    let more = decode_from (acc + 1) bs in if b == 0 then acc ∷ done else more

decode-code :
    (acc n : ℕ) (ns : List ℕ)
    → decode_from acc (code (n ∷ ns)) ≡ (acc + n) ∷ decode_from 0 (code ns)
unfolding code decode_from
decode-code acc zero ns = ground arith
decode-code acc (suc n) ns = ground (arith, decode-code (acc + 1) n ns)

decode-code_all : (ns : List ℕ) → decode_from 0 (code ns) ≡ ns
decode-code_all [] = unfold code decode_from in refl
decode-code_all (n ∷ ns) = ground (arith, decode-code 0 n ns, decode-code_all ns)

pub code_bytes : (ns : List ℕ) → AreBytes (code ns)
unfolding code
code_bytes [] = tt
code_bytes (zero ∷ ns) = (omega arith, code_bytes ns)
code_bytes (suc n ∷ ns) = (omega arith, code_bytes (n ∷ ns))

pub numbers : Metadata → List ℕ
numbers m =
    length m.cid ∷ length m.file_id ∷ m.part ∷ m.total_parts ∷ (m.cid ++ (m.file_id ++ m.file_name))

pub read_numbers : List ℕ → Option Metadata
read_numbers (c ∷ f ∷ p ∷ t ∷ rest) = some (record {
  cid = take c rest;
  file_id = take f (drop c rest);
  file_name = drop f (drop c rest);
  part = p;
  total_parts = t;
})
read_numbers _ = none

read_numbers_lem : (m : Metadata) → read_numbers (numbers m) ≡ some m
unfolding read_numbers numbers
read_numbers_lem m = cc (
  take-append_length m.cid (m.file_id ++ m.file_name),
  drop-append_length m.cid (m.file_id ++ m.file_name),
  take-append_length m.file_id m.file_name,
  drop-append_length m.file_id m.file_name,
)

abbrev pub machine : Host
machine = record {
  sha1 = λ b. replicate 20 (length b % 256);
  aes_ctr = λ key. if length key == 32 then some (λ iv i. (length iv + i) % 256) else none;
  chacha20 = λ key nonce.
      if length key == 32 then (if length nonce == 12 then some (λ i. i % 256) else none) else none;
  random = λ t n. some (replicate n 7);
  encode_metadata = λ m. some (code (numbers m));
  decode_metadata = λ b. read_numbers (decode_from 0 b);
  encode_message = λ m. some [];
  decode_message = λ b. none;
}

length-replicate : (n b : ℕ) → length (replicate n b) ≡ n
unfolding replicate
length-replicate zero b = refl
length-replicate (suc n) b = ap suc (length-replicate n b)

replicate_bytes : (n b : ℕ) → IsByte b → AreBytes (replicate n b)
unfolding replicate
replicate_bytes zero b h = tt
replicate_bytes (suc n) b h = (h, replicate_bytes n b h)

guarded :
    {A : Type 0} (P : A → Type 0) (b : Bool) (f s : A)
    → (if b then some f else none) ≡ some s
    → P f
    → P s
guarded P true f s e p = subst P (some-injective _ _ e) p
guarded P false f s e p = cc

aes-IsByte :
    (key : Bytes) (s : Bytes → ℕ → ℕ) (iv : Bytes) (i : ℕ)
    → machine.aes_ctr key ≡ some s
    → IsByte (s iv i)
aes-IsByte key s iv i e =
    guarded (λ (f : Bytes → ℕ → ℕ). IsByte (f iv i)) (length key == 32) _ s e (omega arith)

chacha20-IsByte :
    (key nonce : Bytes) (s : ℕ → ℕ) (i : ℕ) → machine.chacha20 key nonce ≡ some s → IsByte (s i)
chacha20-IsByte key nonce s i e = elim (Bool-cases (length key == 32)) [
  | inl fits ↦
      guarded (λ (f : ℕ → ℕ). IsByte (f i)) (length nonce == 12) (λ i. i % 256) s (rw fits at e)
        (omega arith)
  | inr no_fit ↦ cc (no_fit, e)
]

random_size : (n : ℕ) (b : Bytes) → some (replicate n 7) ≡ some b → length b ≡ n
random_size n b e =
    subst (λ (x : Bytes). length x ≡ n) (some-injective _ _ e) (length-replicate n 7)

random_byte : (n : ℕ) (b : Bytes) → some (replicate n 7) ≡ some b → AreBytes b
random_byte n b e =
    subst (λ (x : Bytes). AreBytes x) (some-injective _ _ e) (replicate_bytes n 7 (omega arith))

decodes :
    (m : Metadata) (b : Bytes)
    → some (code (numbers m)) ≡ some b
    → machine.decode_metadata b ≡ some m
decodes m b e =
    subst (λ (x : Bytes). machine.decode_metadata x ≡ some m) (some-injective _ _ e)
      (ap read_numbers (decode-code_all (numbers m)) ∙ read_numbers_lem m)

pub machine-HostLaws : HostLaws machine
machine-HostLaws = record {
  length-sha1 = λ b. length-replicate 20 (length b % 256);
  sha1_bytes = λ b. replicate_bytes 20 (length b % 256) (omega arith);
  aes_key = λ key e. ((λ iv i. (length iv + i) % 256), ground arith);
  aes_bytes = λ key iv s i e. aes-IsByte key s iv i e;
  chacha20_key = λ key nonce e f. ((λ i. i % 256), ground arith);
  chacha20_bytes = λ key nonce s i e. chacha20-IsByte key nonce s i e;
  random_length = λ t n b e. random_size n b e;
  random_bytes = λ t n b e. random_byte n b e;
  encodes_metadata = λ m. (code (numbers m), refl, code_bytes (numbers m));
  decode-encode_metadata = λ m b e. decodes m b e;
  decode_empty = unfold decode_from read_numbers in refl;
}
