-- ===== src/Result.antt =====
-- Go's `(value, error)` returns. An error is known by the call that failed; what a message quotes
-- is left out.
use peer_store.Prelude.{◌≡◌}

pub data GoError : Type 0 where
  not_exist io_failed encrypt_failed decrypt_failed encode_failed decode_failed : GoError
  no_nodes missing_part no_parts missing_metadata incomplete : GoError
  not_initialized dial_failed peer_missing send_failed read_failed too_long : GoError
  file_not_found lookup_failed timed_out bad_signal empty_file empty_address : GoError
  bad_architecture bad_encryption bad_split : GoError
  -- a panic: a nil pointer that is followed, a channel that is closed twice
  nil_pointer channel_closed : GoError
  -- no error of the program: the call has not returned within the rounds that it was given
  not_returned : GoError

pub data Result {ℓ} (A : Type ℓ) : Type ℓ where
  ok : A → Result A
  err : GoError → Result A

-- A function that changes state and may fail. The state comes back beside the error, since what
-- was done before the error stays done.
abbrev pub Exec {ℓ} : Type ℓ → Type ℓ → Type ℓ
Exec S A = S → Result A × S

abbrev pub continue {ℓ} : {S A B : Type ℓ} → Result A → (A → Exec S B) → Exec S B
continue (ok a) f s = f a s
continue (err e) f s = (err e, s)

infixl 10 ◌>>=◌ ◌>>◌
abbrev pub ◌>>=◌ {ℓ} : {S A B : Type ℓ} → Exec S A → (A → Exec S B) → Exec S B
◌>>=◌ m f s = let (r, s') = m s in continue r f s'

abbrev pub ◌>>◌ {ℓ} : {S A B : Type ℓ} → Exec S A → Exec S B → Exec S B
m >> k = m >>= λ _. k

module _ {ℓ} {S A : Type ℓ} where
  abbrev pub pure : A → Exec S A
  pure a s = (ok a, s)

  abbrev pub raise : GoError → Exec S A
  raise e s = (err e, s)

  abbrev pub gets : (S → A) → Exec S A
  gets f s = (ok (f s), s)

-- A call whose error is dropped.
abbrev pub try {ℓ} : {S A : Type ℓ} → Exec S A → Exec S Unit
try m s = (ok tt, (m s).1)

abbrev pub modify : {S : Type 0} → (S → S) → Exec S Unit
modify f s = (ok tt, f s)

module _ {ℓ} {S A B : Type ℓ} where
  -- A step that succeeds hands its result and the new state to the rest.
  pub bind_ok :
      (m : Exec S A) (f : A → Exec S B) (s s' : S) (a : A) → m s ≡ (ok a, s') → (m >>= f) s ≡ f a s'
  bind_ok m f s s' a e = rw e
