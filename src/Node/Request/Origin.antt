-- ===== src/Node/Request/Origin.antt =====
-- The requester that the handler of an answer reads in a request ID.
use peer_store.Prelude.{
  ℕ, ◌≡◌, ◌≢◌, true, refl, ap, arith, [], ◌∷◌, ◌++◌, ◌==◌, All, Bytes, bytes_eq_refl, ==→eq,
  Bool-cases, inl, inr,
}
use peer_store.Result.{ok}
use peer_store.Host.{Host}
use peer_store.Server.{Server}
use peer_store.Node.{Response}
use peer_store.Node.Request.{request_id, first_part, has_parts, dash}
use peer_store.Node.Answer.{forward_response}

abbrev pub HasNoDash : Bytes → Type 0
HasNoDash = All (λ (c : ℕ). c ≢ dash)

first_part-dash : (a rest : Bytes) → HasNoDash a → first_part (a ++ dash ∷ rest) ≡ a
unfolding first_part
first_part-dash [] rest h = refl
first_part-dash (c ∷ a) rest h = elim (Bool-cases (c == dash)) [
  | inl e ↦ absurd (h.0 (==→eq c dash e))
  | inr e ↦ rw e (ap (λ (l : Bytes). c ∷ l) (first_part-dash a rest h.1))
]

has_parts-dash : (a rest : Bytes) → has_parts (a ++ dash ∷ rest) ≡ true
unfolding has_parts
has_parts-dash [] rest = refl
has_parts-dash (c ∷ a) rest = ground (arith, has_parts-dash a rest)

-- A request ID has the address of its requester for its first part, where that has no dash.
pub first_part-request_id :
    (a addr : Bytes) (time : ℕ)
    → HasNoDash a
    → (has_parts (request_id a addr time) ≡ true) × (first_part (request_id a addr time) ≡ a)
unfolding request_id
first_part-request_id a addr time h = (has_parts-dash a _, first_part-dash a _ h)

-- A node whose address has no dash does not pass on the answer to its own request.
pub own_answer_kept :
    (h : Host) (s : Server) (m : Response) (addr : Bytes) (time : ℕ)
    → HasNoDash s.addr
    → m.request_id ≡ request_id s.addr addr time
    → forward_response h m s ≡ (ok tt, s)
unfolding forward_response
own_answer_kept h s m addr time plain own =
    let (several, first) = first_part-request_id s.addr addr time plain in
    rw (own, several, first, bytes_eq_refl s.addr) refl
