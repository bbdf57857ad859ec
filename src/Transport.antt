-- ===== src/Transport.antt =====
-- DefaultDecoder of p2p/encoding.go. What the other side has sent is on its way: a Read returns what
-- has arrived of it.
pub mod Connection
pub mod Turns
pub mod Accept
use peer_store.Prelude.{
  ℕ, suc, Bool, true, false, [], ◌∷◌, ◌≡◌, ◌≢◌, ◌⊎◌, ◌<◌, ◌≤◌, inl, inr, refl, ap, length,
  length-drop, take, drop, take_all, leb, leb→le, leb_false→lt, ◌==◌, if◌then◌else◌, Bytes, arith,
  Bool-cases,
}
use peer_store.Result.{Result, ok, err, read_failed}
use peer_store.Peer.{Peer, incoming_stream, incoming_message}
use peer_store.Server.{send_bytes}
use peer_store.Server.Broadcast.{send_bytes_up}

-- RPC of p2p/message.go; the loop of handleConn fills in the sender.
pub record Rpc : Type 0 where
  pub payload : Bytes
  pub stream : Bool

abbrev pub buf_size : ℕ
buf_size = 2048

-- What the second Read returns, where `more` bytes have arrived behind the first one that it waits for.
pub read_size : ℕ → ℕ
read_size more = if leb buf_size (suc more) then buf_size else suc more

-- A Read of nothing is an error.
unfoldable pub decode_payload : ℕ → Bytes → Result Rpc × Bytes
unfolding read_size
decode_payload more [] = (err read_failed, [])
decode_payload more (b ∷ bs) = (
  ok (record { payload = take (read_size more) (b ∷ bs); stream = false }),
  drop (read_size more) (b ∷ bs),
)

-- What is decoded, and what is left on the connection. The error of the first Read is dropped.
unfoldable pub decode : ℕ → Bytes → Result Rpc × Bytes
unfolding decode_payload
decode more [] = (ok (record { payload = []; stream = false }), [])
decode more (b ∷ bs) =
    if b == incoming_stream
    then (ok (record { payload = []; stream = true }), bs)
    else decode_payload more bs

decode_message :
    (more : ℕ) (buf : Bytes)
    → buf ≢ []
    → decode more (incoming_message ∷ buf) ≡ (
      ok (record { payload = take (read_size more) buf; stream = false }),
      drop (read_size more) buf,
    )
unfolding decode decode_payload
decode_message more [] ne = absurd (ne refl)
decode_message more (b ∷ bs) ne = refl

drop_all : (n : ℕ) (b : Bytes) → length b ≤ n → drop n b ≡ []
drop_all n b h = no_bytes (drop n b) (omega (arith, length-drop n b))
  where
    no_bytes : (c : Bytes) → length c ≡ 0 → c ≡ []
    no_bytes [] h = refl
    no_bytes (x ∷ c) h = absurd (omega arith)

-- On a fresh connection that can be written to, a message that is not empty is decoded, by a Read
-- that finds `more` bytes behind the first one, as follows. Where the Read gets to its end, that is
-- where it has at most 2048 bytes and all of them have arrived, it is decoded as it was sent, with
-- nothing left. Otherwise the decoder takes only as many of its bytes as the Read returned, and the
-- rest stays on the connection, to be read as the start of the next message.
pub decode-send_bytes :
    (p : Peer) (buf : Bytes) (more : ℕ)
    → p.up ≡ true
    → p.sent ≡ []
    → buf ≢ []
    → ((length buf ≤ buf_size)
        × (length buf ≤ suc more)
        × (decode more (send_bytes buf p).1.sent
            ≡ (ok (record { payload = buf; stream = false }), [])))
      ⊎ (((buf_size < length buf) ⊎ (suc more < length buf))
          × (decode more (send_bytes buf p).1.sent ≡ (
            ok (record { payload = take (read_size more) buf; stream = false }),
            drop (read_size more) buf,
          ))
          × (drop (read_size more) buf ≢ []))
unfolding read_size
decode-send_bytes p buf more up fresh ne =
    let sent : (send_bytes buf p).1.sent ≡ incoming_message ∷ buf =
      rw (send_bytes_up buf p up, fresh) refl in
    let got = read_size more in
    elim (Bool-cases (leb (length buf) got)) [
      | inl whole ↦
          let le = leb→le (length buf) got whole in
          inl (
            ground arith,
            ground arith,
            rw (sent, decode_message more buf ne, take_all got buf le, drop_all got buf le) refl,
          )
      | inr cut ↦
          let lt = leb_false→lt (length buf) got cut in
          inr (
            ground arith,
            rw (sent, decode_message more buf ne) refl,
            λ e. omega (arith, length-drop got buf, ap (length {A = ℕ}) e),
          )
    ]
