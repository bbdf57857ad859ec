-- ===== src/Server/Broadcast.antt =====
-- Whom a broadcast reaches.
use peer_store.Prelude.{
  ◌≡◌, ◌⊎◌, inl, inr, true, false, some, refl, ap, [], ◌∷◌, ◌++◌, append_assoc, All, Bytes,
  Bool-cases,
}
use peer_store.Result.{Result, ok, err, send_failed}
use peer_store.Message.{Message}
use peer_store.Host.{Host}
use peer_store.Peer.{Peer, Peers, incoming_message, send, each}
use peer_store.Peer.Int64.{sending, send_lem}
use peer_store.Server.{Server, send_bytes, send_message, broadcast}

abbrev pub AreUp : Peers → Type 0
AreUp = All (λ (ap : Bytes × Peer). ap.1.up ≡ true)

-- The peers once each has got the message.
abbrev pub told : Bytes → Peers → Peers
told buf [] = []
told buf ((a, p) ∷ ps) = (a, sending p (incoming_message ∷ buf)) ∷ told buf ps

-- Where the peers end at one that cannot be written to.
pub record Cut (ps : Peers) : Type 0 where
  pub reached : Peers
  pub rest : Peers
  pub at : Bytes
  pub peer : Peer
  pub whole : ps ≡ reached ++ (at, peer) ∷ rest
  pub reached_up : AreUp reached
  pub down : peer.up ≡ false

module _ (buf : Bytes) where
  pub send_bytes_up :
      (p : Peer) → p.up ≡ true → send_bytes buf p ≡ (ok tt, sending p (incoming_message ∷ buf))
  unfolding send_bytes
  send_bytes_up p up =
      rw
        (send_lem p up (incoming_message ∷ []), send_lem (sending p (incoming_message ∷ [])) up buf)
        (simp append_assoc)

  send_bytes_down : (p : Peer) → p.up ≡ false → send_bytes buf p ≡ (err send_failed, p)
  unfolding send_bytes send
  send_bytes_down p down = rw down refl

  each_goes_on :
      (a : Bytes) (p : Peer) (ps ps' : Peers) (r : Result {0} Unit)
      → p.up ≡ true
      → each (send_bytes buf) ps ≡ (r, ps')
      → each (send_bytes buf) ((a, p) ∷ ps) ≡ (r, (a, sending p (incoming_message ∷ buf)) ∷ ps')
  unfolding each
  each_goes_on a p ps ps' r up e = rw (each, send_bytes_up p up, e) refl

  each_stops :
      (a : Bytes) (p : Peer) (ps : Peers)
      → p.up ≡ false
      → each (send_bytes buf) ((a, p) ∷ ps) ≡ (err send_failed, (a, p) ∷ ps)
  unfolding each
  each_stops a p ps down = rw (each, send_bytes_down p down) refl

  each_tells :
      (ps : Peers)
      → (AreUp ps × (each (send_bytes buf) ps ≡ (ok tt, told buf ps)))
        ⊎ ((c : Cut ps) × (each (send_bytes buf) ps
              ≡ (err send_failed, told buf c.reached ++ (c.at, c.peer) ∷ c.rest)))
  unfolding each
  each_tells [] = inl (tt, refl)
  each_tells ((a, p) ∷ ps) = elim (Bool-cases p.up) [
    | inr down ↦ inr (
      record {
        reached = [];
        rest = ps;
        at = a;
        peer = p;
        whole = refl;
        reached_up = tt;
        down = down;
      },
      each_stops a p ps down,
    )
    | inl up ↦ elim (each_tells ps) [
      | inl (ups, e) ↦ inl ((up, ups), each_goes_on a p ps (told buf ps) (ok tt) up e)
      | inr (c, e) ↦ inr (
        record {
          reached = (a, p) ∷ c.reached;
          rest = c.rest;
          at = c.at;
          peer = c.peer;
          whole = ap (λ (l : Peers). (a, p) ∷ l) c.whole;
          reached_up = (up, c.reached_up);
          down = c.down;
        },
        each_goes_on a p ps (told buf c.reached ++ (c.at, c.peer) ∷ c.rest) (err send_failed) up e,
      )
    ]
  ]

pub each-told :
    (buf : Bytes) (ps : Peers) → AreUp ps → each (send_bytes buf) ps ≡ (ok tt, told buf ps)
unfolding each
each-told buf [] ups = refl
each-told buf ((a, p) ∷ ps) (up, ups) =
    each_goes_on buf a p ps (told buf ps) (ok tt) up (each-told buf ps ups)

pub send_message_lem :
    (h : Host) (msg : Message) (buf : Bytes) (p : Peer)
    → h.encode_message msg ≡ some buf
    → p.up ≡ true
    → send_message h msg p ≡ (ok tt, sending p (incoming_message ∷ buf))
unfolding send_message
send_message_lem h msg buf p enc up = rw (send_message, enc, send_bytes_up buf p up) refl

pub broadcast_encoded :
    (h : Host) (msg : Message) (s : Server) (buf : Bytes) (r : Result {0} Unit) (ps : Peers)
    → h.encode_message msg ≡ some buf
    → each (send_bytes buf) s.peers ≡ (r, ps)
    → broadcast h msg s ≡ (r, record s { peers = ps })
unfolding broadcast
broadcast_encoded h msg s buf r ps enc e = rw (broadcast, enc, e) refl

-- For a message that encodes, broadcast either reaches every peer and succeeds, and then every
-- connection can be written to; or it reaches exactly the peers before the first one that cannot be
-- written to, and fails. A peer that is reached gets the byte of a message and the encoded message,
-- and nothing else changes.
pub broadcast_exact :
    (h : Host) (msg : Message) (s : Server) (buf : Bytes)
    → h.encode_message msg ≡ some buf
    → (AreUp s.peers × (broadcast h msg s ≡ (ok tt, record s { peers = told buf s.peers })))
      ⊎ ((c : Cut s.peers) × (broadcast h msg s ≡ (
        err send_failed,
        record s { peers = told buf c.reached ++ (c.at, c.peer) ∷ c.rest },
      )))
broadcast_exact h msg s buf enc = elim (each_tells buf s.peers) [
  | inl (ups, e) ↦ inl (ups, broadcast_encoded h msg s buf (ok tt) (told buf s.peers) enc e)
  | inr (c, e) ↦ inr (
    c,
    broadcast_encoded h msg s buf (err send_failed) (told buf c.reached ++ (c.at, c.peer) ∷ c.rest)
        enc e,
  )
]
