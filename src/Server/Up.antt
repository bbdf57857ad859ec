-- ===== src/Server/Up.antt =====
-- Where every connection can be written to, it stays so, and what is sent to each peer is sent.
use peer_store.Prelude.{◌≡◌, refl, ap, true, [], ◌∷◌, Bytes, Option-cases, inl, inr}
use peer_store.Result.{Exec, Result, ok}
use peer_store.Message.{Message}
use peer_store.Host.{Host}
use peer_store.Peer.{Peer, Peers, each}
use peer_store.Peer.Int64.{sending}
use peer_store.Server.{Server, broadcast}
use peer_store.Server.Broadcast.{AreUp, send_bytes_up, broadcast_encoded}
use peer_store.Server.{send_bytes}

-- A call on each peer succeeds and leaves every connection writable.
abbrev pub Reaches : Exec Peers Unit → Peers → Type 0
Reaches m ps = (qs : Peers) × (m ps ≡ (ok tt, qs)) × AreUp qs

each_step :
    (m : Exec Peer Unit) (b a : Bytes) (p : Peer) (ps qs : Peers)
    → m p ≡ (ok tt, sending p b)
    → each m ps ≡ (ok tt, qs)
    → each m ((a, p) ∷ ps) ≡ (ok tt, (a, sending p b) ∷ qs)
unfolding each
each_step m b a p ps qs e f = rw (each, e, f) refl

pub each-Reaches :
    (m : Exec Peer Unit) (b : Bytes) (ps : Peers)
    → ((p : Peer) → p.up ≡ true → m p ≡ (ok tt, sending p b))
    → AreUp ps
    → Reaches (each m) ps
unfolding each
each-Reaches m b [] sends ups = ([], refl, tt)
each-Reaches m b ((a, p) ∷ ps) sends (up, ups) =
    let (qs, e, ups') = each-Reaches m b ps sends ups in
    ((a, sending p b) ∷ qs, each_step m b a p ps qs (sends p up) e, (up, ups'))

pub broadcast-Reaches :
    (h : Host) (msg : Message) (s : Server)
    → AreUp s.peers
    → (qs : Peers) × ((broadcast h msg s).1 ≡ record s { peers = qs }) × AreUp qs
unfolding broadcast
broadcast-Reaches h msg s ups = elim (Option-cases (h.encode_message msg)) [
  | inl e ↦ (s.peers, rw (broadcast, e) refl, ups)
  | inr (buf, e) ↦
      let (qs, f, ups') =
        each-Reaches (send_bytes buf) _ s.peers (λ p up. send_bytes_up buf p up) ups in
      (
        qs,
        ap (λ (x : Result Unit × Server). x.1) (broadcast_encoded h msg s buf (ok tt) qs e f),
        ups',
      )
]
