-- ===== src/Server/Keeps.antt =====
-- Calls that leave the identity of a node alone: its address, its store, and its place on a ring.
use peer_store.Prelude.{ℕ, ◌≡◌, ◌∙◌, refl, none, some, Option, Bytes, Option-cases, inl, inr}
use peer_store.Result.{Exec, Result, ok, err, ◌>>=◌, continue}
use peer_store.Message.{Message}
use peer_store.Host.{Host}
use peer_store.Disk.{Disk}
use peer_store.Store.{Store}
use peer_store.Chord.{ChordNode}
use peer_store.Peer.{Peer, find_peer}
use peer_store.Server.{Server, on_disk, at_peer, broadcast, dial}

abbrev pub id_of : Option ChordNode → Option (ℕ × Bytes)
id_of none = none
id_of (some n) = some (n.id, n.address)

unfoldable pub identity : Server → Bytes × Store × Option (ℕ × Bytes)
identity s = (s.addr, s.store, id_of s.chord)

abbrev pub Keeps : {A : Type 0} → Exec Server A → Type 0
Keeps m = (s : Server) → identity (m s).1 ≡ identity s

continue-Keeps :
    {A B : Type 0} (r : Result A) (f : A → Exec Server B) (s : Server)
    → ((a : A) → Keeps (f a))
    → identity (continue r f s).1 ≡ identity s
continue-Keeps (ok a) f s k = k a s
continue-Keeps (err e) f s k = refl

pub bind-Keeps :
    {A B : Type 0} (m : Exec Server A) (f : A → Exec Server B)
    → Keeps m
    → ((a : A) → Keeps (f a))
    → Keeps (m >>= f)
bind-Keeps m f km kf s = continue-Keeps (m s).0 f (m s).1 kf ∙ km s

pub on_disk-Keeps : {A : Type 0} (m : Exec Disk A) → Keeps (on_disk m)
unfolding identity
on_disk-Keeps m s = refl

pub at_peer-Keeps : {A : Type 0} (a : Bytes) (m : Exec Peer A) → Keeps (at_peer a m)
unfolding at_peer identity
at_peer-Keeps a m s = elim (Option-cases (find_peer a s.peers)) [
  | inl e ↦ rw (at_peer, e) refl
  | inr (p, e) ↦ rw (at_peer, e) refl
]

pub broadcast-Keeps : (h : Host) (msg : Message) → Keeps (broadcast h msg)
unfolding broadcast identity
broadcast-Keeps h msg s = elim (Option-cases (h.encode_message msg)) [
  | inl e ↦ rw (broadcast, e) refl
  | inr (buf, e) ↦ rw (broadcast, e) refl
]

pub dial-Keeps : (net : Bytes → Option (Bytes × Peer)) (a : Bytes) → Keeps (dial net a)
unfolding dial identity
dial-Keeps net a s = elim (Option-cases (net a)) [
  | inl e ↦ rw (dial, e) refl
  | inr (p, e) ↦ rw (dial, e) refl
]

-- A step that keeps the identity, and then the rest.
module _ {A B : Type 0} where
  pub disk_first :
      (m : Exec Disk A) (f : A → Exec Server B) → ((a : A) → Keeps (f a)) → Keeps (on_disk m >>= f)
  disk_first m f k = bind-Keeps (on_disk m) f (on_disk-Keeps m) k

  pub peer_first :
      (a : Bytes) (m : Exec Peer A) (f : A → Exec Server B)
      → ((x : A) → Keeps (f x))
      → Keeps (at_peer a m >>= f)
  peer_first a m f k = bind-Keeps (at_peer a m) f (at_peer-Keeps a m) k
