-- ===== src/Start/First.antt =====
-- The first node of a ring, as StartServer leaves it.
use peer_store.Prelude.{
  ℕ, ◌≡◌, refl, ap, true, some, arith, [], ◌++◌, length, Bytes, text, bytes_eq, bytes_eq_iff, ◌==◌,
}
use peer_store.Result.{ok}
use peer_store.Message.{zero_network}
use peer_store.Host.{Host}
use peer_store.Config.{Config, initialize_network}
use peer_store.Disk.{Disk}
use peer_store.Ring.{is_between}
use peer_store.Chord.{ChordNode, create, new_chord_node}
use peer_store.Store.{cas_path_transform}
use peer_store.Server.{Server}
use peer_store.Node.{World}
use peer_store.Node.Maintain.{init_chord}
use peer_store.Start.{new_file_server, enter, start_server}

abbrev pub alone_node : Host → Config → ChordNode
alone_node h c = create (new_chord_node h c.listen_addr)

abbrev pub started : Host → Bytes → Bytes → Config → Disk → Server
started h key nonce c disk =
    new_file_server c.listen_addr
      (c.listen_addr ++ (text "_" ++ (c.architecture ++ text "_network")))
      (some (cas_path_transform h)) (initialize_network c key nonce zero_network) disk

abbrev pub first_node : Host → Bytes → Bytes → Config → Disk → Server
first_node h key nonce c disk = record (started h key nonce c disk) {
  chord = some (alone_node h c);
}

pub is_chord_lem :
    (c : Config) → c.architecture ≡ text "chord" → bytes_eq c.architecture (text "chord") ≡ true
is_chord_lem c chord = (bytes_eq_iff c.architecture (text "chord")).1 chord

-- In chord mode with no address to join, StartServer succeeds with a ring of one node.
pub start_server_first :
    (h : Host) (w : World) (key nonce : Bytes) (c : Config) (disk : Disk)
    → c.architecture ≡ text "chord"
    → c.join_addr ≡ []
    → start_server h w key nonce c zero_network disk ≡ (ok tt, first_node h key nonce c disk)
unfolding start_server enter init_chord new_file_server
start_server_first h w key nonce c disk chord first =
    let joins : (length c.join_addr == 0) ≡ true = ap (λ (b : Bytes). length b == 0) first in
    rw (enter, is_chord_lem c chord, joins) refl

pub between_alone : (n id : ℕ) → is_between id n n true ≡ true
unfolding is_between
between_alone n id = ground arith
