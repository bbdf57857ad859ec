-- ===== src/Examples/Grown.antt =====
-- A ring of two nodes, "bb" having joined "a", whose notification has arrived.
use peer_store.Prelude.{
  ℕ, suc, ◌≤◌, ◌≡◌, refl, some, none, [], ◌∷◌, arith, text, bytes_eq, replicate, ltb, true,
}
use peer_store.Ring.{ring_size}
use peer_store.Chord.{NodeRef, ChordNode, create, new_chord_node, hash_to_node_id}
use peer_store.Chord.Lookup.{lookup, IsKnown}
use peer_store.Chord.Stabilize.{accepts, is_alone, notify, handle_message_notify}
use peer_store.Ring.BigInt.{set_bytes, set_bytes_from, big_bytes, big_bytes_fuel}
use peer_store.Overlay.{
  Mail, Overlay, put, act, own_notify, joining, receive, alone, joined, delivered, Leads, start,
  later, Reach,
}
use peer_store.Overlay.Sound.{IsSound}
use peer_store.Overlay.Reachable.{Reach-IsSound, lookup_reached}
use peer_store.Overlay.Arc.{arc, successors_come_closer}
use peer_store.Overlay.Round.{rounds}
use peer_store.Overlay.Placed.{IsPlaced, stabilizing_places}
use peer_store.Examples.Machine.{machine, machine-HostLaws}

abbrev first : ChordNode
first = create (new_chord_node machine (text "a"))

abbrev second : ChordNode
second = joining machine (text "bb") (text "a")

abbrev greeting : Mail
greeting = own_notify second (text "a")

-- "bb" has joined, and its notification is on its way.
abbrev grown : Overlay
grown = act (text "bb") second (greeting ∷ []) (alone machine (text "a"))

abbrev greeted : Overlay
greeted =
    act (text "a") (receive first greeting).0 (receive first greeting).1
      (record grown { mail = [] })

first_here : grown.nodes (text "a") ≡ some first
unfolding put bytes_eq
first_here = refl

second_here : greeted.nodes (text "bb") ≡ some second
unfolding put bytes_eq
second_here = refl

alone_here : (alone machine (text "a")).nodes (text "a") ≡ some first
unfolding put bytes_eq
alone_here = refl

second_free : (alone machine (text "a")).nodes (text "bb") ≡ none
unfolding put bytes_eq
second_free = refl

-- The node that was alone is taken for the newcomer's predecessor, and the whole ring before it gives
-- way to an arc.
arc_shrinks : (arc first ≡ ring_size) × (ltb (arc (receive first greeting).0) ring_size ≡ true)
unfolding receive handle_message_notify notify accepts is_alone bytes_eq create new_chord_node
    set_bytes set_bytes_from big_bytes big_bytes_fuel hash_to_node_id replicate joining
arc_shrinks = (refl, refl)

Reach-grown : Reach machine (text "a") grown
Reach-grown = later start (joined (text "bb") (text "a") first second_free alone_here)

greeted_next : Leads machine grown greeted
greeted_next = later start (delivered [] [] greeting first refl first_here)

Reach-greeted : Reach machine (text "a") greeted
Reach-greeted = later Reach-grown (delivered [] [] greeting first refl first_here)

Reach-IsSound_example : IsSound machine greeted
Reach-IsSound_example = Reach-IsSound machine (text "a") greeted Reach-greeted

lookup_reached_example :
    (r : NodeRef) × (m : ChordNode) × (lookup greeted.nodes ring_size second 5 ≡ some r)
    × IsKnown greeted.nodes r m
lookup_reached_example =
    lookup_reached machine machine-HostLaws (text "a") greeted Reach-greeted (text "bb") second 5
      ring_size second_here (omega arith) (omega arith)

successors_come_closer_example :
    (m : ChordNode) × (greeted.nodes (text "a") ≡ some m) × (arc m ≤ arc first)
successors_come_closer_example =
    successors_come_closer machine machine-HostLaws (text "a") grown greeted (text "a") first
      Reach-grown greeted_next first_here

stabilizing_places_example :
    (k : ℕ) × (p : Overlay) × (k ≤ suc (arc second))
    × Leads machine greeted p
    × (p.nodes ≡ rounds (λ c. true) k (text "bb") greeted.nodes)
    × IsPlaced p.nodes (text "bb")
stabilizing_places_example =
    stabilizing_places machine machine-HostLaws (λ c. true) (text "a") greeted (text "bb") second
      Reach-greeted second_here (λ c x at. refl)
