-- ===== src/Overlay/Reachable.antt =====
-- Every ring that the first node can grow into is sound, so that FindSuccessor ends in it.
use mathlib.Core.Option.{some-injective}
use native.Mathlib.Nat.{mul-le-mul_right, mul_assoc, pow-succ'}
use peer_store.Prelude.{
  ℕ, ◌+◌, ◌*◌, ◌^◌, ◌<◌, ◌≤◌, ◌≡◌, refl, sym, subst, ◌∙◌, inl, inr, none, some, List, [], ◌∷◌, ◌++◌,
  All, All-append, All-split, Bool-cases, Bytes, arith, length, ltb,
}
use peer_store.Host.{Host, HostLaws, AreBytes}
use peer_store.Ring.{id_bits, ring_size, clockwise}
use peer_store.Ring.BigInt.{set_bytes, set_bytes_from, big_bytes, set_bytes-big_bytes}
use peer_store.Chord.{NodeRef, ChordNode, hash_to_node_id, create, new_chord_node}
use peer_store.Chord.Lookup.{Nodes, lookup, IsKnown, IsLinked}
use peer_store.Chord.Lookup.Total.{lookup_total}
use peer_store.Overlay.{
  Mail, target, Overlay, put, act, stabilizing, receive, own_notify, fixing, joining, alone, Step,
  stabilized, finger_fixed, predecessor_dropped, joined, delivered, lost, Leads, Reach, start,
  later,
}
use peer_store.Overlay.Sound.{
  IsPresent, IsNamed, IsNamedSent, IsNode, IsTrue, IsSound, put_here, IsNode-stays, put_stays,
  All-stays, act-IsSound,
}
use peer_store.Overlay.Answers.{
  receive-Goes, fixing-Goes, stabilizing-IsTrue, drop_predecessor-IsNode,
}

module _ (h : Host) where
  -- A node that stands in a sound ring changes, and messages go out.
  changed-IsSound :
      (o : Overlay) (a : Bytes) (n : ChordNode) (out : List Mail)
      → IsSound h o
      → IsNode h o.nodes a n
      → All (IsTrue h o.nodes) out
      → IsSound h (act a n out o)
  changed-IsSound o a n out sound k ts =
      act-IsSound h o a n out sound (IsNode-stays h o.nodes a n a n k)
        (All-stays h o.nodes a n out ts)

  pub fewer-IsSound :
      (o : Overlay) (before after : List Mail) (m : Mail)
      → o.mail ≡ before ++ m ∷ after
      → IsSound h o
      → IsTrue h o.nodes m × IsSound h (record o { mail = before ++ after })
  fewer-IsSound o before after m e sound =
      let (l, t, r) =
        All-split (IsTrue h o.nodes) before after m (subst (All (IsTrue h o.nodes)) e sound.mail) in
      (t, record { nodes = sound.nodes; mail = All-append (IsTrue h o.nodes) before after l r })

  joining-IsNode :
      (nodes : Nodes) (a remote : Bytes)
      → IsPresent nodes remote
      → IsNode h nodes a (joining h a remote)
  unfolding joining new_chord_node
  joining-IsNode nodes a remote there = record {
    addressed = refl;
    hashed = refl;
    next = (_, refl, (refl, there));
    previous = λ p e. cc (e);
    fingers = λ i f e. cc (e);
  }

  joining_sent :
      (nodes : Nodes) (a remote : Bytes)
      → IsPresent nodes a
      → IsNamedSent h nodes (big_bytes (joining h a remote).id) (joining h a remote).address
  unfolding joining new_chord_node
  joining_sent nodes a remote here = (set_bytes-big_bytes (hash_to_node_id h a), here)

  -- The newcomer knows the node by which it joins, and is known by its own notification.
  joined-IsSound :
      (o : Overlay) (a remote : Bytes)
      → IsPresent o.nodes remote
      → IsSound h o
      → IsSound h (act a (joining h a remote) (own_notify (joining h a remote) remote ∷ []) o)
  joined-IsSound o a remote there sound =
      let n = joining h a remote in
      let known = put_stays h o.nodes a n remote there in
      let here : IsPresent (put a n o.nodes) a = (n, put_here h o.nodes a n) in
      act-IsSound h o a n _ sound (joining-IsNode (put a n o.nodes) a remote known)
        ((known, (joining_sent (put a n o.nodes) a remote here)), tt)

  create-IsNode :
      (nodes : Nodes) (a : Bytes)
      → IsPresent nodes a
      → IsNode h nodes a (create (new_chord_node h a))
  unfolding create new_chord_node
  create-IsNode nodes a here = record {
    addressed = refl;
    hashed = refl;
    next = (_, refl, (refl, here));
    previous = λ p e. cc (e);
    fingers = λ i f e. elim (Bool-cases (ltb i id_bits)) [
      | inl low ↦ subst (IsNamed h nodes) (some-injective _ _ (rw low at e)) (refl, here)
      | inr high ↦ cc (rw high at e)
    ];
  }

  abbrev nobody : Overlay
  nobody = record { nodes = λ b. none; mail = [] }

  nobody-IsSound : IsSound h nobody
  nobody-IsSound = record { nodes = λ a n at. cc (at); mail = tt }

  alone-IsSound : (a : Bytes) → IsSound h (alone h a)
  alone-IsSound a =
      let n = create (new_chord_node h a) in
      let here : IsPresent (put a n nobody.nodes) a = (n, put_here h nobody.nodes a n) in
      act-IsSound h nobody a n [] nobody-IsSound (create-IsNode (put a n nobody.nodes) a here) tt

  pub Step-IsSound : {o p : Overlay} → Step h o p → IsSound h o → IsSound h p
  Step-IsSound {o} (stabilized a n connected at) sound =
      let k = sound.nodes a n at in
      changed-IsSound o a n (stabilizing connected n) sound k
        (stabilizing-IsTrue h o.nodes a n connected (at, k))
  Step-IsSound {o} (finger_fixed a n i at lt) sound =
      let (k, ts) = fixing-Goes h o.nodes a n i (at, sound.nodes a n at) in
      changed-IsSound o a (fixing n i).0 (fixing n i).1 sound k ts
  Step-IsSound {o} (predecessor_dropped a n at) sound =
      changed-IsSound o a _ [] sound (drop_predecessor-IsNode h o.nodes a n (sound.nodes a n at)) tt
  Step-IsSound {o} (joined a remote n new at) sound = joined-IsSound o a remote (n, at) sound
  Step-IsSound {o} (delivered before after m n e at) sound =
      let (t, fewer) = fewer-IsSound o before after m e sound in
      let (k, ts) = receive-Goes h o.nodes (target m) n m (at, sound.nodes (target m) n at) t in
      changed-IsSound (record o { mail = before ++ after }) (target m) (receive n m).0
        (receive n m).1 fewer k ts
  Step-IsSound {o} (lost before after m e) sound = (fewer-IsSound o before after m e sound).1

  pub Leads-IsSound : {o p : Overlay} → Leads h o p → IsSound h o → IsSound h p
  Leads-IsSound start sound = sound
  Leads-IsSound (later r step) sound = Step-IsSound step (Leads-IsSound r sound)

  -- In every ring that the node at `a` can grow into, by whatever steps: each node stands at its own
  -- address with the identifier that the address hashes to, it has a successor, and each of its
  -- pointers names a node that is there, with the identifier of that address. Each message on its way
  -- goes to a node that is there and names such nodes.
  pub Reach-IsSound : (a : Bytes) (o : Overlay) → Reach h a o → IsSound h o
  Reach-IsSound a o r = Leads-IsSound r (alone-IsSound a)

set_bytes_from_lt :
    (n : ℕ) (bs : Bytes) → AreBytes bs → set_bytes_from n bs < (n + 1) * 256 ^ length bs
unfolding set_bytes_from
set_bytes_from_lt n [] all = omega arith
set_bytes_from_lt n (b ∷ bs) (lt, all) =
    let rest = set_bytes_from_lt (n * 256 + b) bs all in
    let digit : n * 256 + b + 1 ≤ (n + 1) * 256 = omega arith in
    rw (pow-succ' 256 (length bs), ← mul_assoc (n + 1) 256 (256 ^ length bs))
      (omega (arith, rest, mul-le-mul_right (256 ^ length bs) digit))

-- SHA-1 gives 20 bytes.
pub hash_in_range : (h : Host) → HostLaws h → (b : Bytes) → hash_to_node_id h b < ring_size
unfolding hash_to_node_id set_bytes
hash_in_range h laws b =
    let lt = set_bytes_from_lt 0 (h.sha1 b) (laws.sha1_bytes b) in
    omega (
      arith,
      subst (λ (k : ℕ). set_bytes_from 0 (h.sha1 b) < (0 + 1) * 256 ^ k) (laws.length-sha1 b) lt,
    )

module _ (h : Host) (laws : HostLaws h) (a : Bytes) (o : Overlay) (reached : Reach h a o) where
  pub known : (r : NodeRef) → IsNamed h o.nodes r → (m : ChordNode) × IsKnown o.nodes r m
  known r (e, (m, at)) = (
    m,
    record {
      present = at;
      same_id = ((Reach-IsSound h a o reached).nodes r.address m at).hashed ∙ sym e;
    },
  )

  reached-IsLinked : IsLinked o.nodes
  reached-IsLinked =
      let sound = Reach-IsSound h a o reached in
      record {
        addressed = λ b n at. (sound.nodes b n at).addressed;
        bounded = λ b n at. rw ((sound.nodes b n at).hashed) (hash_in_range h laws b);
        has_successor = λ b n at.
            let (s, e, named) = (sound.nodes b n at).next in
            let (m, k) = known s named in (s, m, e, k);
        fingers_known = λ b n i f at lt e. known f ((sound.nodes b n at).fingers i f e);
      }

  -- On a host that keeps its laws, in every ring that the node at `a` can grow into, by whatever
  -- steps and with the messages in any order: FindSuccessor at any node, for any identifier below
  -- 2^160, ends with a node that is there, where every request is answered and more nodes may take
  -- part than the identifier is places away.
  pub lookup_reached :
      (b : Bytes) (n : ChordNode) (id fuel : ℕ)
      → o.nodes b ≡ some n
      → id < ring_size
      → clockwise n.id id < fuel
      → (r : NodeRef) × (m : ChordNode) × (lookup o.nodes fuel n id ≡ some r) × IsKnown o.nodes r m
  lookup_reached b n id fuel at hid lt = lookup_total o.nodes reached-IsLinked id hid fuel b n at lt
