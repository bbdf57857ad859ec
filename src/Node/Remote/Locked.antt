-- ===== src/Node/Remote/Locked.antt =====
-- The lock of a Chord node: FindSuccessor of chord.go holds it for reading until findSuccessorRemote
-- of chord_util.go has returned, and notify of chord_util.go, which the loop of mesh_util.go calls,
-- takes it for writing. Here one search waits and the loop goes on; each step is one of theirs. The
-- connection to the node that has been asked stays up.
use peer_store.Prelude.{
  ℕ, suc, ◌≡◌, ◌≢◌, refl, ap, sym, ◌∙◌, Bool, true, List, [], ◌∷◌, ◌++◌, append_assoc, append-nil,
  if◌then◌else◌,
}

-- A message that the loop has not taken yet: a Notify, or the answer to the request of that number.
pub data Inbound : Type 0 where
  notification : Inbound
  answer : ℕ → Inbound

-- `waiting` has the number of the request; `answered` is after its channel has been written to, and
-- `returned` after FindSuccessor has let go of the lock.
pub data Search : Type 0 where
  waiting : ℕ → Search
  answered returned : Search

-- `locking` is in the Lock of notify.
pub data Loop : Type 0 where
  free locking : Loop

pub record Both : Type 0 where
  pub queue : List Inbound
  pub search : Search
  pub loop : Loop

-- What a timeout leads to: on a direct connection findSuccessorRemote calls itself with a new request.
abbrev pub timed_out : Bool → ℕ → Search
timed_out direct k = if direct then waiting (suc k) else returned

pub data Step (direct : Bool) (b : Both) : Both → Type 0 where
  arrives : (m : Inbound) → Step direct b (record b { queue = b.queue ++ m ∷ [] })
  takes_notify :
      (rest : List Inbound)
      → b.loop ≡ free
      → b.queue ≡ notification ∷ rest
      → Step direct b (record b { queue = rest; loop = locking })
  -- an answer to the request that waits
  takes_answer :
      (k : ℕ) (rest : List Inbound)
      → b.loop ≡ free
      → b.queue ≡ answer k ∷ rest
      → b.search ≡ waiting k
      → Step direct b (record b { queue = rest; search = answered })
  -- an answer for which nobody waits
  drops_answer :
      (k : ℕ) (rest : List Inbound)
      → b.loop ≡ free
      → b.queue ≡ answer k ∷ rest
      → b.search ≢ waiting k
      → Step direct b (record b { queue = rest })
  -- the Lock comes through when no reader is left
  locks : b.loop ≡ locking → b.search ≡ returned → Step direct b (record b { loop = free })
  returns : b.search ≡ answered → Step direct b (record b { search = returned })
  times_out :
      (k : ℕ) → b.search ≡ waiting k → Step direct b (record b { search = timed_out direct k })

pub data Steps (direct : Bool) (b : Both) : Both → Type 0 where
  start : Steps direct b b
  later : {c d : Both} → Steps direct b c → Step direct c d → Steps direct b d

-- The loop is in the Lock, and the search waits.
pub record IsDeadlocked (queue : List Inbound) (b : Both) : Type 0 where
  pub locked : b.loop ≡ locking
  pub request : ℕ
  pub unanswered : b.search ≡ waiting request
  pub more : List Inbound
  pub untaken : b.queue ≡ queue ++ more

module _ (queue : List Inbound) where
  Step-IsDeadlocked : {b c : Both} → Step true b c → IsDeadlocked queue b → IsDeadlocked queue c
  Step-IsDeadlocked (arrives m) dead = record {
    locked = dead.locked;
    request = dead.request;
    unanswered = dead.unanswered;
    more = dead.more ++ m ∷ [];
    untaken = ap (λ q. q ++ m ∷ []) dead.untaken ∙ append_assoc queue dead.more (m ∷ []);
  }
  Step-IsDeadlocked (takes_notify rest f q) dead = cc (f, dead.locked)
  Step-IsDeadlocked (takes_answer k rest f q w) dead = cc (f, dead.locked)
  Step-IsDeadlocked (drops_answer k rest f q w) dead = cc (f, dead.locked)
  Step-IsDeadlocked (locks l r) dead = cc (r, dead.unanswered)
  Step-IsDeadlocked (returns a) dead = cc (a, dead.unanswered)
  Step-IsDeadlocked (times_out k w) dead = record {
    locked = dead.locked;
    request = suc k;
    unanswered = refl;
    more = dead.more;
    untaken = dead.untaken;
  }

  Steps-IsDeadlocked : {b c : Both} → Steps true b c → IsDeadlocked queue b → IsDeadlocked queue c
  Steps-IsDeadlocked start dead = dead
  Steps-IsDeadlocked (later r step) dead = Step-IsDeadlocked step (Steps-IsDeadlocked r dead)

-- A search on a direct connection waits for its answer and the loop takes a Notify: from there on,
-- whatever comes and however often the search asks again, the loop stays in the Lock and takes no
-- message any more, and the search stays without an answer.
pub notify_deadlocks :
    (k : ℕ) (queue : List Inbound) (c : Both)
    → Steps true (record { queue = queue; search = waiting k; loop = locking }) c
    → (c.loop ≡ locking)
      × ((j : ℕ) × (c.search ≡ waiting j))
      × ((more : List Inbound) × (c.queue ≡ queue ++ more))
notify_deadlocks k queue c reached =
    let dead = Steps-IsDeadlocked queue reached (record {
      locked = refl;
      request = k;
      unanswered = refl;
      more = [];
      untaken = sym (append-nil queue);
    }) in
    (dead.locked, (dead.request, dead.unanswered), (dead.more, dead.untaken))

-- A search waits with the loop free. Where its answer is first in the queue, steps lead to where it
-- has returned; where a Notify is first, the next step of the loop leads into the Lock.
pub queue_decides :
    (direct : Bool) (k : ℕ) (rest : List Inbound)
    → Steps direct
        (record { queue = answer k ∷ rest; search = waiting k; loop = free })
        (record { queue = rest; search = returned; loop = free })
      × Steps direct
          (record { queue = notification ∷ rest; search = waiting k; loop = free })
          (record { queue = rest; search = waiting k; loop = locking })
queue_decides direct k rest = (
  later (later start (takes_answer k rest refl refl refl)) (returns refl),
  later start (takes_notify rest refl refl),
)
