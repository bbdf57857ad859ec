-- ===== src/Examples/Locked.antt =====
-- A search that waits while the loop is in the Lock.
use peer_store.Prelude.{ℕ, ◌≡◌, refl, List, [], ◌∷◌, ◌++◌}
use peer_store.Node.Remote.Locked.{
  Inbound, notification, answer, Both, waiting, locking, arrives, times_out, start, later,
  notify_deadlocks,
}

-- The answer stays in the queue, a message has come behind it, and the search has asked once more.
abbrev stuck : Both
stuck = record { queue = answer 1 ∷ notification ∷ []; search = waiting 2; loop = locking }

notify_deadlocks_example :
    (stuck.loop ≡ locking)
    × ((j : ℕ) × (stuck.search ≡ waiting j))
    × ((more : List Inbound) × (stuck.queue ≡ (answer 1 ∷ []) ++ more))
notify_deadlocks_example =
    notify_deadlocks 1 (answer 1 ∷ []) stuck
      (later (later start (arrives notification)) (times_out 1 refl))
