-- ===== src/Threads/Conditions/Tests.antt =====
-- Runs of the condition variables of threads/synch.cc.
use project.Prelude.{◌≡◌, refl, [], ◌∷◌, map, none, some, false, arith}
use project.Threads.Locks
use project.Threads.Conditions.{
  new_condition, is_waiting_lock, is_null, no_waiters, wait, signal, wake_one, broadcast,
}
use project.Threads.Conditions.Waking.{one_wait, broadcast_wakes, broadcast_spins}

-- Thread 1 waits with lock 7, and thread 2, which comes with another lock, does not.
wait_test :
    ((wait 1 (some 7) Locks.new_lock new_condition).3
      ≡ record { waiting_lock = some 7; wait_queue = 1 ∷ [] })
    × ((wait 2 (some 8) Locks.new_lock (record { waiting_lock = some 7; wait_queue = 1 ∷ [] })).0
        ≡ false)
    × ((signal (some 7) (record { waiting_lock = some 7; wait_queue = 1 ∷ [] })).1 ≡ new_condition)
unfolding wait signal is_waiting_lock is_null no_waiters wake_one
wait_test = (refl, refl, refl)

broadcast_wakes_example :
    broadcast (λ i c. c) 5 (some 7) (record { waiting_lock = some 7; wait_queue = 4 ∷ 2 ∷ 9 ∷ [] })
    ≡ some (map some (4 ∷ 2 ∷ 9 ∷ []), record { waiting_lock = none; wait_queue = [] })
broadcast_wakes_example = broadcast_wakes (λ i c. c) (λ i c. refl) 5 7 4 (2 ∷ 9 ∷ []) (omega arith)

broadcast_spins_example :
    broadcast
      (one_wait 3 8 Locks.new_lock 2)
      100
      (some 7)
      (record { waiting_lock = some 7; wait_queue = 4 ∷ [] })
    ≡ none
broadcast_spins_example = broadcast_spins 100 7 8 4 3 Locks.new_lock refl
