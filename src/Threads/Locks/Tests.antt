-- ===== src/Threads/Locks/Tests.antt =====
-- Runs of the locks of threads/synch.cc.
use project.Prelude.{ℕ, ◌≡◌, refl, [], ◌∷◌, some, true, false}
use project.Threads.Locks.{new_lock, acquire, release, is_held_by}
use project.Threads.Locks.Worlds.{
  outside, asleep, inside, World, enter, Reachable, start, after, entering, occurrences, is_asleep,
}
use project.Threads.Locks.Exclusion.{mutual_exclusion, no_lost_waiter}

acquire_test :
    acquire 2 (acquire 1 new_lock).1
    ≡ (false, record { busy = true; owner = some 1; wait_queue = 2 ∷ [] })
unfolding acquire is_held_by
acquire_test = refl

release_test :
    release 1 (acquire 2 (acquire 1 new_lock).1).1
    ≡ (some 2, record { busy = true; owner = some 2; wait_queue = [] })
unfolding acquire release is_held_by
release_test = refl

abbrev first_world : World
first_world = record { lock = new_lock; status = λ t. outside }

-- Thread 1 has the lock, and thread 2 waits for it.
abbrev two_threads : World
two_threads = enter 2 (enter 1 first_world)

two_threads-Reachable : Reachable two_threads
unfolding enter acquire is_held_by
two_threads-Reachable = after (after start (entering 1 refl)) (entering 2 refl)

mutual_exclusion_example : ◌≡◌ {A = ℕ} 1 1
unfolding enter acquire is_held_by
mutual_exclusion_example = mutual_exclusion 1 1 two_threads-Reachable refl refl

no_lost_waiter_example :
    (occurrences 2 two_threads.lock.wait_queue ≡ is_asleep (two_threads.status 2))
    × (two_threads.status 2 ≡ asleep → (u : ℕ) × (two_threads.status u ≡ inside))
no_lost_waiter_example = no_lost_waiter 2 two_threads-Reachable
