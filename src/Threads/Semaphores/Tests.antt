-- ===== src/Threads/Semaphores/Tests.antt =====
-- Runs of the semaphores of threads/synch.cc.
use project.Prelude.{ℕ, ◌+◌, ◌≤◌, ◌≡◌, List, [], ◌∷◌, arith}
use project.Threads.Semaphores.{p, v, new_semaphore}
use project.Threads.Semaphores.Worlds.{
  World, attempt, give, Step, calling, giving, Reachable, start, after,
}
use project.Threads.Semaphores.Supply.{supply, no_lost_wakeup}

-- Threads 1 and 2 sleep, and a `V` wakes the first.
one_woken : World
one_woken = give (
    attempt 2 []
      (attempt 1 [] (record { semaphore = new_semaphore 0; ready = []; taken = 0; given = 0 })))

one_woken-Reachable : Reachable 0 one_woken
unfolding one_woken attempt p
one_woken-Reachable = after (after (after start (calling 1)) (calling 2)) giving

supply_example :
    (one_woken.semaphore.value + one_woken.taken ≡ 0 + one_woken.given)
    × (one_woken.taken ≤ 0 + one_woken.given)
supply_example = supply 0 one_woken-Reachable

no_lost_wakeup_example :
    (t : ℕ) × (others : List ℕ) × (u : World) × Step one_woken u
    × (one_woken.ready ≡ t ∷ others)
    × (u.ready ≡ others)
    × (u.taken ≡ one_woken.taken + 1)
unfolding one_woken attempt give p v
no_lost_wakeup_example = no_lost_wakeup 0 one_woken-Reachable (omega arith) (omega arith)
