-- ===== src/Threads/Semaphores.antt =====
-- threads/synch.cc: the semaphores of the kernel. A thread is a number, and what it does between two
-- calls of `Sleep` is one step.
use project.Prelude.{
  ℕ, ◌+◌, ◌-◌, List, [], ◌∷◌, ◌++◌, Option, none, some, Bool, true, false, ◌==◌, if◌then◌else◌,
}
pub mod Worlds
pub mod Supply
mod Tests

pub record Semaphore : Type 0 where
  pub value : ℕ
  pub queue : List ℕ

-- The constructor.
abbrev pub new_semaphore : ℕ → Semaphore
new_semaphore initial_value = record { value = initial_value; queue = [] }

-- One round of the loop of `P()` of thread `t`: whether it goes on and returns, or sleeps and comes back to the
-- test when it is woken.
unfoldable pub p : ℕ → Semaphore → Bool × Semaphore
p t s =
    if s.value == 0
    then (false, record s { queue = s.queue ++ (t ∷ []) })
    else (true, record s { value = s.value - 1 })

-- `queue->Remove()` of `V()`: the thread that it makes ready to run, if any.
unfoldable pub wake_first : List ℕ → Option ℕ × List ℕ
wake_first [] = (none, [])
wake_first (t ∷ ts) = (some t, ts)

unfoldable pub v : Semaphore → Option ℕ × Semaphore
unfolding wake_first
v s = let x = wake_first s.queue in (x.0, record s { queue = x.1; value = s.value + 1 })
