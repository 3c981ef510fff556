-- ===== src/Threads/Locks.antt =====
-- threads/synch.cc: the locks of the kernel, with the ready list of threads/scheduler.cc. A thread is a
-- number, and what it does with interrupts off is one step.
use project.Prelude.{
  ℕ, List, [], ◌∷◌, ◌++◌, Option, none, some, Bool, true, false, ◌==◌, if◌then◌else◌,
}
pub mod Worlds
mod Invariant
pub mod Exclusion
mod Tests

-- `busy` is `state == BUSY`.
pub record Lock : Type 0 where
  pub busy : Bool
  pub owner : Option ℕ
  pub wait_queue : List ℕ

abbrev pub new_lock : Lock
new_lock = record { busy = false; owner = none; wait_queue = [] }

-- `owner == currentThread`
unfoldable pub is_held_by : ℕ → Option ℕ → Bool
is_held_by t none = false
is_held_by t (some u) = u == t

-- `Acquire()` of thread `t`: whether it goes on at once, or sleeps.
unfoldable pub acquire : ℕ → Lock → Bool × Lock
acquire t l =
    if is_held_by t l.owner
    then (true, l)
    else if l.busy
    then (false, record l { wait_queue = l.wait_queue ++ (t ∷ []) })
    else (true, record l { busy = true; owner = some t })

-- The owner's part of `Release()`.
unfoldable pub pass_on : List ℕ → Lock → Option ℕ × Lock
pass_on [] l = (none, record l { busy = false; owner = none })
pass_on (u ∷ us) l = (some u, record l { wait_queue = us; owner = some u })

-- `Release()` of thread `t`: the thread that it makes ready to run, if any.
unfoldable pub release : ℕ → Lock → Option ℕ × Lock
unfolding pass_on
release t l = if is_held_by t l.owner then pass_on l.wait_queue l else (none, l)
