-- ===== src/Threads/Conditions.antt =====
-- threads/synch.cc: the condition variables of the kernel. A lock is named by its number,
-- and `none` is a null pointer.
use project.Prelude.{
  ℕ, zero, suc, ◌+◌, List, [], ◌∷◌, ◌++◌, Option, none, some, Bool, true, false, ◌||◌, ◌==◌,
  if◌then◌else◌,
}
use project.Threads.Locks
use project.Threads.Locks.{Lock}
pub mod Waking
mod Tests

pub record Condition : Type 0 where
  pub waiting_lock : Option ℕ
  pub wait_queue : List ℕ

abbrev pub new_condition : Condition
new_condition = record { waiting_lock = none; wait_queue = [] }

-- `conditionLock == waitingLock`
unfoldable pub is_waiting_lock : ℕ → Option ℕ → Bool
is_waiting_lock lock none = false
is_waiting_lock lock (some l) = lock == l

-- `waitQueue->IsEmpty()`
unfoldable pub no_waiters : List ℕ → Bool
no_waiters [] = true
no_waiters (t ∷ ts) = false

unfoldable pub is_null : Option ℕ → Bool
is_null none = true
is_null (some l) = false

-- `Wait` of thread `t` up to `Sleep`: whether it sleeps, the thread that `Release` makes ready, the lock, and
-- the condition.
unfoldable pub wait : ℕ → Option ℕ → Lock → Condition → Bool × Option ℕ × Lock × Condition
unfolding is_waiting_lock is_null
wait t none l c = (false, none, l, c)
wait t (some lock) l c =
    if is_null c.waiting_lock || is_waiting_lock lock c.waiting_lock
    then (let x = Locks.release t l in
        (
          true,
          x.0,
          x.1,
          record { waiting_lock = some lock; wait_queue = c.wait_queue ++ (t ∷ []) },
        ))
    else (false, none, l, c)

-- The end of `Signal`: `waitingLock` is reset when nobody waits any more.
unfoldable pub wake_one : List ℕ → Condition → Option ℕ × Condition
unfolding no_waiters
wake_one [] c = (none, c)
wake_one (t ∷ ts) c = (
  some t,
  record { waiting_lock = if no_waiters ts then none else c.waiting_lock; wait_queue = ts },
)

-- The thread that is made ready, if any, and the condition.
unfoldable pub signal : Option ℕ → Condition → Option ℕ × Condition
unfolding wake_one is_waiting_lock
signal none c = (none, c)
signal (some lock) c =
    if no_waiters c.wait_queue
    then (none, c)
    else if is_waiting_lock lock c.waiting_lock
    then wake_one c.wait_queue c
    else (none, c)

-- The thread that a round has made ready, before those of the later rounds.
unfoldable pub add_woken :
    Option ℕ → Option (List (Option ℕ) × Condition) → Option (List (Option ℕ) × Condition)
add_woken t none = none
add_woken t (some (woken, c)) = some (t ∷ woken, c)

-- `while(!waitQueue->IsEmpty()) Signal(conditionLock)`, with fuel: the threads that are made ready, and `none` if the fuel ran
-- out. Interrupts are enabled in the loop: `others i` is what other threads do to the condition, first before the
-- test of a round and then before its Signal, with `i` counted from the first.
unfoldable pub signal_all :
    (ℕ → Condition → Condition)
    → ℕ
    → ℕ
    → Option ℕ
    → Condition
    → Option (List (Option ℕ) × Condition)
unfolding signal no_waiters add_woken
signal_all others i zero lock c = none
signal_all others i (suc fuel) lock c =
    let tested = others i c in
    let x = signal lock (others (i + 1) tested) in
    let later = signal_all others (i + 2) fuel lock x.1 in
    if no_waiters tested.wait_queue then some ([], tested) else add_woken x.0 later

unfoldable pub broadcast :
    (ℕ → Condition → Condition) → ℕ → Option ℕ → Condition → Option (List (Option ℕ) × Condition)
unfolding signal_all is_waiting_lock
broadcast others fuel none c = some ([], c)
broadcast others fuel (some lock) c =
    if is_waiting_lock lock c.waiting_lock
    then signal_all others 0 fuel (some lock) c
    else some ([], c)
