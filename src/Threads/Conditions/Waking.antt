-- ===== src/Threads/Conditions/Waking.antt =====
-- threads/synch.cc: the loop of Broadcast.
use project.Prelude.{
  ℕ, zero, suc, ◌+◌, ◌<◌, ◌≡◌, refl, ◌∙◌, List, [], ◌∷◌, map, Option, none, some, true, false, ◌==◌,
  if◌then◌else◌, length, arith,
}
use project.Threads.Locks.{Lock}
use project.Threads.Conditions.{
  Condition, add_woken, wait, is_null, is_waiting_lock, no_waiters, wake_one, signal, signal_all,
  broadcast,
}

same_lock : (lock : ℕ) → is_waiting_lock lock (some lock) ≡ true
unfolding is_waiting_lock
same_lock lock = ground arith

signal_first :
    (lock t : ℕ) (ts : List ℕ)
    → signal (some lock) (record { waiting_lock = some lock; wait_queue = t ∷ ts }) ≡ (
      some t,
      record { waiting_lock = if no_waiters ts then none else some lock; wait_queue = ts },
    )
unfolding signal no_waiters wake_one
signal_first lock t ts = rw (same_lock lock) refl

-- A round of the loop that nobody disturbs.
undisturbed :
    (others : ℕ → Condition → Condition) (i fuel lock t : ℕ) (ts : List ℕ)
    → (let c : Condition = record { waiting_lock = some lock; wait_queue = t ∷ ts } in
        others i c ≡ c
        → others (i + 1) c ≡ c
        → signal_all others i (suc fuel) (some lock) c
          ≡ add_woken (some t) (
              signal_all others (i + 2) fuel (some lock) (record {
                waiting_lock = if no_waiters ts then none else some lock;
                wait_queue = ts;
              })))
unfolding signal_all no_waiters
undisturbed others i fuel lock t ts e f = rw (e, f, signal_first lock t ts) refl

module _ (others : ℕ → Condition → Condition)
    (idle : (i : ℕ) (c : Condition) → others i c ≡ c) where
  none_left :
      (i fuel lock : ℕ) (l : Option ℕ)
      → signal_all others i (suc fuel) (some lock) (record { waiting_lock = l; wait_queue = [] })
        ≡ some ([], record { waiting_lock = l; wait_queue = [] })
  unfolding signal_all no_waiters
  none_left i fuel lock l = rw (idle i (record { waiting_lock = l; wait_queue = [] })) refl

  signal_all_lem :
      (fuel i lock t : ℕ) (ts : List ℕ)
      → suc (length ts) < fuel
      → signal_all others i fuel
          (some lock)
          (record { waiting_lock = some lock; wait_queue = t ∷ ts })
        ≡ some (map some (t ∷ ts), record { waiting_lock = none; wait_queue = [] })
  unfolding no_waiters add_woken
  signal_all_lem zero i lock t ts h = absurd (omega arith)
  signal_all_lem (suc zero) i lock t ts h = absurd (omega arith)
  signal_all_lem (suc (suc fuel)) i lock t [] h =
      undisturbed others i (suc fuel) lock t [] (idle i _) (idle (i + 1) _)
      ∙ rw (none_left (i + 2) fuel lock none) refl
  signal_all_lem (suc (suc fuel)) i lock t (u ∷ us) h =
      undisturbed others i (suc fuel) lock t (u ∷ us) (idle i _) (idle (i + 1) _)
      ∙ rw (signal_all_lem (suc fuel) (i + 2) lock u us (omega arith)) refl

  -- `Broadcast` with the lock that its waiters have given, of a condition with waiters, ends if no other thread changes the condition during
  -- the loop, with fuel for one round more than there are waiters: every waiter is made ready, in the order in which they came, nobody
  -- waits any more, and the condition forgets the lock.
  pub broadcast_wakes :
      (fuel lock t : ℕ) (ts : List ℕ)
      → suc (length ts) < fuel
      → broadcast others fuel (some lock) (record { waiting_lock = some lock; wait_queue = t ∷ ts })
        ≡ some (map some (t ∷ ts), record { waiting_lock = none; wait_queue = [] })
  unfolding broadcast
  broadcast_wakes fuel lock t ts h = rw (same_lock lock) (signal_all_lem fuel 0 lock t ts h)

-- `Wait` of thread `u` with lock `m` before time `at`, and nothing else.
abbrev pub one_wait : ℕ → ℕ → Lock → ℕ → ℕ → Condition → Condition
one_wait u m l at i c = if i == at then (wait u (some m) l c).3 else c

module _ (u m lock : ℕ) (l : Lock) (at : ℕ) (different : (lock == m) ≡ false) where
  -- Once the intruder waits, no Signal of the loop gets it out.
  spins :
      (fuel i : ℕ)
      → at < i
      → signal_all
          (one_wait u m l at)
          i
          fuel
          (some lock)
          (record { waiting_lock = some m; wait_queue = u ∷ [] })
        ≡ none
  unfolding signal_all no_waiters signal is_waiting_lock add_woken
  spins zero i h = refl
  spins (suc fuel) i h =
      let a : (i == at) ≡ false = ground arith in
      let b : ((i + 1) == at) ≡ false = ground arith in
      rw (a, b, different, spins fuel (i + 2) (omega arith)) refl

no_fuel :
    (others : ℕ → Condition → Condition) (i : ℕ) (lock : Option ℕ) (c : Condition)
    → signal_all others i zero lock c ≡ none
unfolding signal_all
no_fuel others i lock c = refl

intruded :
    (fuel lock m u : ℕ) (l : Lock)
    → (lock == m) ≡ false
    → signal_all
        (one_wait u m l 2)
        2
        fuel
        (some lock)
        (record { waiting_lock = none; wait_queue = [] })
      ≡ none
unfolding signal_all no_waiters signal is_waiting_lock wait is_null add_woken
intruded zero lock m u l d = refl
intruded (suc fuel) lock m u l d = rw (d, spins u m lock l 2 d fuel 4 (omega arith)) refl

-- If a thread calls Wait with another lock after the Signal of `Broadcast` that wakes the only waiter and before the next test of the loop, and the condition is
-- changed by nobody else, `Broadcast` does not end, however many rounds it makes.
pub broadcast_spins :
    (fuel lock m t u : ℕ) (l : Lock)
    → (lock == m) ≡ false
    → broadcast
        (one_wait u m l 2)
        fuel
        (some lock)
        (record { waiting_lock = some lock; wait_queue = t ∷ [] })
      ≡ none
unfolding broadcast no_waiters add_woken
broadcast_spins fuel lock m t u l d = rw (same_lock lock) (by_fuel fuel)
  where
    by_fuel :
        (n : ℕ)
        → signal_all
            (one_wait u m l 2)
            0
            n
            (some lock)
            (record { waiting_lock = some lock; wait_queue = t ∷ [] })
          ≡ none
    by_fuel zero =
        no_fuel (one_wait u m l 2) 0 (some lock)
          (record { waiting_lock = some lock; wait_queue = t ∷ [] })
    by_fuel (suc n) =
        undisturbed (one_wait u m l 2) 0 n lock t [] refl refl ∙ rw (intruded n lock m u l d) refl
