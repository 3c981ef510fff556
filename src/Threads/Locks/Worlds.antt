-- ===== src/Threads/Locks/Worlds.antt =====
-- threads/synch.cc: the steps of threads that use a lock.
use project.Prelude.{
  ℕ, ◌+◌, ◌≡◌, List, [], ◌∷◌, Option, none, some, Bool, true, false, ◌==◌, if◌then◌else◌,
}
use project.Threads.Locks.{Lock, new_lock, acquire, release}

-- A thread is outside the section that the lock guards, asleep in `Acquire`, or in the section.
pub data Status : Type 0 where
  outside asleep inside : Status

pub record World : Type 0 where
  pub lock : Lock
  pub status : ℕ → Status

abbrev pub update : ℕ → Status → (ℕ → Status) → ℕ → Status
update t v f u = if t == u then v else f u

-- `Acquire` of a thread that is outside.
unfoldable pub enter : ℕ → World → World
enter t w =
    let x = acquire t w.lock in
    record { lock = x.1; status = update t (if x.0 then inside else asleep) w.status }

-- `ReadyToRun`: the thread comes back from `Sleep`, and with it from `Acquire`.
unfoldable pub wake : Option ℕ → (ℕ → Status) → ℕ → Status
wake none f = f
wake (some u) f = update u inside f

-- `Release` of a thread that is inside.
unfoldable pub leave : ℕ → World → World
unfolding wake
leave t w =
    let x = release t w.lock in record { lock = x.1; status = wake x.0 (update t outside w.status) }

-- A step of one thread.
pub data Step : World → World → Type 0 where
  entering : {w : World} (t : ℕ) → w.status t ≡ outside → Step w (enter t w)
  leaving : {w : World} (t : ℕ) → w.status t ≡ inside → Step w (leave t w)

-- A world that steps lead to from a new lock, with every thread outside.
pub data Reachable : World → Type 0 where
  start : Reachable (record { lock = new_lock; status = λ t. outside })
  after : {w v : World} → Reachable w → Step w v → Reachable v

-- How often a thread is in a queue.
unfoldable pub occurrences : ℕ → List ℕ → ℕ
occurrences t [] = 0
occurrences t (u ∷ us) = (if u == t then 1 else 0) + occurrences t us

abbrev pub is_asleep : Status → ℕ
is_asleep outside = 0
is_asleep asleep = 1
is_asleep inside = 0

abbrev pub is_inside : Status → Bool
is_inside outside = false
is_inside asleep = false
is_inside inside = true
