-- ===== src/Threads/Semaphores/Worlds.antt =====
-- threads/synch.cc: the steps of threads that use a semaphore.
use project.Prelude.{ℕ, ◌+◌, ◌≡◌, List, [], ◌∷◌, ◌++◌, Option, none, some, if◌then◌else◌}
use project.Threads.Semaphores.{Semaphore, new_semaphore, p, v}

-- `ready` are the threads that `V` has woken and that have not run again; `taken` and `given` count the calls
-- of `P` and of `V` that have returned.
pub record World : Type 0 where
  pub semaphore : Semaphore
  pub ready : List ℕ
  pub taken : ℕ
  pub given : ℕ

-- A thread comes to the test of `P`, and `ready` are the others.
unfoldable pub attempt : ℕ → List ℕ → World → World
attempt t ready w =
    let x = p t w.semaphore in
    record w { semaphore = x.1; ready = ready; taken = (if x.0 then w.taken + 1 else w.taken) }

-- `ReadyToRun`
unfoldable pub make_ready : Option ℕ → List ℕ → List ℕ
make_ready none ready = ready
make_ready (some t) ready = ready ++ (t ∷ [])

unfoldable pub give : World → World
unfolding make_ready
give w =
    let x = v w.semaphore in
    record w { semaphore = x.1; ready = make_ready x.0 w.ready; given = w.given + 1 }

-- A thread calls `P`, a woken thread runs again, or a thread calls `V`.
pub data Step : World → World → Type 0 where
  calling : {w : World} (t : ℕ) → Step w (attempt t w.ready w)
  resuming :
      {w : World} (before : List ℕ) (t : ℕ) (others : List ℕ)
      → w.ready ≡ before ++ (t ∷ others)
      → Step w (attempt t (before ++ others) w)
  giving : {w : World} → Step w (give w)

pub data Reachable (initial : ℕ) : World → Type 0 where
  start :
      Reachable initial
        (record { semaphore = new_semaphore initial; ready = []; taken = 0; given = 0 })
  after : {w u : World} → Reachable initial w → Step w u → Reachable initial u
