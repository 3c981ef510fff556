-- ===== src/Threads/Semaphores/Supply.antt =====
-- threads/synch.cc: the value of a semaphore and the threads that wait for it.
use project.Prelude.{
  ℕ, ◌+◌, ◌≤◌, ◌<◌, ◌≡◌, refl, ap, List, [], ◌∷◌, ◌++◌, ◌==◌, length, length-append, inl, inr,
  Bool-cases, arith,
}
use project.Threads.Semaphores.{p, wake_first, v}
use project.Threads.Semaphores.Worlds.{
  World, attempt, make_ready, give, Step, calling, resuming, giving, Reachable, start, after,
}

-- What a value is left, and while a thread sleeps a woken thread for each unit of it.
pub record Inv (initial : ℕ) (w : World) : Type 0 where
  pub supply : w.semaphore.value + w.taken ≡ initial + w.given
  pub woken : 0 < length w.semaphore.queue → w.semaphore.value ≤ length w.ready

module _ (initial : ℕ) where
  attempt-Inv :
      (t : ℕ) (ready : List ℕ) (w : World)
      → length w.ready ≤ length ready + 1
      → Inv initial w
      → Inv initial (attempt t ready w)
  unfolding attempt p
  attempt-Inv t ready w l i = elim (Bool-cases (w.semaphore.value == 0)) [
    | inl none_left ↦
        rw none_left (record { supply = i.supply; woken = λ q. ground (arith, none_left) })
    | inr some_left ↦
        rw some_left
          (record { supply = ground (arith, i.supply); woken = λ q. ground (arith, i.woken q) })
  ]

  give-Inv : (w : World) → Inv initial w → Inv initial (give w)
  unfolding give v wake_first make_ready
  give-Inv w i = record {
    supply = omega (arith, i.supply);
    woken = by_queue w.semaphore.queue refl;
  }
    where
      by_queue :
          (q : List ℕ)
          → w.semaphore.queue ≡ q
          → 0 < length (wake_first q).1
          → w.semaphore.value + 1 ≤ length (make_ready (wake_first q).0 w.ready)
      by_queue [] e h = absurd (omega arith)
      by_queue (t ∷ ts) e h =
          omega (arith, length-append w.ready (t ∷ []), i.woken (ground (arith, ap length e)))

  Reachable-Inv : {w : World} → Reachable initial w → Inv initial w
  Reachable-Inv start = record { supply = omega arith; woken = λ q. absurd (omega arith) }
  Reachable-Inv (after r (calling {w} t)) = attempt-Inv t w.ready w (omega arith) (Reachable-Inv r)
  Reachable-Inv (after r (resuming {w} before t others e)) =
      attempt-Inv t (before ++ others) w
        (omega (arith, ap length e, length-append before (t ∷ others), length-append before others))
        (Reachable-Inv r)
  Reachable-Inv (after r (giving {w})) = give-Inv w (Reachable-Inv r)

  -- Whatever steps threads have made from a new semaphore, the calls of `P` that have returned and the value that is left
  -- are as many as the initial value and the calls of `V` together, so that no more `P` return than that.
  pub supply :
      {w : World}
      → Reachable initial w
      → (w.semaphore.value + w.taken ≡ initial + w.given) × (w.taken ≤ initial + w.given)
  supply r = let i = Reachable-Inv r in (i.supply, omega (arith, i.supply))

  -- No wake-up is lost: whatever steps threads have made from a new semaphore, while one sleeps in `P` and the value is not 0,
  -- a thread has been woken and has not run since, and its step takes one of the value.
  pub no_lost_wakeup :
      {w : World}
      → Reachable initial w
      → 0 < length w.semaphore.queue
      → 0 < w.semaphore.value
      → (t : ℕ) × (others : List ℕ) × (u : World) × Step w u
        × (w.ready ≡ t ∷ others)
        × (u.ready ≡ others)
        × (u.taken ≡ w.taken + 1)
  unfolding attempt p
  no_lost_wakeup {w} r q n = by_ready w.ready refl
    where
      by_ready :
          (l : List ℕ)
          → w.ready ≡ l
          → (t : ℕ) × (others : List ℕ) × (u : World) × Step w u
            × (w.ready ≡ t ∷ others)
            × (u.ready ≡ others)
            × (u.taken ≡ w.taken + 1)
      by_ready [] e = absurd (omega (arith, (Reachable-Inv r).woken q, ap length e))
      by_ready (t ∷ others) e =
          (t, others, attempt t others w, resuming [] t others e, e, refl, runs)
        where
          runs : (attempt t others w).taken ≡ w.taken + 1
          runs = ground (arith, n)
