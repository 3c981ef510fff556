-- ===== src/Threads/Locks/Exclusion.antt =====
-- threads/synch.cc: threads that use a lock, in any order of their steps.
use project.Prelude.{
  ℕ, ◌≡◌, refl, ap, sym, ◌∙◌, inl, inr, [], some, true, ==_iff, Bool-cases, arith,
}
use project.Threads.Locks.{is_held_by}
use project.Threads.Locks.Worlds.{
  Status, outside, asleep, inside, World, Reachable, occurrences, is_asleep, is_inside,
}
use project.Threads.Locks.Invariant.{only, Reachable-Inv}

-- Two threads are never inside at once, whatever steps the threads have made.
pub mutual_exclusion :
    {w : World} (t u : ℕ) → Reachable w → w.status t ≡ inside → w.status u ≡ inside → t ≡ u
mutual_exclusion {w} t u r i j =
    (==_iff t u).0 (sym (only t w i (Reachable-Inv r) u) ∙ ap is_inside j)

held_self : (u : ℕ) → is_held_by u (some u) ≡ true
unfolding is_held_by
held_self u = ground arith

-- Whatever steps the threads have made: a thread that sleeps is once in the queue, and one that does not
-- is not in it; and while a thread sleeps, some thread is inside.
pub no_lost_waiter :
    {w : World} (t : ℕ)
    → Reachable w
    → (occurrences t w.lock.wait_queue ≡ is_asleep (w.status t))
      × (w.status t ≡ asleep → (u : ℕ) × (w.status u ≡ inside))
unfolding occurrences
no_lost_waiter {w} t r =
    let v = Reachable-Inv r in
    (
      v.queue_asleep t,
      λ e. elim (Bool-cases w.lock.busy) [
        | inl b ↦
            let (u, o) = v.busy_owner b in
            (u, inside_status (w.status u) (v.owner_inside u ∙ (ap (is_held_by u) o ∙ held_self u)))
        | inr b ↦ absurd (
            ground (
              arith,
              sym (v.queue_asleep t) ∙ ap (occurrences t) (v.free_queue b),
              ap is_asleep e,
              occurrences_nil t,
            ))
      ],
    )
  where
    inside_status : (x : Status) → is_inside x ≡ true → x ≡ inside
    inside_status outside h = absurd (ground (arith, h))
    inside_status asleep h = absurd (ground (arith, h))
    inside_status inside h = refl

    occurrences_nil : (u : ℕ) → occurrences u [] ≡ 0
    occurrences_nil u = refl
