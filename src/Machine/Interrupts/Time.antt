-- ===== src/Machine/Interrupts/Time.antt =====
-- machine/interrupt.cc: the loop over the interrupts that are due comes to an end.
use project.Prelude.{
  ℕ, zero, suc, ◌+◌, ◌≤◌, ◌<◌, ◌≡◌, refl, ap, subst, ◌∙◌, inl, inr, List, [], ◌∷◌, ◌++◌, Option,
  none, some, Bool, true, false, ltb, leb, if◌then◌else◌, Result, ok, Bool-cases, arith, Returns,
  Returns-bind, Returns-implies,
}
use project.Threads.Lists.{ListElement, sorted_insert, sorted_remove}
use project.Threads.Lists.Sorted.{AllFrom, IsSorted, sorted_insert-IsInserted, sorted_remove-insert}
use project.Machine.Interrupts.{
  Interrupt, PendingInterrupt, system_mode, is_idle, schedule, fire, check_first, check_if_due,
  fire_due,
}

-- How many interrupts are due at time `now`.
unfoldable pub due : ℕ → List (ListElement PendingInterrupt) → ℕ
due now [] = 0
due now (x ∷ xs) = (if leb x.key now then 1 else 0) + due now xs

due-append :
    (now : ℕ) (xs ys : List (ListElement PendingInterrupt))
    → due now (xs ++ ys) ≡ due now xs + due now ys
unfolding due
due-append now [] ys = omega arith
due-append now (x ∷ xs) ys = omega (arith, due-append now xs ys)

due-insert :
    (now key : ℕ) (p : PendingInterrupt) (xs : List (ListElement PendingInterrupt))
    → IsSorted xs
    → due now (sorted_insert p key xs) ≡ (if leb key now then 1 else 0) + due now xs
unfolding due
due-insert now key p xs s =
    let (front, back, before, after, u, d) = sorted_insert-IsInserted p key xs s in
    ap (due now) after
    ∙ omega (
      arith,
      due-append now front back,
      due-append now front (record { item = p; key = key } ∷ back),
      ap (due now) before,
    )

due-later :
    (now k : ℕ) (xs : List (ListElement PendingInterrupt)) → now < k → AllFrom k xs → due now xs ≡ 0
unfolding due
due-later now k [] h a = refl
due-later now k (x ∷ xs) h (b, a) = ground (arith, due-later now k xs h a)

-- The interrupts are in order, and the tables of the machine are as `CheckIfDue` wants them.
pub record Ready (s : Interrupt) : Type 0 where
  pub in_order : IsSorted s.pending
  pub disabled : s.enabled ≡ false

-- A handler returns, leaves the time and the level alone, and makes interrupts pending for later only.
abbrev pub Quiet : (PendingInterrupt → Interrupt → Result Interrupt) → Type 0
Quiet handle =
    (p : PendingInterrupt) (s : Interrupt)
    → Ready s
    → Returns
        (λ s'.
          Ready s'
          × (s'.total_ticks ≡ s.total_ticks)
          × (due s.total_ticks s'.pending ≡ due s.total_ticks s.pending))
        (handle p s)

-- `Schedule` is quiet.
pub schedule-Quiet :
    (p : PendingInterrupt) (from_now : ℕ) (s : Interrupt)
    → 0 < from_now
    → Ready s
    → Returns
        (λ s'.
          Ready s'
          × (s'.total_ticks ≡ s.total_ticks)
          × (due s.total_ticks s'.pending ≡ due s.total_ticks s.pending))
        (schedule p from_now s)
unfolding schedule
schedule-Quiet p n s h r =
    let e : ltb 0 n ≡ true = ground arith in
    rw e (
      record {
        in_order = (sorted_remove-insert p (s.total_ticks + n) s.pending r.in_order).0;
        disabled = r.disabled;
      },
      refl,
      due-insert s.total_ticks (s.total_ticks + n) p s.pending r.in_order ∙ ground arith,
    )

-- What one `CheckIfDue(FALSE)` does: either it fires one interrupt that was due, or none is due.
abbrev pub Checked : Interrupt → Bool × Interrupt → Type 0
Checked s x =
    Ready x.1
    × (x.1.total_ticks ≡ s.total_ticks)
    × (x.1.status ≡ s.status)
    × (due s.total_ticks s.pending ≡ (if x.0 then 1 else 0) + due s.total_ticks x.1.pending)
    × (x.0 ≡ false → due s.total_ticks x.1.pending ≡ 0)

-- What the loop leaves: the same time and status, and no interrupt that is due.
abbrev pub Settled : Interrupt → Option Interrupt → Type 0
Settled s o =
    (s' : Interrupt) × (o ≡ some s')
    × Ready s'
    × (s'.total_ticks ≡ s.total_ticks)
    × (s'.status ≡ s.status)
    × (due s'.total_ticks s'.pending ≡ 0)

module _ (handle : PendingInterrupt → Interrupt → Result Interrupt) (quiet : Quiet handle) where
  fire-Checked :
      (x : ListElement PendingInterrupt) (xs : List (ListElement PendingInterrupt)) (s : Interrupt)
      → s.pending ≡ x ∷ xs
      → Ready s
      → x.key ≤ s.total_ticks
      → Returns (Checked s) (fire handle x.item (record s { pending = xs }))
  unfolding fire due
  fire-Checked x xs s e r h =
      Returns-bind _ _
        (handle x.item (record s { pending = xs; in_handler = true; status = system_mode })) _
        (quiet x.item (record s { pending = xs; in_handler = true; status = system_mode })
          (record { in_order = (subst IsSorted e r.in_order).1; disabled = r.disabled }))
        λ s' (r', t, d). (
          record { in_order = r'.in_order; disabled = r'.disabled },
          t,
          refl,
          ap (due s.total_ticks) e ∙ ground (arith, d),
          λ f. absurd (ground (arith, f)),
        )

  check_first-Checked :
      (x : ListElement PendingInterrupt) (xs : List (ListElement PendingInterrupt)) (s : Interrupt)
      → s.pending ≡ x ∷ xs
      → Ready s
      → is_idle s.status ≡ false
      → Returns (Checked s) (check_first handle false x.item x.key (record s { pending = xs }))
  unfolding check_first due
  check_first-Checked x xs s e r i = elim (Bool-cases (ltb s.total_ticks x.key)) [
    | inl later ↦ rw later (
      record {
        in_order = (sorted_remove-insert x.item x.key xs sorted.1).0;
        disabled = r.disabled;
      },
      refl,
      refl,
      ap (due s.total_ticks) e ∙ ground (arith, later, put_back),
      λ f. ground (
        arith,
        later,
        put_back,
        due-later s.total_ticks x.key xs (ground (arith, later)) sorted.0,
      ),
    )
    | inr now ↦ rw (now, i) (fire-Checked x xs s e r (ground (arith, now)))
  ]
    where
      sorted : IsSorted (x ∷ xs)
      sorted = subst IsSorted e r.in_order

      put_back :
          due s.total_ticks (sorted_insert x.item x.key xs)
          ≡ (if leb x.key s.total_ticks then 1 else 0) + due s.total_ticks xs
      put_back = due-insert s.total_ticks x.key x.item xs sorted.1

  check_if_due-Checked :
      (s : Interrupt)
      → Ready s
      → is_idle s.status ≡ false
      → Returns (Checked s) (check_if_due handle false s)
  unfolding check_if_due sorted_remove due
  check_if_due-Checked s r i = rw r.disabled (by_pending s.pending refl)
    where
      by_pending :
          (l : List (ListElement PendingInterrupt))
          → s.pending ≡ l
          → Returns (Checked s) (elim (sorted_remove l).0 [
            | none ↦ ok (false, s)
            | some (p, when) ↦
                check_first handle false p when (record s { pending = (sorted_remove l).1 })
          ])
      by_pending [] e = (r, refl, refl, ground arith, λ f. ap (due s.total_ticks) e)
      by_pending (x ∷ xs) e = check_first-Checked x xs s e r i

  -- If every handler, called with interrupts off and the pending ones in order, returns with that
  -- still so, the time as it was and as many interrupts due as before, then the loop over the
  -- interrupts that are due, of a machine that is not idle and in such a state, ends with fuel for
  -- one round more than are due, at the same time, and then none is due.
  pub fire_due-settles :
      (fuel : ℕ) (s : Interrupt)
      → Ready s
      → is_idle s.status ≡ false
      → due s.total_ticks s.pending < fuel
      → Returns (Settled s) (fire_due handle fuel s)
  unfolding fire_due
  fire_due-settles zero s r i h = absurd (omega arith)
  fire_due-settles (suc fuel) s r i h =
      Returns-bind (Settled s) (Checked s) (check_if_due handle false s) _
        (check_if_due-Checked s r i)
        λ (fired, s') c. round (fire_due handle fuel) (fire_due-settles fuel) fired s' c
    where
      round :
          (f : Interrupt → Result (Option Interrupt))
          → ((t : Interrupt)
              → Ready t
              → is_idle t.status ≡ false
              → due t.total_ticks t.pending < fuel
              → Returns (Settled t) (f t))
          → (fired : Bool) (s' : Interrupt) → Checked s (fired, s')
          → Returns (Settled s) (elim fired [ true ↦ f s' | false ↦ ok (some s') ])
      round f ih true s' (r', t, st, d, n) =
          let same : due s'.total_ticks s'.pending ≡ due s.total_ticks s'.pending =
            ap (λ now. due now s'.pending) t in
          Returns-implies (f s')
            (λ o (s'', e, r'', t'', st'', n''). (s'', e, r'', t'' ∙ t, st'' ∙ st, n''))
            (ih s' r' (ap is_idle st ∙ i) (omega (arith, same, d)))
      round f ih false s' (r', t, st, d, n) =
          (s', refl, r', t, st, ap (λ now. due now s'.pending) t ∙ n refl)
