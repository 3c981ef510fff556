-- ===== src/Machine/Interrupts/Tests.antt =====
-- Runs of the interrupts of machine/interrupt.cc.
use native.Mathlib.Omega.{arith}
use project.Prelude.{◌≡◌, refl, [], ◌∷◌, some, false, Result, ok, Returns}
use project.Threads.Lists.{sorted_insert, sorted_remove}
use project.Machine.Interrupts.{
  Interrupt, PendingInterrupt, user_mode, timer_int, disk_int, schedule, fire_due, one_tick,
}
use project.Machine.Interrupts.Time.{Quiet, Settled, schedule-Quiet, fire_due-settles}

-- A timer, which makes its next interrupt pending for 100 ticks later.
abbrev restart : PendingInterrupt → Interrupt → Result Interrupt
restart p s = schedule p 100 s

restart-Quiet : Quiet restart
restart-Quiet p s r = schedule-Quiet p 100 s (omega arith) r

abbrev timer : PendingInterrupt
timer = record { handler = 0; arg = 0; kind = timer_int }

abbrev disk : PendingInterrupt
disk = record { handler = 1; arg = 7; kind = disk_int }

-- Both interrupts are due.
abbrev two_due : Interrupt
two_due = record {
  enabled = false;
  pending = record { item = timer; key = 40 } ∷ record { item = disk; key = 50 } ∷ [];
  in_handler = false;
  yield_on_return = false;
  status = user_mode;
  total_ticks = 50;
  idle_ticks = 0;
  system_ticks = 40;
  user_ticks = 10;
}

fire_due_test :
    fire_due restart 3 two_due
    ≡ ok (
        some (record two_due {
          pending = record { item = disk; key = 150 } ∷ record { item = timer; key = 150 } ∷ [];
        }))
unfolding fire_due schedule sorted_insert sorted_remove
fire_due_test = refl

fire_due-settles_example : Returns (Settled two_due) (fire_due restart 3 two_due)
unfolding project.Machine.Interrupts.Time.due
fire_due-settles_example =
    fire_due-settles restart restart-Quiet 3 two_due
      (record { in_order = omega arith; disabled = refl }) refl (omega arith)
