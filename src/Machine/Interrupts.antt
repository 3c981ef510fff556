-- ===== src/Machine/Interrupts.antt =====
-- machine/interrupt.cc and machine/timer.cc: simulated time, and the interrupts that are due in it.
-- A tick count stays below 2 ^ 63.
use project.Prelude.{
  ℕ, zero, suc, ◌+◌, ◌-◌, ◌*◌, ◌%◌, List, [], Option, none, some, Bool, true, false, not, ◌&&◌,
  ◌||◌, ltb, if◌then◌else◌, Result, ok, fault, assertion, halted, check, ◌>>=◌, ◌>>◌,
}
use project.Threads.Lists.{ListElement, is_empty, sorted_insert, sorted_remove}
pub mod Time
mod Tests

pub data MachineStatus : Type 0 where
  idle_mode system_mode user_mode : MachineStatus

pub data IntType : Type 0 where
  timer_int disk_int console_write_int console_read_int network_send_int network_recv_int : IntType

-- `handler` is the number of the procedure. The time at which it is due is the key in the list.
pub record PendingInterrupt : Type 0 where
  pub handler : ℕ
  pub arg : ℕ
  pub kind : IntType

-- The fields of `Interrupt`, and the ticks of `Statistics`. `enabled` is `level == IntOn`.
pub record Interrupt : Type 0 where
  pub enabled : Bool
  pub pending : List (ListElement PendingInterrupt)
  pub in_handler : Bool
  pub yield_on_return : Bool
  pub status : MachineStatus
  pub total_ticks : ℕ
  pub idle_ticks : ℕ
  pub system_ticks : ℕ
  pub user_ticks : ℕ

abbrev pub system_tick : ℕ
system_tick = 10

abbrev pub user_tick : ℕ
user_tick = 1

abbrev pub timer_ticks : ℕ
timer_ticks = 100

abbrev pub is_idle : MachineStatus → Bool
is_idle idle_mode = true
is_idle system_mode = false
is_idle user_mode = false

abbrev pub is_system : MachineStatus → Bool
is_system idle_mode = false
is_system system_mode = true
is_system user_mode = false

abbrev pub is_timer : IntType → Bool
is_timer timer_int = true
is_timer disk_int = false
is_timer console_write_int = false
is_timer console_read_int = false
is_timer network_send_int = false
is_timer network_recv_int = false

-- The constructor, with the clock at 0.
unfoldable pub new_interrupt : Interrupt
new_interrupt = record {
  enabled = false;
  pending = [];
  in_handler = false;
  yield_on_return = false;
  status = system_mode;
  total_ticks = 0;
  idle_ticks = 0;
  system_ticks = 0;
  user_ticks = 0;
}

unfoldable pub schedule : PendingInterrupt → ℕ → Interrupt → Result Interrupt
schedule to_occur from_now s = do
  check (ltb 0 from_now) assertion
  ok (record s { pending = sorted_insert to_occur (s.total_ticks + from_now) s.pending })

unfoldable pub yield_on_return : Interrupt → Result Interrupt
yield_on_return s = do check s.in_handler assertion; ok (record s { yield_on_return = true })

-- `1 + Random() % (TimerTicks * 2)`, or `TimerTicks`.
unfoldable pub time_of_next_interrupt : Bool → ℕ → ℕ
time_of_next_interrupt randomize random =
    if randomize then 1 + random % (timer_ticks * 2) else timer_ticks

-- `TimerExpired`: the timer starts again, and its handler is called.
unfoldable pub timer_expired :
    Bool → ℕ → PendingInterrupt → (Interrupt → Result Interrupt) → Interrupt → Result Interrupt
unfolding schedule time_of_next_interrupt
timer_expired randomize random timer handler s =
    schedule timer (time_of_next_interrupt randomize random) s >>= handler

-- The clock is advanced to the time at which the interrupt is due.
unfoldable pub advance_to : ℕ → Interrupt → Interrupt
advance_to when s =
    if ltb s.total_ticks when
    then record s { idle_ticks = s.idle_ticks + (when - s.total_ticks); total_ticks = when }
    else s

-- The ticks that `OneTick` adds.
unfoldable pub count_tick : Interrupt → Interrupt
count_tick s =
    if is_system s.status
    then record s {
      total_ticks = s.total_ticks + system_tick;
      system_ticks = s.system_ticks + system_tick;
    }
    else record s { total_ticks = s.total_ticks + user_tick; user_ticks = s.user_ticks + user_tick }

-- The yield that a handler has asked for.
unfoldable pub yield_if_asked : (Interrupt → Result Interrupt) → Interrupt → Result Interrupt
yield_if_asked yield s =
    if s.yield_on_return
    then (do
      s' ← yield (record s { yield_on_return = false; status = system_mode })
      ok (record s' { status = s.status }))
    else ok s

-- `handle` is what the procedures do.
module _ (handle : PendingInterrupt → Interrupt → Result Interrupt) where
  -- The handler of the interrupt is called. `machine->DelayedLoad(0, 0)`, which comes first, changes only registers of the
  -- simulated processor, which are not part of the state here.
  unfoldable pub fire : PendingInterrupt → Interrupt → Result (Bool × Interrupt)
  fire to_occur s = do
    s' ← handle to_occur (record s { in_handler = true; status = system_mode })
    ok (true, record s' { status = s.status; in_handler = false })

  -- `CheckIfDue` once the first interrupt, due at `when`, is off the list.
  unfoldable pub check_first : Bool → PendingInterrupt → ℕ → Interrupt → Result (Bool × Interrupt)
  unfolding fire advance_to
  check_first advance_clock to_occur when s =
      let put_back =
        λ (t : Interrupt). record t { pending = sorted_insert to_occur when t.pending } in
      if not advance_clock && ltb s.total_ticks when
      then ok (false, put_back s)
      else (let s' = if advance_clock then advance_to when s else s in
          if is_idle s'.status && is_timer to_occur.kind && is_empty s'.pending
          then ok (false, put_back s')
          else fire to_occur s')

  unfoldable pub check_if_due : Bool → Interrupt → Result (Bool × Interrupt)
  unfolding check_first
  check_if_due advance_clock s = do
    check (not s.enabled) assertion
    let removed = sorted_remove s.pending
    elim removed.0 [
      | none ↦ ok (false, s)
      | some (to_occur, when) ↦
          check_first advance_clock to_occur when (record s { pending = removed.1 })
    ]

  -- `while (CheckIfDue(FALSE)) ;`, with fuel; `none` means that the fuel ran out.
  unfoldable pub fire_due : ℕ → Interrupt → Result (Option Interrupt)
  unfolding check_if_due
  fire_due zero s = ok none
  fire_due (suc fuel) s = do
    (fired, s') ← check_if_due false s
    elim fired [ true ↦ fire_due fuel s' | false ↦ ok (some s') ]

  -- `Halt` when nothing is left to wait for.
  unfoldable pub idle : ℕ → Interrupt → Result (Option Interrupt)
  unfolding fire_due
  idle fuel s = do
    (fired, s') ← check_if_due true (record s { status = idle_mode })
    if fired
        then (do
          r ← fire_due fuel s'
          ok (elim r [
            | none ↦ none
            | some s'' ↦ some (record s'' { yield_on_return = false; status = system_mode })
          ]))
        else fault halted

-- `yield` is what `currentThread->Yield()` does.
module _ (handle : PendingInterrupt → Interrupt → Result Interrupt)
    (yield : Interrupt → Result Interrupt) where
  unfoldable pub one_tick : ℕ → Interrupt → Result (Option Interrupt)
  unfolding fire_due count_tick yield_if_asked
  one_tick fuel s = do
    r ← fire_due handle fuel (record (count_tick s) { enabled = false })
    elim r [
      | none ↦ ok none
      | some s' ↦ (do s'' ← yield_if_asked yield (record s' { enabled = true }); ok (some s''))
    ]

  -- The old level, and what is left of the call.
  unfoldable pub set_level : Bool → ℕ → Interrupt → Result (Bool × Option Interrupt)
  unfolding one_tick
  set_level now fuel s = do
    check (not now || not s.in_handler) assertion
    let s' = record s { enabled = now }
    if now && not s.enabled
        then (do r ← one_tick fuel s'; ok (s.enabled, r))
        else ok (s.enabled, some s')
