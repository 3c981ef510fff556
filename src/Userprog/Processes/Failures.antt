-- ===== src/Userprog/Processes/Failures.antt =====
-- userprog/exception.cc: an Exec that returns -1.
use project.Prelude.{ℕ, ◌≡◌, refl, List, Option, none, some, Bool, true, false, minus_one, ◌==◌, ok}
use project.Threads.Locks
use project.Threads.Locks.{Lock}
use project.Userprog.Paging.State.{PageTableEntry}
use project.Userprog.Paging.Spaces.{NoffHeader}
use project.Userprog.Processes.{
  Kernel, locked, exec_locked, exec_syscall, fork_syscall, fork_thread_enter, exec_enter,
  exit_syscall,
}

-- The thread has the lock.
abbrev pub held_by : ℕ → Lock → Lock
held_by current l = record l { busy = true; owner = some current }

acquire_free :
    (current : ℕ) (l : Lock)
    → l.busy ≡ false
    → l.owner ≡ none
    → Locks.acquire current l ≡ (true, held_by current l)
unfolding Locks.acquire Locks.is_held_by
acquire_free current l b o = rw (b, o) refl

acquire_held :
    (current other : ℕ) (l : Lock)
    → (current == other) ≡ false
    → (Locks.acquire other (held_by current l)).0 ≡ false
unfolding Locks.acquire Locks.is_held_by
acquire_held current other l n = rw n refl

-- An Exec whose file cannot be opened, or whose name cannot be read, returns -1 and keeps `processLock`, if that was free. As long as the
-- lock is as it was left, every Exec, Fork and Exit of another thread sleeps, and so do `Fork_Thread` and a running Exec when they are to enter a stack.
pub exec_syscall_blocks :
    (current other : ℕ) (copied copied' : Bool) (opened : Option (NoffHeader × List ℕ))
    (space another stack : ℕ) (garbage : ℕ → PageTableEntry) (s later : Kernel)
    → s.process_lock.busy ≡ false
    → s.process_lock.owner ≡ none
    → later.process_lock ≡ held_by current s.process_lock
    → (current == other) ≡ false
    → (t : Kernel) × (exec_syscall current copied none space garbage s ≡ ok (some (minus_one, t)))
      × (t.process_lock ≡ held_by current s.process_lock)
      × (exec_syscall other copied' opened space garbage later ≡ ok none)
      × (fork_syscall other another garbage later ≡ ok none)
      × (exit_syscall other later ≡ ok none)
      × (fork_thread_enter other stack later ≡ ok none)
      × (exec_enter other space another stack later ≡ ok none)
unfolding exec_syscall exec_locked fork_syscall exit_syscall fork_thread_enter exec_enter locked
exec_syscall_blocks current other copied copied' opened space another stack garbage s later b o l
      n =
    let sleeps = acquire_held current other s.process_lock n in
    (
      record s { process_lock = held_by current s.process_lock },
      rw (acquire_free current s.process_lock b o) (by_copied copied),
      refl,
      rw (l, sleeps) refl,
      rw (l, sleeps) refl,
      rw (l, sleeps) refl,
      rw (l, sleeps) refl,
      rw (l, sleeps) refl,
    )
  where
    by_copied :
        (c : Bool)
        → exec_locked current c none space garbage
            (record s { process_lock = held_by current s.process_lock })
          ≡ ok (some (minus_one, record s { process_lock = held_by current s.process_lock }))
    by_copied true = refl
    by_copied false = refl
