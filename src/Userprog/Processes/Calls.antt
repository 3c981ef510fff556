-- ===== src/Userprog/Processes/Calls.antt =====
-- userprog/exception.cc, userprog/progtest.cc: runs of the calls, in any order and of any threads.
use project.Prelude.{
  ℕ, ◌+◌, ◌*◌, ◌^◌, ◌<◌, ◌≡◌, refl, sym, ap, subst, List, [], ◌∷◌, ◌++◌, Option, some, Bool, ℤ, ok,
  Holds,
}
use project.Userprog.Paging.State.{Vm, PageTableEntry, page_size}
use project.Userprog.Paging.Spaces.{NoffHeader}
use project.Userprog.Paging.Faults.{handle_page_fault}
use project.Userprog.Paging.Sizes.{Sized, handle_page_fault-Sized}
use project.Userprog.Processes.{
  Kernel, start_process, exec_syscall, exec_take, exec_enter, fork_syscall, fork_thread_take,
  fork_thread_enter, exit_syscall,
}
use project.Userprog.Processes.Settlement.{Fresh, Settled, Settled-same}
use project.Userprog.Processes.Keeping.{
  Sleepers, taken_in, holdings, Good, Done, AllSmall, start_process-Good, exec_syscall-Good,
  exec_take-Good, exec_enter-Good, fork_syscall-Good, fork_thread_take-Good, fork_thread_enter-Good,
  exit_syscall-Good,
}

-- A step of the kernel and of the threads that have taken a stack and sleep: a call that returns, one of the
-- parts of `Exec_Syscall` and `Fork_Thread`, a page fault, or anything else that leaves the spaces alone, such as a context
-- switch. The space of a new process is new, and the programs and their stacks fit into 32 bits.
pub data Step : Sleepers → Kernel → Sleepers → Kernel → Type 0 where
  executing :
      {w : Sleepers} {s t : Kernel} (current : ℕ) (copied : Bool)
      (opened : Option (NoffHeader × List ℕ)) (space : ℕ) (garbage : ℕ → PageTableEntry) (v : ℤ)
      → Fresh space s.process_table
      → taken_in space w ≡ []
      → AllSmall opened
      → exec_syscall current copied opened space garbage s ≡ ok (some (v, t))
      → Step w s w t
  exec_taking :
      {w : Sleepers} {s t : Kernel} (space thread stack : ℕ)
      → exec_take space thread s ≡ ok (stack, t)
      → Step w s ((thread, space, stack) ∷ w) t
  exec_entering :
      {w w' : Sleepers} {s t : Kernel} (current space thread stack : ℕ) (pre post : Sleepers)
      → w ≡ pre ++ ((thread, space, stack) ∷ post)
      → w' ≡ pre ++ post
      → exec_enter current space thread stack s ≡ ok (some t)
      → Step w s w' t
  booting :
      {w : Sleepers} {s t : Kernel} (current : ℕ) (opened : Option (NoffHeader × List ℕ))
      (space : ℕ) (garbage : ℕ → PageTableEntry)
      → Fresh space s.process_table
      → taken_in space w ≡ []
      → AllSmall opened
      → start_process current opened space garbage s ≡ ok (some t)
      → Step w s w t
  forking :
      {w : Sleepers} {s t : Kernel} (current thread : ℕ) (garbage : ℕ → PageTableEntry)
      → ((s.vm.space (s.space_of current)).num_pages + 8) * page_size < 2 ^ 32
      → fork_syscall current thread garbage s ≡ ok (some t)
      → Step w s w t
  taking :
      {w : Sleepers} {s t : Kernel} (current stack : ℕ)
      → fork_thread_take current s ≡ ok (stack, t)
      → Step w s ((current, s.space_of current, stack) ∷ w) t
  entering :
      {w w' : Sleepers} {s t : Kernel} (current stack : ℕ) (pre post : Sleepers)
      → w ≡ pre ++ ((current, s.space_of current, stack) ∷ post)
      → w' ≡ pre ++ post
      → fork_thread_enter current stack s ≡ ok (some t)
      → Step w s w' t
  exiting :
      {w : Sleepers} {s t : Kernel} (current : ℕ)
      → exit_syscall current s ≡ ok (some t)
      → Step w s w t
  faulting :
      {w : Sleepers} {s : Kernel} (random bad_v_addr : ℕ) (vm : Vm)
      → handle_page_fault random bad_v_addr s.vm ≡ ok vm
      → Step w s w (record s { vm = vm })
  running :
      {w : Sleepers} {s : Kernel} (vm : Vm)
      → vm.space ≡ s.vm.space
      → Step w s w (record s { vm = vm })

pub data Reachable : Sleepers → Kernel → Type 0 where
  start : {s : Kernel} → s.process_table ≡ [] → Reachable [] s
  after : {w w' : Sleepers} {s t : Kernel} → Reachable w s → Step w s w' t → Reachable w' t

page_fault-Good :
    (w : Sleepers) (s : Kernel) (vm : Vm) → Sized s.vm vm → Good w s → Good w (record s { vm = vm })
page_fault-Good w s vm h g =
    Settled-same (holdings s.vm w) (holdings vm w) s.process_table (λ b. ((h b).0, (h b).1, refl)) g

-- Whatever the calls, page faults and context switches have done since there were no processes, if each program and its stacks fit into 32 bits and a new process has a new space:
-- no two processes have the same address space; in the space of a process no byte is in two stacks of those that its threads have, that have been
-- taken by Exec or `Fork_Thread` and are not entered yet, and that are still in the queue; every byte of these stacks is inside the space; and there are as many of them as the process counts threads.
pub stacks_apart :
    {w : Sleepers} {s : Kernel} → Reachable w s → Settled (holdings s.vm w) s.process_table
unfolding Settled
stacks_apart (start {s} e) = subst (Settled (holdings s.vm [])) (sym e) tt
stacks_apart (after r (executing {w} {s} {t} current copied opened space garbage v f n h e)) =
    subst (Holds (Done (λ x. Good w x.1))) e
      (exec_syscall-Good w current copied opened space garbage s f n h (stacks_apart r))
stacks_apart (after r (exec_taking {w} {s} {t} space thread stack e)) =
    subst (Holds (λ (x : ℕ × Kernel). Good ((thread, space, x.0) ∷ w) x.1)) e
      (exec_take-Good space thread w s (stacks_apart r))
stacks_apart
      (after r (exec_entering {w} {w'} {s} {t} current space thread stack pre post before left e)) =
    subst (λ v. Good v t) (sym left)
      (subst (Holds (Done (Good (pre ++ post)))) e (
        exec_enter-Good current space thread stack pre post s
          (subst (λ v. Good v s) before (stacks_apart r))))
stacks_apart (after r (booting {w} {s} {t} current opened space garbage f n h e)) =
    subst (Holds (Done (Good w))) e
      (start_process-Good w current opened space garbage s f n h (stacks_apart r))
stacks_apart (after r (forking {w} {s} {t} current thread garbage h e)) =
    subst (Holds (Done (Good w))) e
      (fork_syscall-Good w current thread garbage s h (stacks_apart r))
stacks_apart (after r (taking {w} {s} {t} current stack e)) =
    subst (Holds (λ (x : ℕ × Kernel). Good ((current, s.space_of current, x.0) ∷ w) x.1)) e
      (fork_thread_take-Good current w s (stacks_apart r))
stacks_apart (after r (entering {w} {w'} {s} {t} current stack pre post before left e)) =
    subst (λ v. Good v t) (sym left)
      (subst (Holds (Done (Good (pre ++ post)))) e (
        fork_thread_enter-Good current stack pre post s
          (subst (λ v. Good v s) before (stacks_apart r))))
stacks_apart (after r (exiting {w} {s} {t} current e)) =
    subst (Holds (Done (Good w))) e (exit_syscall-Good w current s (stacks_apart r))
stacks_apart (after r (faulting {w} {s} random bad_v_addr vm e)) =
    page_fault-Good w s vm
      (subst (Holds (Sized s.vm)) e (handle_page_fault-Sized random bad_v_addr s.vm))
      (stacks_apart r)
stacks_apart (after r (running {w} {s} vm e)) =
    page_fault-Good w s vm
      (λ b. (ap (λ sp. (sp b).num_pages) e, ap (λ sp. (sp b).num_page_queue) e)) (stacks_apart r)
