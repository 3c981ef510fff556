-- ===== src/Userprog/Processes.antt =====
-- userprog/exception.cc: the processes and their threads: Exec, Fork and Exit. A thread and an address
-- space are numbers; what a call does while it has `processLock` is one step, and the tables of kernel locks and conditions are empty.
use project.Prelude.{
  ℕ, zero, suc, ◌+◌, ◌-◌, ◌*◌, ◌%◌, ◌^◌, List, [], ◌∷◌, ◌++◌, Option, none, some, Bool, true, false,
  not, ℤ, pos, minus_one, ltb, ◌==◌, length, if◌then◌else◌, Result, ok, fault, dangling, halted,
  ◌>>=◌,
}
use project.Threads.Locks
use project.Threads.Locks.{Lock}
use project.Userprog.Paging.State.{Vm, PageTableEntry, page_size, with_space}
use project.Userprog.Paging.Spaces.{
  NoffHeader, new_addr_space, get_num_pages, allocate_stack, clear_stack, clear_mem,
}
pub mod Stacks
pub mod Settlement
pub mod Sizes
pub mod Keeping
pub mod Calls
pub mod Failures
mod Tests

-- `thread_stacks` has threads and the addresses at which their stacks start.
pub record Process : Type 0 where
  pub space : ℕ
  pub num_threads : ℕ
  pub thread_stacks : List (ℕ × ℕ)

-- `space_of` is the field `space` of a thread, and `ready` are the threads that have been put on the ready list.
pub record Kernel : Type 0 where
  pub process_table : List Process
  pub process_lock : Lock
  pub vm : Vm
  pub space_of : ℕ → ℕ
  pub num_mail_box : ℕ
  pub ready : List ℕ

abbrev pub new_process : ℕ → Process
new_process space = record { space = space; num_threads = 1; thread_stacks = [] }

-- A change of the first process that has the space.
unfoldable pub update_process : ℕ → (Process → Process) → List Process → List Process
update_process space f [] = []
update_process space f (p ∷ ps) =
    let later = update_process space f ps in if space == p.space then f p ∷ ps else p ∷ later

abbrev pub push_stack : ℕ → ℕ → Process → Process
push_stack thread stack p = record p { thread_stacks = p.thread_stacks ++ ((thread, stack) ∷ []) }

-- `getNumPages()*PageSize - 16` of a space, an `unsigned int`.
unfoldable pub take_stack : ℕ → Vm → Result (ℕ × Vm)
take_stack space vm = do
  (n, a) ← get_num_pages (vm.space space)
  ok ((n * page_size + 2 ^ 32 - 16) % 2 ^ 32, with_space space a vm)

-- `processLock->Acquire()` before the rest of a call; `none` is a call that sleeps there.
unfoldable pub locked : {A : Type 0} → ℕ → (Kernel → Result (Option A)) → Kernel → Result (Option A)
locked current rest s =
    let x = Locks.acquire current s.process_lock in
    if x.0 then rest (record s { process_lock = x.1 }) else ok none

-- `processLock->Release()`
unfoldable pub unlock : ℕ → Kernel → Kernel
unlock current s = let x = Locks.release current s.process_lock in record s { process_lock = x.1 }

-- The process and its space.
unfoldable pub add_process : ℕ → (ℕ → PageTableEntry) → NoffHeader → List ℕ → Kernel → Result Kernel
add_process space garbage noff_h executable s = do
  a ← new_addr_space garbage noff_h executable
  ok (record s {
    process_table = s.process_table ++ (new_process space ∷ []);
    vm = with_space space a s.vm;
  })

-- The first process is entered under the lock.
unfoldable pub add_first : ℕ → ℕ → ℕ → Kernel → Result (Option Kernel)
unfolding unlock
add_first current stack space s = ok (
    some (
      unlock current (record s {
        process_table = s.process_table ++ (push_stack current stack (new_process space) ∷ []);
      })))

-- `StartProcess` of userprog/progtest.cc: the first process, which thread `current` runs. No
-- other thread can see its space before it is in the table, so that the call is one step.
unfoldable pub start_process :
    ℕ → Option (NoffHeader × List ℕ) → ℕ → (ℕ → PageTableEntry) → Kernel → Result (Option Kernel)
unfolding locked unlock take_stack
start_process current none space garbage s = ok (some s)
start_process current (some (noff_h, executable)) space garbage s = do
  a ← new_addr_space garbage noff_h executable
  (stack, vm) ← take_stack space (with_space space a s.vm)
  locked current (add_first current stack space)
      (record s { vm = vm; space_of = λ t. if current == t then space else s.space_of t })

-- The first part of `Exec_Syscall` under the lock: `copied` is whether copyin could read the name, and `opened` what
-- `fileSystem->Open` returned for it.
unfoldable pub exec_locked :
    ℕ
    → Bool
    → Option (NoffHeader × List ℕ)
    → ℕ
    → (ℕ → PageTableEntry)
    → Kernel
    → Result (Option (ℤ × Kernel))
unfolding add_process unlock
exec_locked current copied opened space garbage s =
    if not copied then ok (some (minus_one, s)) else (elim opened [
      | none ↦ ok (some (minus_one, s))
      | some (noff_h, executable) ↦ (do
        s' ← add_process space garbage noff_h executable s
        ok (some (pos 0, unlock current s')))
    ])

-- `Exec_Syscall`, which may sleep twice, in three parts. The first ends with -1, which is what the call returns, or with 0, and the
-- call goes on:
unfoldable pub exec_syscall :
    ℕ
    → Bool
    → Option (NoffHeader × List ℕ)
    → ℕ
    → (ℕ → PageTableEntry)
    → Kernel
    → Result (Option (ℤ × Kernel))
unfolding locked exec_locked
exec_syscall current copied opened space garbage =
    locked current (exec_locked current copied opened space garbage)

-- the new thread gets its mailbox and its space, and a stack is taken out of the queue:
unfoldable pub exec_take : ℕ → ℕ → Kernel → Result (ℕ × Kernel)
unfolding take_stack
exec_take space thread s = do
  (stack, vm) ← take_stack space s.vm
  ok (
    stack,
    record s {
      vm = vm;
      space_of = λ t. if thread == t then space else s.space_of t;
      num_mail_box = s.num_mail_box + 1;
    },
  )

-- Under the lock again the stack is entered; then the thread is made ready.
unfoldable pub exec_locked_again : ℕ → ℕ → ℕ → ℕ → Kernel → Result (Option Kernel)
unfolding unlock
exec_locked_again current space thread stack s =
    let s' = unlock current (record s {
      process_table = update_process space (push_stack thread stack) s.process_table;
    }) in
    ok (some (record s' { ready = s'.ready ++ (thread ∷ []) }))

unfoldable pub exec_enter : ℕ → ℕ → ℕ → ℕ → Kernel → Result (Option Kernel)
unfolding locked exec_locked_again
exec_enter current space thread stack =
    locked current (exec_locked_again current space thread stack)

-- `Fork_Syscall` under the lock; `thread` is the new thread.
unfoldable pub add_thread : ℕ → ℕ → (ℕ → PageTableEntry) → Kernel → Result (Option Kernel)
unfolding unlock
add_thread current thread garbage s =
    let space = s.space_of current in
    ok (
      some (
        unlock current (record s {
          process_table =
              update_process space (λ p. record p { num_threads = p.num_threads + 1 })
                s.process_table;
          vm = allocate_stack garbage space s.vm;
          space_of = λ t. if thread == t then space else s.space_of t;
          ready = s.ready ++ (thread ∷ []);
        })))

unfoldable pub fork_syscall : ℕ → ℕ → (ℕ → PageTableEntry) → Kernel → Result (Option Kernel)
unfolding locked add_thread
fork_syscall current thread garbage = locked current (add_thread current thread garbage)

-- The stack of a new thread is entered under the lock.
unfoldable pub record_stack : ℕ → ℕ → Kernel → Result (Option Kernel)
unfolding unlock
record_stack current stack s = ok (
    some (
      unlock current (record s {
        process_table =
            update_process (s.space_of current) (push_stack current stack) s.process_table;
      })))

-- What a new thread does before it runs its program, in two parts, since it may sleep between them. First it
-- takes its stack out of the queue:
unfoldable pub fork_thread_take : ℕ → Kernel → Result (ℕ × Kernel)
unfolding take_stack
fork_thread_take current s = do
  (stack, vm) ← take_stack (s.space_of current) s.vm
  ok (stack, record s { vm = vm })

-- then it enters that stack in the table.
unfoldable pub fork_thread_enter : ℕ → ℕ → Kernel → Result (Option Kernel)
unfolding locked record_stack
fork_thread_enter current stack = locked current (record_stack current stack)

-- The search of `Exit_Syscall`; a pointer that is not set dangles.
unfoldable pub find_process : ℕ → List Process → Result Process
find_process space [] = fault dangling
find_process space (p ∷ ps) =
    let later = find_process space ps in if space == p.space then ok p else later

unfoldable pub find_stack : ℕ → List (ℕ × ℕ) → Result ℕ
find_stack thread [] = fault dangling
find_stack thread ((t, stack) ∷ v) =
    let later = find_stack thread v in if thread == t then ok stack else later

-- `threadStacks->erase(threadStacks->begin() + threadIndex)`
unfoldable pub erase_stack : ℕ → List (ℕ × ℕ) → List (ℕ × ℕ)
erase_stack thread [] = []
erase_stack thread ((t, stack) ∷ v) =
    let later = erase_stack thread v in if thread == t then v else (t, stack) ∷ later

unfoldable pub erase_process : ℕ → List Process → List Process
erase_process space [] = []
erase_process space (p ∷ ps) =
    let later = erase_process space ps in if space == p.space then ps else p ∷ later

abbrev pub leave_process : ℕ → Process → Process
leave_process thread p = record p {
  num_threads = p.num_threads - 1;
  thread_stacks = erase_stack thread p.thread_stacks;
}

-- `Exit_Syscall` of a thread that is not the last of its process.
unfoldable pub exit_thread : ℕ → Process → Kernel → Result (Option Kernel)
unfolding unlock
exit_thread current p s = do
  stack ← find_stack current p.thread_stacks
  vm ← clear_stack (s.space_of current) stack s.vm
  ok (
      some (
        unlock current (record s {
          vm = vm;
          process_table =
              update_process (s.space_of current) (leave_process current) s.process_table;
        })))

-- `Exit_Syscall` of the last thread of a process.
unfoldable pub exit_process : ℕ → Kernel → Result (Option Kernel)
unfolding unlock
exit_process current s = if length s.process_table == 1 then fault halted else (do
  vm ← clear_mem (s.space_of current) s.vm
  ok (
      some (
        unlock current (record s {
          vm = vm;
          process_table = erase_process (s.space_of current) s.process_table;
        }))))

unfoldable pub exit_locked : ℕ → Kernel → Result (Option Kernel)
unfolding exit_thread exit_process
exit_locked current s = do
  p ← find_process (s.space_of current) s.process_table
  if ltb 1 p.num_threads then exit_thread current p s else exit_process current s

-- `Exit_Syscall` up to `Finish`.
unfoldable pub exit_syscall : ℕ → Kernel → Result (Option Kernel)
unfolding locked exit_locked
exit_syscall current = locked current (exit_locked current)
