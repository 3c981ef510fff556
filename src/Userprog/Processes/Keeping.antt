-- ===== src/Userprog/Processes/Keeping.antt =====
-- userprog/exception.cc: Exec, Fork and Exit, and the stacks of the threads; the threads that sleep in them.
use project.Prelude.{
  ℕ, suc, ◌+◌, ◌*◌, ◌%◌, ◌^◌, ◌≤◌, ◌<◌, ◌≡◌, refl, sym, ap, subst, ◌∙◌, List, [], ◌∷◌, ◌++◌, Option,
  none, some, Bool, true, false, ltb, ◌==◌, if◌then◌else◌, length, Result, ok, assertion, check,
  inl, inr, Bool-cases, arith, Holds, Holds-each, Holds-bind, Holds-implies,
}
use project.Threads.Locks
use project.Threads.Locks.{Lock}
use project.Userprog.BitMap.{div_round_up}
use project.Userprog.Paging.State.{Vm, AddrSpace, PageTableEntry, page_size, with_space}
use project.Userprog.Paging.Spaces.{
  NoffHeader, noffmagic, new_addr_space, allocate_stack, clear_stack, clear_mem_from, clear_mem,
}
use project.Userprog.Processes.{
  Process, Kernel, new_process, find_process, find_stack, erase_stack, push_stack, leave_process,
  take_stack, add_process, locked, unlock, exec_locked, add_first, start_process, exec_syscall,
  add_thread, fork_syscall, record_stack, fork_thread_take, fork_thread_enter, exec_take,
  exec_enter, exec_locked_again, update_process, exit_thread, exit_process, exit_locked,
  exit_syscall,
}
use project.Userprog.Processes.Stacks.{
  covers, Fits, Fits-fork, Fits-take, Fits-enter, Fits-push, Fits-leave, Fits-new,
  length-erase_stack,
}
use project.Userprog.Processes.Settlement.{
  Holdings, Fresh, Settled, OnlyAt, Settled-elsewhere, Settled-update, Settled-change,
  Settled-erase, Settled-append,
}
use project.Userprog.Processes.Sizes.{
  SameSize, self_eq, clear_mem_from-SameSize, clear_stack-SameSize, allocate_stack-sizes, Taken,
  take_stack-Taken,
}

-- The threads that have taken a stack and are not back from `processLock->Acquire()`: thread, space, stack.
abbrev pub Sleepers : Type 0
Sleepers = List (ℕ × ℕ × ℕ)

-- The stacks of a space that they have taken.
unfoldable pub taken_in : ℕ → Sleepers → List ℕ
taken_in a [] = []
taken_in a ((thread, b, stack) ∷ w) =
    let later = taken_in a w in if a == b then stack ∷ later else later

abbrev pub holdings : Vm → Sleepers → Holdings
holdings vm w a = (vm.space a, taken_in a w)

-- The processes of a kernel, their spaces and the sleepers.
abbrev pub Good : Sleepers → Kernel → Type 0
Good w s = Settled (holdings s.vm w) s.process_table

elsewhere :
    (a : ℕ) (w : Sleepers) (s t : Vm)
    → OnlyAt a s.space t.space
    → OnlyAt a (holdings s w) (holdings t w)
elsewhere a w s t o b e = ap (λ x. (x, taken_in b w)) (o b e)

-- What holds of the result of a call, if it does not sleep.
abbrev pub Done : {A : Type 0} → (A → Type 0) → Option A → Type 0
Done P none = Unit
Done P (some x) = P x

abbrev AllGood : Sleepers → Option Kernel → Type 0
AllGood w = Done (Good w)

locked-Done :
    {A : Type 0} (P : A → Type 0) (current : ℕ) (rest : Kernel → Result (Option A)) (s : Kernel)
    → ((l : Lock) → Holds (Done P) (rest (record s { process_lock = l })))
    → Holds (Done P) (locked current rest s)
unfolding locked
locked-Done P current rest s f = elim (Bool-cases (Locks.acquire current s.process_lock).0) [
  | inl e ↦ rw e (f (Locks.acquire current s.process_lock).1)
  | inr e ↦ rw e tt
]

-- The thread that takes a stack is a sleeper.
take_stack-Good :
    (thread a : ℕ) (w : Sleepers) (s : Kernel)
    → Good w s
    → Holds
        (λ (x : ℕ × Vm). Settled (holdings x.1 ((thread, a, x.0) ∷ w)) s.process_table)
        (take_stack a s.vm)
unfolding taken_in
take_stack-Good thread a w s g =
    Holds-implies {A = ℕ × Vm} {P = Taken a s.vm}
      {Q = λ x. Settled (holdings x.1 ((thread, a, x.0) ∷ w)) s.process_table} (take_stack a s.vm)
      (λ (stack, vm) (n, rest, e, q, o, m, r).
        let w' : Sleepers = (thread, a, stack) ∷ w in
        let here : taken_in a w' ≡ stack ∷ taken_in a w = rw (self_eq a) refl in
        Settled-change a (holdings s.vm w) (holdings vm w') s.process_table
          (λ b f.
            let other : (b == a) ≡ false = ground (arith, f) in
            rw other (elsewhere a w s.vm vm o b f))
          (λ p fits.
            subst (λ l. Fits p (vm.space a, l)) (sym here)
              (subst (λ x. Fits p (vm.space a, x ∷ taken_in a w)) (sym e)
                (Fits-take n rest p (s.vm.space a) (vm.space a) (taken_in a w) q m r fits)))
          g)
      (take_stack-Taken a s.vm)

pub fork_thread_take-Good :
    (current : ℕ) (w : Sleepers) (s : Kernel)
    → Good w s
    → Holds
        (λ (x : ℕ × Kernel). Good ((current, s.space_of current, x.0) ∷ w) x.1)
        (fork_thread_take current s)
unfolding fork_thread_take
fork_thread_take-Good current w s g =
    let a = s.space_of current in
    Holds-bind {A = ℕ × Vm} {B = ℕ × Kernel} (λ x. Good ((current, a, x.0) ∷ w) x.1)
      (λ x. Settled (holdings x.1 ((current, a, x.0) ∷ w)) s.process_table) (take_stack a s.vm) _
      (take_stack-Good current a w s g) (λ x h. h)

pub exec_take-Good :
    (space thread : ℕ) (w : Sleepers) (s : Kernel)
    → Good w s
    → Holds (λ (x : ℕ × Kernel). Good ((thread, space, x.0) ∷ w) x.1) (exec_take space thread s)
unfolding exec_take
exec_take-Good space thread w s g =
    Holds-bind {A = ℕ × Vm} {B = ℕ × Kernel} (λ x. Good ((thread, space, x.0) ∷ w) x.1)
      (λ x. Settled (holdings x.1 ((thread, space, x.0) ∷ w)) s.process_table)
      (take_stack space s.vm) _ (take_stack-Good thread space w s g) (λ x h. h)

-- A sleeper is taken out.
taken_in-out :
    (a b thread stack : ℕ) (pre post : Sleepers)
    → (x : ℕ)
    → covers x (taken_in b (pre ++ ((thread, a, stack) ∷ post)))
      ≡ (if a == b then covers x (stack ∷ []) else 0) + covers x (taken_in b (pre ++ post))
unfolding covers taken_in
taken_in-out a b thread stack [] post x = elim (Bool-cases (a == b)) [
  | inl e ↦ let f : (b == a) ≡ true = ground arith in rw (e, f) (omega arith)
  | inr e ↦ let f : (b == a) ≡ false = ground arith in rw (e, f) (omega arith)
]
taken_in-out a b thread stack ((t, c, r) ∷ pre) post x = elim (Bool-cases (b == c)) [
  | inl e ↦ rw e (omega (arith, taken_in-out a b thread stack pre post x))
  | inr e ↦ rw e (taken_in-out a b thread stack pre post x)
]

length-taken_in-out :
    (a thread stack : ℕ) (pre post : Sleepers)
    → length (taken_in a (pre ++ ((thread, a, stack) ∷ post)))
      ≡ suc (length (taken_in a (pre ++ post)))
unfolding taken_in
length-taken_in-out a thread stack [] post = rw (self_eq a) refl
length-taken_in-out a thread stack ((t, c, r) ∷ pre) post = elim (Bool-cases (a == c)) [
  | inl e ↦ rw e (ap suc (length-taken_in-out a thread stack pre post))
  | inr e ↦ rw e (length-taken_in-out a thread stack pre post)
]

taken_in-other :
    (a b thread stack : ℕ) (pre post : Sleepers)
    → (a == b) ≡ false
    → taken_in b (pre ++ post) ≡ taken_in b (pre ++ ((thread, a, stack) ∷ post))
unfolding taken_in
taken_in-other a b thread stack [] post n =
    let other : (b == a) ≡ false = ground (arith, n) in rw other refl
taken_in-other a b thread stack ((t, c, r) ∷ pre) post n = elim (Bool-cases (b == c)) [
  | inl e ↦ rw e (ap (λ l. r ∷ l) (taken_in-other a b thread stack pre post n))
  | inr e ↦ rw e (taken_in-other a b thread stack pre post n)
]

-- A sleeper enters its stack.
enter-Good :
    (a thread stack : ℕ) (pre post : Sleepers) (s : Kernel)
    → Good (pre ++ ((thread, a, stack) ∷ post)) s
    → Settled
        (holdings s.vm (pre ++ post))
        (update_process a (push_stack thread stack) s.process_table)
unfolding covers
enter-Good a thread stack pre post s g =
    let w : Sleepers = pre ++ ((thread, a, stack) ∷ post) in
    Settled-update a (push_stack thread stack) (λ p. refl) (holdings s.vm w)
      (holdings s.vm (pre ++ post)) s.process_table
      (λ b n. ap (λ t. (s.vm.space b, t)) (taken_in-other a b thread stack pre post n))
      (λ p f e fits.
        Fits-enter thread stack p (s.vm.space a) (taken_in a w) (taken_in a (pre ++ post)) entered
          (length-taken_in-out a thread stack pre post) fits)
      g
  where
    entered :
        (x : ℕ)
        → covers x (taken_in a (pre ++ ((thread, a, stack) ∷ post)))
          ≡ covers x (stack ∷ taken_in a (pre ++ post))
    entered x = taken_in-out a a thread stack pre post x ∙ rw (self_eq a) (omega arith)

pub fork_thread_enter-Good :
    (current stack : ℕ) (pre post : Sleepers) (s : Kernel)
    → Good (pre ++ ((current, s.space_of current, stack) ∷ post)) s
    → Holds (AllGood (pre ++ post)) (fork_thread_enter current stack s)
unfolding fork_thread_enter record_stack unlock
fork_thread_enter-Good current stack pre post s g =
    locked-Done (Good (pre ++ post)) current (record_stack current stack) s
      λ l. enter-Good (s.space_of current) current stack pre post s g

pub exec_enter-Good :
    (current space thread stack : ℕ) (pre post : Sleepers) (s : Kernel)
    → Good (pre ++ ((thread, space, stack) ∷ post)) s
    → Holds (AllGood (pre ++ post)) (exec_enter current space thread stack s)
unfolding exec_enter exec_locked_again unlock
exec_enter-Good current space thread stack pre post s g =
    locked-Done (Good (pre ++ post)) current (exec_locked_again current space thread stack) s
      λ l. enter-Good space thread stack pre post s g

ok_injective : (p q : Process) → ok p ≡ ok q → p ≡ q
ok_injective p q e = cc

-- The sizes in the header of an executable, and its stack, add up to less than the 2 ^ 32 bytes that an address has.
abbrev pub Small : NoffHeader → Type 0
Small noff_h = noff_h.code_size + noff_h.init_data_size + noff_h.uninit_data_size + 2048 < 2 ^ 32

abbrev pub AllSmall : Option (NoffHeader × List ℕ) → Type 0
AllSmall none = Unit
AllSmall (some (noff_h, executable)) = Small noff_h

pages_fit :
    (size : ℕ)
    → size + 2048 < 2 ^ 32
    → (8 ≤ div_round_up size page_size + div_round_up 1024 page_size)
      × ((div_round_up size page_size + div_round_up 1024 page_size) * page_size < 2 ^ 32)
pages_fit size h = (ground arith, ground arith)

-- A new address space has its stack in the queue.
new_addr_space-stack :
    (garbage : ℕ → PageTableEntry) (noff_h : NoffHeader) (executable : List ℕ)
    → Small noff_h
    → Holds
        (λ a.
          (a.num_page_queue ≡ a.num_pages ∷ [])
          × (8 ≤ a.num_pages)
          × (a.num_pages * page_size < 2 ^ 32))
        (new_addr_space garbage noff_h executable)
unfolding new_addr_space
new_addr_space-stack garbage noff_h executable small =
    Holds-each _ (check (noff_h.noff_magic == noffmagic) assertion) _ λ u e.
      let (low, high) =
        pages_fit ((noff_h.code_size + noff_h.init_data_size + noff_h.uninit_data_size) % 2 ^ 32)
          (omega arith) in
      (refl, low, high)

module _ (w : Sleepers) where
  pub fork_syscall-Good :
      (current thread : ℕ) (garbage : ℕ → PageTableEntry) (s : Kernel)
      → ((s.vm.space (s.space_of current)).num_pages + 8) * page_size < 2 ^ 32
      → Good w s
      → Holds (AllGood w) (fork_syscall current thread garbage s)
  unfolding fork_syscall add_thread unlock
  fork_syscall-Good current thread garbage s small g =
      locked-Done (Good w) current (add_thread current thread garbage) s λ l.
        let a = s.space_of current in
        let (o, n, q) = allocate_stack-sizes garbage a s.vm in
        Settled-update a (λ p. record p { num_threads = p.num_threads + 1 }) (λ p. refl)
          (holdings s.vm w) (holdings (allocate_stack garbage a s.vm) w) s.process_table
          (elsewhere a w s.vm (allocate_stack garbage a s.vm) o)
          (λ p f e fits.
            Fits-fork p (s.vm.space a) ((allocate_stack garbage a s.vm).space a) (taken_in a w)
              small n q fits)
          g

  exit_thread-Good :
      (current : ℕ) (p : Process) (s : Kernel)
      → find_process (s.space_of current) s.process_table ≡ ok p
      → Good w s
      → Holds (AllGood w) (exit_thread current p s)
  unfolding exit_thread unlock
  exit_thread-Good current p s e g =
      Holds-bind (AllGood w)
        (λ k. length p.thread_stacks ≡ length (erase_stack current p.thread_stacks) + 1)
        (find_stack current p.thread_stacks) _ (length-erase_stack current p.thread_stacks)
        λ stack l.
          Holds-bind {A = Vm} (AllGood w) (SameSize (s.space_of current) s.vm)
            (clear_stack (s.space_of current) stack s.vm) _
            (clear_stack-SameSize (s.space_of current) stack s.vm)
            λ vm (o, n, q).
              Settled-update (s.space_of current) (leave_process current) (λ p. refl)
                (holdings s.vm w) (holdings vm w) s.process_table
                (elsewhere (s.space_of current) w s.vm vm o)
                (λ p' f a fits.
                  Fits-leave current p' (s.vm.space (s.space_of current))
                    (vm.space (s.space_of current)) (taken_in (s.space_of current) w) n q
                    (subst
                      (λ x.
                        length x.thread_stacks ≡ length (erase_stack current x.thread_stacks) + 1)
                      (ok_injective p p' (sym e ∙ f)) l)
                    fits)
                g

  exit_process-Good :
      (current : ℕ) (s : Kernel) → Good w s → Holds (AllGood w) (exit_process current s)
  unfolding exit_process unlock clear_mem
  exit_process-Good current s g = elim (Bool-cases (length s.process_table == 1)) [
    | inl e ↦ rw e tt
    | inr e ↦ rw e (
        Holds-bind {A = Vm} (AllGood w) (SameSize (s.space_of current) s.vm)
          (clear_mem_from (s.space_of current) (s.vm.space (s.space_of current)).num_pages 0 s.vm) _
          (clear_mem_from-SameSize (s.space_of current) (s.vm.space (s.space_of current)).num_pages
            0 s.vm)
          λ vm (o, n, q).
            Settled-erase (s.space_of current) (holdings s.vm w) (holdings vm w) s.process_table
              (elsewhere (s.space_of current) w s.vm vm o) g)
  ]

  pub exit_syscall-Good :
      (current : ℕ) (s : Kernel) → Good w s → Holds (AllGood w) (exit_syscall current s)
  unfolding exit_syscall exit_locked
  exit_syscall-Good current s g = locked-Done (Good w) current (exit_locked current) s λ l.
      Holds-each (AllGood w) (find_process (s.space_of current) s.process_table) _ λ p e.
        elim (Bool-cases (ltb 1 p.num_threads)) [
          | inl m ↦ rw m (exit_thread-Good current p (record s { process_lock = l }) e g)
          | inr m ↦ rw m (exit_process-Good current (record s { process_lock = l }) g)
        ]

  new_process-Fits :
      (space : ℕ) (a : AddrSpace) (s : Kernel)
      → taken_in space w ≡ []
      → a.num_page_queue ≡ a.num_pages ∷ []
      → 8 ≤ a.num_pages
      → a.num_pages * page_size < 2 ^ 32
      → Fits (new_process space) (holdings (with_space space a s.vm) w space)
  new_process-Fits space a s none_taken q n h =
      let here : (with_space space a s.vm).space space ≡ a = rw (self_eq space) refl in
      rw (here, none_taken) (Fits-new (new_process space) a refl refl q n h)

  add_process-Good :
      (space : ℕ) (garbage : ℕ → PageTableEntry) (noff_h : NoffHeader) (executable : List ℕ)
      (s : Kernel)
      → Fresh space s.process_table
      → taken_in space w ≡ []
      → Small noff_h
      → Good w s
      → Holds (Good w) (add_process space garbage noff_h executable s)
  unfolding add_process
  add_process-Good space garbage noff_h executable s f none_taken small g =
      Holds-bind {A = AddrSpace} (Good w) _ (new_addr_space garbage noff_h executable) _
        (new_addr_space-stack garbage noff_h executable small)
        λ a (q, n, h).
          let vm' = with_space space a s.vm in
          Settled-append (holdings vm' w) s.process_table (new_process space) f
            (new_process-Fits space a s none_taken q n h)
            (Settled-elsewhere space (holdings s.vm w) (holdings vm' w) s.process_table
              (elsewhere space w s.vm vm' (λ b c. rw c refl)) f g)

  pub start_process-Good :
      (current : ℕ) (opened : Option (NoffHeader × List ℕ)) (space : ℕ)
      (garbage : ℕ → PageTableEntry) (s : Kernel)
      → Fresh space s.process_table
      → taken_in space w ≡ []
      → AllSmall opened
      → Good w s
      → Holds (Done (Good w)) (start_process current opened space garbage s)
  unfolding start_process add_first unlock
  start_process-Good current none space garbage s f none_taken small g = g
  start_process-Good current (some (noff_h, executable)) space garbage s f none_taken small g =
      Holds-bind {A = AddrSpace} (Done (Good w)) _ (new_addr_space garbage noff_h executable) _
        (new_addr_space-stack garbage noff_h executable small)
        λ a (q, n, h).
          Holds-bind {A = ℕ × Vm} (Done (Good w)) (Taken space (with_space space a s.vm))
            (take_stack space (with_space space a s.vm)) _
            (take_stack-Taken space (with_space space a s.vm))
            λ (stack, vm) (k, rest, e, q', o, m, r).
              let vm' = with_space space a s.vm in
              locked-Done (Good w) current (add_first current stack space) _ λ l.
                Settled-append (holdings vm w) s.process_table
                  (push_stack current stack (new_process space)) f
                  (subst
                    (λ x.
                      Fits (push_stack current x (new_process space))
                        (vm.space space, taken_in space w))
                    (sym e)
                    (Fits-push current k rest (new_process space) (vm'.space space) (vm.space space)
                      (taken_in space w) q' m r (new_process-Fits space a s none_taken q n h)))
                  (Settled-elsewhere space (holdings s.vm w) (holdings vm w) s.process_table
                    (elsewhere space w s.vm vm (λ b c. o b c ∙ rw c refl)) f g)

  pub exec_syscall-Good :
      (current : ℕ) (copied : Bool) (opened : Option (NoffHeader × List ℕ)) (space : ℕ)
      (garbage : ℕ → PageTableEntry) (s : Kernel)
      → Fresh space s.process_table
      → taken_in space w ≡ []
      → AllSmall opened
      → Good w s
      → Holds (Done (λ x. Good w x.1)) (exec_syscall current copied opened space garbage s)
  unfolding exec_syscall exec_locked unlock
  exec_syscall-Good current copied opened space garbage s f none_taken small g =
      locked-Done (λ x. Good w x.1) current (exec_locked current copied opened space garbage) s
        λ l. elim (Bool-cases copied) [ inl c ↦ rw c (by_file opened small l) | inr c ↦ rw c g ]
    where
      by_file :
          (o : Option (NoffHeader × List ℕ))
          → AllSmall o
          → (l : Lock)
          → Holds
              (Done (λ x. Good w x.1))
              (exec_locked current true o space garbage (record s { process_lock = l }))
      by_file none h l = g
      by_file (some (noff_h, executable)) h l =
          Holds-bind (Done (λ x. Good w x.1)) (Good w)
            (add_process space garbage noff_h executable (record s { process_lock = l })) _
            (add_process-Good space garbage noff_h executable (record s { process_lock = l }) f
              none_taken h g)
            λ t h. h
