-- ===== src/Userprog/Processes/Tests.antt =====
-- Runs of Exec, Fork and Exit of userprog/exception.cc.
use project.Prelude.{
  ℕ, ◌≡◌, refl, List, [], ◌∷◌, replicate, Option, none, some, true, false, ℤ, pos, minus_one,
  Result, ok, fault, arith,
}
use project.Threads.Locks
use project.Userprog.BitMap.{clear, word_at}
use project.Userprog.Paging.State.{PageTableEntry}
use project.Userprog.Paging.Spaces.{
  NoffHeader, new_addr_space, get_num_pages, allocate_stack, restore_state, free_page,
  clear_stack_from, clear_stack,
}
use project.Userprog.Processes.{
  exec_take, exec_enter, exec_locked_again, Kernel, update_process, find_process, find_stack,
  erase_stack, take_stack, add_process, locked, unlock, exec_locked, exec_syscall, add_thread,
  fork_syscall, record_stack, fork_thread_take, fork_thread_enter, exit_thread, exit_locked,
  exit_syscall,
}
use project.Userprog.Processes.Settlement.{Settled, Fresh}
use project.Userprog.Processes.Keeping.{holdings, taken_in}
use project.Userprog.Processes.Calls.{
  exec_taking, exec_entering, executing, forking, taking, entering, exiting, Reachable, start,
  after, stacks_apart,
}
use project.Userprog.Processes.Failures.{held_by, exec_syscall_blocks}

-- What `new` leaves in the entries of a page table.
abbrev garbage : ℕ → PageTableEntry
garbage i = record {
  entry = record {
    virtual_page = 0;
    physical_page = i;
    valid = false;
    read_only = false;
    in_use = false;
    dirty = false;
  };
  location = 0;
  byte_offset = 0;
  swap_location = 0;
}

abbrev program : NoffHeader × List ℕ
program = (
  record { noff_magic = 0xbadfad; code_size = 100; init_data_size = 0; uninit_data_size = 0 },
  [],
)

abbrev boot : Kernel
boot = record {
  process_table = [];
  process_lock = Locks.new_lock;
  vm = record {
    ipt = λ p. record { entry = (garbage 0).entry; owner = 0 };
    tlb = λ i. (garbage 0).entry;
    current_ipt = 0;
    current_tlb = 0;
    main_memory = λ x. 0;
    swap_file = λ x. 0;
    main_memory_bit_map = record { num_bits = 256; num_words = 8; map = replicate 8 0 };
    swap_file_bit_map = record { num_bits = 40; num_words = 2; map = 0 ∷ 0 ∷ [] };
    space =
        λ a. record { page_table = garbage; num_pages = 0; num_page_queue = []; executable = [] };
    current_space = 0;
    page_table_size = 0;
    p_rand = false;
  };
  space_of = λ t. 0;
  num_mail_box = 0;
  ready = [];
}

abbrev returned : Result (Option Kernel) → Kernel
returned (ok (some s)) = s
returned (ok none) = boot
returned (fault e) = boot

abbrev after_take : Result (ℕ × Kernel) → Kernel
after_take (ok (stack, s)) = s
after_take (fault e) = boot

abbrev created : Result (Option (ℤ × Kernel)) → Kernel
created (ok (some (v, s))) = s
created (ok none) = boot
created (fault e) = boot

-- Thread 0 runs a program in space 5 as thread 1, which forks thread 2.
abbrev opened : Kernel
opened = created (exec_syscall 0 true (some program) 5 garbage boot)

abbrev ready_to_enter : Kernel
ready_to_enter = after_take (exec_take 5 1 opened)

abbrev executed : Kernel
executed = returned (exec_enter 0 5 1 1136 ready_to_enter)

abbrev forked : Kernel
forked = returned (fork_syscall 1 2 garbage executed)

-- Thread 2 has taken its stack, and thread 1 exits before it is entered.
abbrev taken : Kernel
taken = after_take (fork_thread_take 2 forked)

abbrev left : Kernel
left = returned (exit_syscall 1 taken)

abbrev entered : Kernel
entered = returned (fork_thread_enter 2 2160 left)

-- Thread 2 is left, with the stack that was made for it.
left_test :
    Reachable ((2, 5, 2160) ∷ []) left
    × Reachable [] entered
    × (entered.process_table
        ≡ record { space = 5; num_threads = 1; thread_stacks = (2, 2160) ∷ [] } ∷ [])
unfolding exec_syscall exec_locked exec_take exec_enter exec_locked_again fork_syscall
    fork_thread_take fork_thread_enter exit_syscall exit_locked locked Locks.acquire Locks.release
    Locks.is_held_by Locks.pass_on new_addr_space add_process add_thread record_stack exit_thread
    take_stack get_num_pages allocate_stack restore_state clear_stack clear_stack_from free_page
    clear word_at update_process find_process find_stack erase_stack unlock Fresh taken_in
left_test = (
  left_reached,
  after left_reached (entering {s = left} {t = entered} 2 2160 [] [] refl refl refl),
  refl,
)
  where
    left_reached : Reachable ((2, 5, 2160) ∷ []) left
    left_reached =
        after
          (after
            (after
              (after
                (after
                  (after (start {s = boot} refl) (
                    executing {s = boot} {t = opened} 0 true (some program) 5 garbage (pos 0) tt
                      refl (omega arith) refl))
                  (exec_taking {s = opened} {t = ready_to_enter} 5 1 1136 refl))
                (exec_entering {s = ready_to_enter} {t = executed} 0 5 1 1136 [] [] refl refl refl))
              (forking {s = executed} {t = forked} 1 2 garbage (omega arith) refl))
            (taking {s = forked} {t = taken} 2 2160 refl))
          (exiting {s = taken} {t = left} 1 refl)

stacks_apart_example : Settled (holdings left.vm ((2, 5, 2160) ∷ [])) left.process_table
stacks_apart_example = stacks_apart left_test.0

-- Thread 0 has failed to run a program.
abbrev failed : Kernel
failed = record boot { process_lock = held_by 0 Locks.new_lock }

exec_syscall_blocks_example :
    (t : Kernel) × (exec_syscall 0 true none 5 garbage boot ≡ ok (some (minus_one, t)))
    × (t.process_lock ≡ held_by 0 Locks.new_lock)
    × (exec_syscall 1 true (some program) 5 garbage failed ≡ ok none)
    × (fork_syscall 1 2 garbage failed ≡ ok none)
    × (exit_syscall 1 failed ≡ ok none)
    × (fork_thread_enter 1 2160 failed ≡ ok none)
    × (exec_enter 1 5 2 2160 failed ≡ ok none)
exec_syscall_blocks_example =
    exec_syscall_blocks 0 1 true true (some program) 5 2 2160 garbage boot failed refl refl refl
      refl
