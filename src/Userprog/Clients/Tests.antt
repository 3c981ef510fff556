-- ===== src/Userprog/Clients/Tests.antt =====
-- Runs of the system calls of userprog/exception.cc that ask a server.
use native.Mathlib.Omega.{arith}
use project.Prelude.{ℕ, ◌≡◌, refl, List, [], ◌∷◌, some, true, pos, ok, fault, dangling, Returns}
use project.Network.Server.Requests.{arg}
use project.Network.Server.Handlers.{
  on_create_lock, on_create_cv, on_create_mv, on_acquire, on_release, on_destroy_lock, on_wait,
  on_signal, on_broadcast, on_destroy_cv, on_set_mv, on_get_mv, read_size,
}
use project.Userprog.Clients.{
  Client, name_bytes, create_lock_syscall, create_condition_syscall, create_mv_syscall,
  acquire_syscall, release_syscall, destroy_lock_syscall, wait_syscall, signal_syscall,
  broadcast_syscall, destroy_condition_syscall, set_mv_syscall, get_mv_syscall, destroy_mv_syscall,
}
use project.Userprog.Clients.Requests.{
  request_of, HandledBy, Sends, Names, lock_calls-arrive, condition_calls-arrive,
  create_calls-arrive, variable_calls-arrive,
}

abbrev client : Client
client = record { net_addr = 3; mail_box = 2; num_servers = 2; num_boxes = 10 }

abbrev lock_name : List ℕ
lock_name = 108 ∷ 111 ∷ []

create_lock_test :
    create_lock_syscall client 5 true (9 ∷ []) (some lock_name) (pos 1)
    ≡ ok (
      some (record {
        to_machine = 1;
        to_box = 0;
        from_machine = 3;
        from_box = 2;
        bytes = 0 ∷ 4 ∷ 108 ∷ 111 ∷ 32 ∷ 49 ∷ [];
      }),
      pos 9,
    )
unfolding create_lock_syscall
create_lock_test = refl

-- The call writes its answer into memory that it has given back.
destroy_mv_test : destroy_mv_syscall client 5 true (pos 1) ≡ fault dangling
unfolding destroy_mv_syscall
destroy_mv_test = refl

create_calls-arrive_example :
    Returns
      (Sends (λ m. HandledBy on_create_lock m × Names (name_bytes lock_name (pos 1)) m))
      (create_lock_syscall client 5 true (9 ∷ []) (some lock_name) (pos 1))
    × Returns
        (Sends (λ m. HandledBy on_create_cv m × Names (name_bytes lock_name (pos 1)) m))
        (create_condition_syscall client 5 true (9 ∷ []) (some lock_name) (pos 1))
    × Returns
        (Sends (λ m.
          HandledBy on_create_mv m
          × Names (name_bytes lock_name (pos 1)) m
          × (read_size (request_of m) (arg (request_of m) 1) ≡ ok (pos 7))))
        (create_mv_syscall client 5 true (9 ∷ []) (some lock_name) (pos 7) (pos 1))
create_calls-arrive_example =
    create_calls-arrive client 5 7 true (9 ∷ []) lock_name (pos 1) (omega arith) (omega arith)
      (omega arith)

lock_calls-arrive_example :
    Returns
      (λ m. HandledBy on_acquire m × (arg (request_of m) 1 ≡ pos 4))
      (acquire_syscall client 0 4)
    × Returns
        (λ m. HandledBy on_release m × (arg (request_of m) 1 ≡ pos 4))
        (release_syscall client 0 4)
    × Returns
        (λ m. HandledBy on_destroy_lock m × (arg (request_of m) 1 ≡ pos 4))
        (destroy_lock_syscall client 0 4)
lock_calls-arrive_example = lock_calls-arrive client 0 4 (omega arith) (omega arith)

condition_calls-arrive_example :
    Returns
      (λ m. HandledBy on_wait m × (arg (request_of m) 1 ≡ pos 6) × (arg (request_of m) 2 ≡ pos 4))
      (wait_syscall client 0 6 4)
    × Returns
        (λ m.
          HandledBy on_signal m × (arg (request_of m) 1 ≡ pos 6) × (arg (request_of m) 2 ≡ pos 4))
        (signal_syscall client 0 6 4)
    × Returns
        (λ m.
          HandledBy on_broadcast m
          × (arg (request_of m) 1 ≡ pos 6)
          × (arg (request_of m) 2 ≡ pos 4))
        (broadcast_syscall client 0 6 4)
    × Returns
        (λ m. HandledBy on_destroy_cv m × (arg (request_of m) 1 ≡ pos 6))
        (destroy_condition_syscall client 0 6)
condition_calls-arrive_example =
    condition_calls-arrive client 0 6 4 (omega arith) (omega arith) (omega arith)

variable_calls-arrive_example :
    Returns
      (λ m.
        HandledBy on_set_mv m
        × (arg (request_of m) 1 ≡ pos 1)
        × (arg (request_of m) 2 ≡ pos 2)
        × (arg (request_of m) 3 ≡ pos 3))
      (set_mv_syscall client 0 (pos 1) (pos 2) (pos 3))
    × Returns
        (Sends (λ m.
          HandledBy on_get_mv m × (arg (request_of m) 1 ≡ pos 1) × (arg (request_of m) 2 ≡ pos 2)))
        (get_mv_syscall client 0 true (8 ∷ []) (pos 1) (pos 2))
variable_calls-arrive_example =
    variable_calls-arrive client 0 1 2 3 true (8 ∷ []) (omega arith) (omega arith) (omega arith)
      (omega arith)
