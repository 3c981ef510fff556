-- ===== src/Userprog/Dispatch/Tests.antt =====
-- Runs of the exception handler of userprog/exception.cc.
use project.Prelude.{ℕ, ◌+◌, ◌≡◌, refl, Result, ok, ◌>>=◌}
use project.Userprog.Dispatch.{Call, Registers, decode, advance, serve, exception_handler, syscall}

-- Register `i` holds `i`, so that its call is 2, and its program counters are 34 and 35.
abbrev registers : Registers
registers i = i

-- Every call returns 7.
abbrev seven : Call → ℕ → Result (ℕ × ℕ)
seven c k = ok (7, k + 1)

abbrev served : Result ((ℕ × ℕ) × (ℕ × ℕ))
served = do
  (r, k) ← exception_handler seven (λ k. ok k) syscall registers 0
  ok ((r 2, r 34), (r 35, k))

served_test : served ≡ ok ((7, 35), (39, 1))
unfolding exception_handler serve decode advance
served_test = refl
