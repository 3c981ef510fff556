-- ===== src/Userprog/Dispatch.antt =====
-- userprog/exception.cc: `ExceptionHandler`: which call a number stands for, and what becomes of the registers. A
-- register is a 32-bit word.
use project.Prelude.{
  ℕ, zero, suc, ◌+◌, ◌%◌, ◌^◌, ◌==◌, if◌then◌else◌, Result, ok, fault, halted, ◌>>=◌,
}
mod Tests

-- The calls, with their arguments from registers 4 to 7 on.
pub data Call : Type 0 where
  sc_halt sc_yield sc_get_id : Call
  sc_exit sc_print_int sc_close sc_destroy_lock sc_acquire sc_release sc_destroy_condition
        sc_destroy_mv :
      ℕ → Call
  sc_exec sc_create sc_open_file sc_wait sc_signal sc_broadcast sc_print sc_get_mv : ℕ → ℕ → Call
  sc_write sc_read sc_create_lock sc_create_condition sc_set_mv : ℕ → ℕ → ℕ → Call
  sc_fork sc_create_mv : ℕ → ℕ → ℕ → ℕ → Call

abbrev pub Registers : Type 0
Registers = ℕ → ℕ

abbrev pub pc_reg : ℕ
pc_reg = 34

abbrev pub next_pc_reg : ℕ
next_pc_reg = 35

abbrev pub prev_pc_reg : ℕ
prev_pc_reg = 36

-- The `switch`, on the numbers of syscall.h; a number that is no call halts, and so does 3, which is Join.
unfoldable pub decode : Registers → ℕ → Call
decode r n =
    if n == 1
    then sc_exit (r 4)
    else if n == 2
    then sc_exec (r 4) (r 5)
    else if n == 4
    then sc_create (r 4) (r 5)
    else if n == 5
    then sc_open_file (r 4) (r 5)
    else if n == 6
    then sc_read (r 4) (r 5) (r 6)
    else if n == 7
    then sc_write (r 4) (r 5) (r 6)
    else if n == 8
    then sc_close (r 4)
    else if n == 9
    then sc_fork (r 4) (r 5) (r 6) (r 7)
    else if n == 10
    then sc_yield
    else if n == 11
    then sc_create_lock (r 4) (r 5) (r 6)
    else if n == 12
    then sc_destroy_lock (r 4)
    else if n == 13
    then sc_acquire (r 4)
    else if n == 14
    then sc_release (r 4)
    else if n == 15
    then sc_create_condition (r 4) (r 5) (r 6)
    else if n == 16
    then sc_destroy_condition (r 4)
    else if n == 17
    then sc_wait (r 4) (r 5)
    else if n == 18
    then sc_signal (r 4) (r 5)
    else if n == 19
    then sc_broadcast (r 4) (r 5)
    else if n == 20
    then sc_print (r 4) (r 5)
    else if n == 21
    then sc_print_int (r 4)
    else if n == 22
    then sc_get_id
    else if n == 23
    then sc_create_mv (r 4) (r 5) (r 6) (r 7)
    else if n == 24
    then sc_destroy_mv (r 4)
    else if n == 25
    then sc_set_mv (r 4) (r 5) (r 6)
    else if n == 26
    then sc_get_mv (r 4) (r 5)
    else sc_halt

-- The exceptions that are told apart.
pub data Exception : Type 0 where
  syscall page_fault unexpected : Exception

-- `machine->WriteRegister(i, v)`
abbrev pub write_register : ℕ → ℕ → Registers → Registers
write_register i v r j = if i == j then v else r j

-- The result is put into register 2, and the program counters move on.
unfoldable pub advance : ℕ → Registers → Registers
advance rv r =
    let r1 = write_register 2 rv r in
    let r2 = write_register prev_pc_reg (r1 pc_reg) r1 in
    let r3 = write_register pc_reg (r2 next_pc_reg) r2 in
    write_register next_pc_reg ((r3 pc_reg + 4) % 2 ^ 32) r3

-- `perform` is what the calls do and return (0 where they return nothing), and `handle_page_fault` deals with a page fault, on what the kernel keeps.
module _ {K : Type 0} (perform : Call → K → Result (ℕ × K)) (handle_page_fault : K → Result K) where
  unfoldable pub serve : Call → Registers → K → Result (Registers × K)
  unfolding advance
  serve sc_halt r k = fault halted
  serve c r k = do (rv, k') ← perform c k; ok (advance rv r, k')

  unfoldable pub exception_handler : Exception → Registers → K → Result (Registers × K)
  unfolding decode serve
  exception_handler syscall r k = serve (decode r (r 2)) r k
  exception_handler page_fault r k = do k' ← handle_page_fault k; ok (r, k')
  exception_handler unexpected r k = fault halted
