-- ===== src/Userprog/FileCalls.antt =====
-- userprog/exception.cc: the system calls for files. Whether copyin could read the user's memory, and what `fileSystem->Open`
-- and the keyboard give, are arguments; what copyout writes is not kept.
use project.Prelude.{
  ℕ, ◌+◌, List, [], Option, none, some, Bool, true, false, not, ℤ, pos, negsuc, minus_one, eq_ℤ,
  leb, length, if◌then◌else◌, Result, ok, fault, overrun, check, ◌>>=◌, ◌>>◌,
}
use project.Userprog.Tables.{Table, get, put, put_at, remove}
mod Closing
mod Tests

abbrev pub console_input : ℤ
console_input = pos 0

abbrev pub console_output : ℤ
console_output = pos 1

-- An open file, with what `Read(buf, len)` returns and `Write(buf, len)` does.
module _ {F : Type 0} (read_file : ℕ → F → List ℕ × F) (write_file : List ℕ → F → F) where
  -- The bytes that go to the console, and the table.
  unfoldable pub write_syscall : Bool → List ℕ → ℤ → Table F → Result (List ℕ × Table F)
  write_syscall copied buf id t =
      if eq_ℤ id console_input
      then ok ([], t)
      else if not copied
      then ok ([], t)
      else if eq_ℤ id console_output
      then ok (buf, t)
      else (do
        f ← get id t
        elim f [
          | none ↦ ok ([], t)
          | some file ↦ (do t' ← put_at id (some (write_file buf file)) t; ok ([], t'))
        ])

  -- What the call returns, the bytes that it hands to copyout, and the table. `typed` is the word that `scanf` reads, which is
  -- written with an end mark to a buffer of `len` bytes.
  unfoldable pub read_syscall : ℕ → List ℕ → ℤ → Table F → Result (ℤ × List ℕ × Table F)
  read_syscall len typed id t =
      if eq_ℤ id console_output
      then ok (minus_one, [], t)
      else if eq_ℤ id console_input
      then (do check (leb (length typed + 1) len) overrun; ok (pos len, typed, t))
      else (do
        f ← get id t
        elim f [
          | none ↦ ok (minus_one, [], t)
          | some file ↦ (do
            let x = read_file len file
            t' ← put_at id (some x.1) t
            ok (pos (length x.0), x.0, t'))
        ])

module _ {F : Type 0} where
  unfoldable pub open_syscall : Bool → Option F → Table F → Result (ℤ × Table F)
  open_syscall copied opened t =
      if not copied
      then ok (minus_one, t)
      else (elim opened [ none ↦ ok (minus_one, t) | some f ↦ put (some f) t ])

  -- The file that is deleted, if there is one.
  unfoldable pub close_syscall : ℤ → Table F → Result (Option F × Table F)
  close_syscall fd t = remove fd t
