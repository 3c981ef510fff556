-- ===== src/Userprog/FileCalls/Tests.antt =====
-- Runs of the system calls for files of userprog/exception.cc.
use project.Prelude.{
  ℕ, ◌≡◌, ◌≤◌, refl, List, [], ◌∷◌, ◌++◌, none, some, true, ℤ, pos, minus_one, Result, ok, fault,
  overrun, ◌>>=◌, ◌⊎◌, Returns, arith, take, drop,
}
use project.Userprog.BitMap.{find, word_at, test, mark}
use project.Prelude.Bits.{bit}
use project.Userprog.BitMap.Laws.{used}
use project.Userprog.Tables.{Table, get, put, put_at}
use project.Userprog.FileCalls.{read_syscall, write_syscall, open_syscall, close_syscall}
use project.Userprog.FileCalls.Closing.{open_syscall-close}

-- A file is what is left to read; what is written is read next.
abbrev read_list : ℕ → List ℕ → List ℕ × List ℕ
read_list len f = (take len f, drop len f)

abbrev write_list : List ℕ → List ℕ → List ℕ
write_list buf f = buf ++ f

-- Numbers 0 and 1 are kept for the console.
abbrev files : Table (List ℕ)
files = record {
  map = record { num_bits = 40; num_words = 2; map = 3 ∷ 0 ∷ [] };
  table = λ i. none;
  size = 40;
}

abbrev read_back : Result (ℤ × List ℕ)
read_back = do
  (id, t) ← open_syscall true (some (9 ∷ [])) files
  (_, t') ← write_syscall read_list write_list true (4 ∷ 5 ∷ []) id t
  (n, bytes, _) ← read_syscall read_list write_list 3 [] id t'
  ok (n, bytes)

read_back_test : read_back ≡ ok (pos 3, 4 ∷ 5 ∷ 9 ∷ [])
unfolding open_syscall write_syscall read_syscall put get put_at find word_at test mark
read_back_test = refl

-- A word of three characters does not fit a buffer of three bytes.
scanf_test : read_syscall read_list write_list 3 (97 ∷ 98 ∷ 99 ∷ []) (pos 0) files ≡ fault overrun
unfolding read_syscall
scanf_test = refl

open_syscall-close_example :
    Returns
      (λ (id, u).
        (id ≡ minus_one)
        ⊎ ((k : ℕ) × (id ≡ pos k)
            × (2 ≤ k)
            × (get id u ≡ ok (some (9 ∷ [])))
            × Returns
                (λ (g, v).
                  (g ≡ some (9 ∷ []))
                  × (read_syscall read_list write_list 3 [] id v ≡ ok (minus_one, [], v))
                  × (write_syscall read_list write_list true (4 ∷ []) id v ≡ ok ([], v)))
                (close_syscall id u)))
      (open_syscall true (some (9 ∷ [])) files)
unfolding used bit
open_syscall-close_example =
    open_syscall-close read_list write_list 3 [] (4 ∷ []) (9 ∷ []) files (omega arith, refl) refl
      refl
