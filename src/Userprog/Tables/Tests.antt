-- ===== src/Userprog/Tables/Tests.antt =====
-- Runs of the table of open files of userprog/addrspace.cc.
use project.Prelude.{ℕ, ◌≡◌, refl, [], ◌∷◌, Option, none, some, Result, ok, ◌>>=◌}
use project.Userprog.BitMap.{find, test, mark, word_at}
use project.Userprog.Tables.{Table, get, put_at, put}

-- Numbers 0 and 1 are kept for the console.
abbrev files : Table ℕ
files = record {
  map = record { num_bits = 40; num_words = 2; map = 3 ∷ 0 ∷ [] };
  table = λ i. none;
  size = 40;
}

abbrev put_get : Result (Option ℕ)
put_get = do (i, t) ← put (some 7) files; get i t

put_get_test : put_get ≡ ok (some 7)
unfolding put get put_at find word_at test mark
put_get_test = refl
