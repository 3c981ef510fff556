-- ===== src/Filesys/Directories/Names.antt =====
-- File names of filesys/directory.cc: `strncmp` and `strncpy` of their first characters.
use project.Prelude.{ℕ, zero, suc, ◌≡◌, refl, ◌++◌, true, drop, ◌==◌, inl, inr, arith, Bool-cases}
use project.Filesys.Directories.{Chars, first, rest, same_name, padded, copy_name}

pub same_name_self : (n : ℕ) (s : Chars) → same_name n s s ≡ true
unfolding same_name
same_name_self zero s = refl
same_name_self (suc n) s = ground (arith, same_name_self n (rest s))

pub same_name_comm : (n : ℕ) (s t : Chars) → same_name n s t ≡ same_name n t s
unfolding same_name
same_name_comm zero s t = refl
same_name_comm (suc n) s t = ground (arith, same_name_comm n (rest s) (rest t))

-- Names that compare equal compare alike with a third.
pub same_name_right :
    (n : ℕ) (x s t : Chars) → same_name n s t ≡ true → same_name n x s ≡ same_name n x t
unfolding same_name
same_name_right zero x s t h = refl
same_name_right (suc n) x s t h = ground (arith, same_name_right n (rest x) (rest s) (rest t))

padded_same : (n : ℕ) (s t r : Chars) → same_name n (padded n s ++ r) t ≡ same_name n s t
unfolding same_name padded
padded_same zero s t r = refl
padded_same (suc n) s t r = elim (Bool-cases (first s == 0)) [
  | inl e ↦ rw e (ground arith)
  | inr e ↦ rw e (ground (arith, padded_same n (rest s) (rest t) r))
]

-- A copy of a name compares as the name does.
pub same_name-copy_name :
    (n : ℕ) (s into t : Chars) → same_name n (copy_name n s into) t ≡ same_name n s t
unfolding copy_name
same_name-copy_name n s into t = padded_same n s t (drop n into)
