-- ===== src/Filesys/Directories.antt =====
-- filesys/directory.cc: a table of file names and the sectors of their headers.
use project.Prelude.{
  ℕ, zero, suc, ◌+◌, List, [], ◌∷◌, ◌++◌, Bool, true, false, not, ◌&&◌, ℤ, pos, negsuc, minus_one,
  eq_ℤ, get_elem?, set, drop, Option, none, some, ◌==◌, if◌then◌else◌, Result, ok, fault, overrun,
  ◌>>=◌,
}
pub mod Names
pub mod Laws
mod Tests

-- A C string is the list of its characters; after them it reads 0.
abbrev pub Chars : Type 0
Chars = List ℕ

abbrev pub first : Chars → ℕ
first [] = 0
first (c ∷ cs) = c

abbrev pub rest : Chars → Chars
rest [] = []
rest (c ∷ cs) = cs

-- `!strncmp(s, t, n)`
unfoldable pub same_name : ℕ → Chars → Chars → Bool
same_name zero s t = true
same_name (suc n) s t =
    let later = same_name n (rest s) (rest t) in
    if first s == first t then (if first s == 0 then true else later) else false

-- The `n` characters that `strncpy` writes: those of the string, and zeros from its end on.
unfoldable pub padded : ℕ → Chars → Chars
padded zero s = []
padded (suc n) s = first s ∷ padded n (if first s == 0 then [] else rest s)

-- `strncpy(into, s, n)`: the rest of the array stays.
unfoldable pub copy_name : ℕ → Chars → Chars → Chars
unfolding padded
copy_name n s into = padded n s ++ drop n into

abbrev pub file_name_max_len : ℕ
file_name_max_len = 9

pub record DirectoryEntry : Type 0 where
  pub in_use : Bool
  pub sector : ℤ
  pub name : Chars

-- `table`, of `tableSize` entries.
abbrev pub Directory : Type 0
Directory = List DirectoryEntry

-- The constructor; `garbage` is what the memory of `new` holds.
unfoldable pub new_directory : ℕ → (ℕ → DirectoryEntry) → Directory
new_directory zero garbage = []
new_directory (suc size) garbage =
    record (garbage size) { in_use = false } ∷ new_directory size garbage

-- The test of `FindIndex`.
unfoldable pub matches : Chars → DirectoryEntry → Bool
unfolding same_name
matches name e = e.in_use && same_name file_name_max_len e.name name

-- The loop of `FindIndex`, from entry `i` on.
unfoldable pub find_index_from : ℕ → Chars → Directory → ℤ
unfolding matches
find_index_from i name [] = minus_one
find_index_from i name (e ∷ d) =
    let later = find_index_from (i + 1) name d in if matches name e then pos i else later

unfoldable pub find_index : Chars → Directory → ℤ
unfolding find_index_from
find_index name d = find_index_from 0 name d

-- `table[i]`
unfoldable pub entry_at : ℤ → Directory → Result DirectoryEntry
entry_at (pos i) d = elim (get_elem? d i) [ none ↦ fault overrun | some e ↦ ok e ]
entry_at (negsuc i) d = fault overrun

unfoldable pub find : Chars → Directory → Result ℤ
unfolding find_index entry_at
find name d =
    if not (eq_ℤ (find_index name d) minus_one)
    then (entry_at (find_index name d) d >>= λ e. ok e.sector)
    else ok minus_one

-- What `Add` makes of a free entry.
unfoldable pub new_entry : Chars → ℤ → DirectoryEntry → DirectoryEntry
unfolding copy_name
new_entry name new_sector e = record {
  in_use = true;
  sector = new_sector;
  name = copy_name file_name_max_len name e.name;
}

-- The loop of `Add`.
unfoldable pub fill_first : Chars → ℤ → Directory → Bool × Directory
unfolding new_entry
fill_first name new_sector [] = (false, [])
fill_first name new_sector (e ∷ d) =
    let later = fill_first name new_sector d in
    if not e.in_use then (true, new_entry name new_sector e ∷ d) else (later.0, e ∷ later.1)

unfoldable pub add : Chars → ℤ → Directory → Bool × Directory
unfolding find_index fill_first
add name new_sector d =
    if not (eq_ℤ (find_index name d) minus_one) then (false, d) else fill_first name new_sector d

-- `table[i].inUse = FALSE`
unfoldable pub release : ℤ → Directory → Directory
release (pos zero) [] = []
release (pos zero) (e ∷ d) = record e { in_use = false } ∷ d
release (pos (suc i)) [] = []
release (pos (suc i)) (e ∷ d) = e ∷ release (pos i) d
release (negsuc i) d = d

unfoldable pub remove : Chars → Directory → Bool × Directory
unfolding find_index release
remove name d =
    if eq_ℤ (find_index name d) minus_one then (false, d) else (true, release (find_index name d) d)
