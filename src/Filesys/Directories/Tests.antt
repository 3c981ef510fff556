-- ===== src/Filesys/Directories/Tests.antt =====
-- Runs of the directory of filesys/directory.cc.
use project.Prelude.{◌≡◌, refl, [], ◌∷◌, true, false, ◌&&◌, if◌then◌else◌, pos, minus_one, ok}
use project.Filesys.Directories.{
  Chars, same_name, matches, copy_name, Directory, new_directory, new_entry, entry_at, find_index,
  find, add, remove,
}
use project.Filesys.Directories.Laws.{same_file, Distinct-new_directory, find-add, find-remove}

-- `abcdefghi` and two longer names that begin with it.
abbrev nine : Chars
nine = 97 ∷ 98 ∷ 99 ∷ 100 ∷ 101 ∷ 102 ∷ 103 ∷ 104 ∷ 105 ∷ []

abbrev ten : Chars
ten = 97 ∷ 98 ∷ 99 ∷ 100 ∷ 101 ∷ 102 ∷ 103 ∷ 104 ∷ 105 ∷ 106 ∷ []

abbrev short : Chars
short = 97 ∷ 98 ∷ []

abbrev empty : Directory
empty = new_directory 3 (λ i. record { in_use = true; sector = pos 7; name = 120 ∷ [] })

-- The third name is taken for the second.
same_name_test : (same_file nine ten ≡ true) × (same_file short nine ≡ false)
unfolding same_name
same_name_test = (refl, refl)

find_test :
    (find ten (add nine (pos 5) (add short (pos 6) empty).1).1 ≡ ok (pos 5))
    × ((add ten (pos 4) (add nine (pos 5) empty).1).0 ≡ false)
    × (find short (remove short (add short (pos 6) empty).1).1 ≡ ok minus_one)
unfolding find add remove new_directory same_name matches copy_name new_entry entry_at find_index
find_test = (refl, refl, refl)

find-add_example :
    find ten (add nine (pos 5) empty).1
    ≡ (if (add nine (pos 5) empty).0 && same_file nine ten then ok (pos 5) else find ten empty)
find-add_example = find-add nine ten (pos 5) empty

find-remove_example :
    find ten (remove short empty).1 ≡ (if same_file short ten then ok minus_one else find ten empty)
find-remove_example = find-remove short ten empty (Distinct-new_directory 3 _)
