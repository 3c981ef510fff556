-- ===== src/Threads/Lists/Tests.antt =====
-- Runs of the lists of threads/list.cc.
use native.Mathlib.Omega.{arith}
use project.Prelude.{ℕ, ◌≡◌, refl, List, [], ◌∷◌}
use project.Threads.Lists.{ListElement, sorted_insert, sorted_remove}
use project.Threads.Lists.Sorted.{
  IsInserted, IsSorted, IsFirst, sorted_insert-IsInserted, sorted_remove-insert,
}

abbrev element : ℕ → ℕ → ListElement ℕ
element item key = record { item = item; key = key }

abbrev three : List (ListElement ℕ)
three = element 7 1 ∷ element 8 4 ∷ element 9 6 ∷ []

sorted_insert_test :
    sorted_insert 5 4 three ≡ element 7 1 ∷ element 8 4 ∷ element 5 4 ∷ element 9 6 ∷ []
unfolding sorted_insert
sorted_insert_test = refl

three-IsSorted : IsSorted three
three-IsSorted = ((omega arith, (omega arith, tt)), ((omega arith, tt), (tt, tt)))

sorted_insert-IsInserted_example : IsInserted (element 5 4) three (sorted_insert 5 4 three)
sorted_insert-IsInserted_example = sorted_insert-IsInserted 5 4 three three-IsSorted

sorted_remove-insert_example :
    IsSorted (sorted_insert 5 4 three)
    × IsFirst (sorted_remove (sorted_insert 5 4 three)).0 (sorted_insert 5 4 three)
    × IsSorted (sorted_remove (sorted_insert 5 4 three)).1
sorted_remove-insert_example = sorted_remove-insert 5 4 three three-IsSorted
