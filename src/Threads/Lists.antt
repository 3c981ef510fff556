-- ===== src/Threads/Lists.antt =====
-- threads/list.cc: singly linked lists with keys. A list is the chain from `first`; `last` is its end.
use project.Prelude.{
  ℕ, List, [], ◌∷◌, ◌++◌, Option, none, some, Bool, true, false, ltb, if◌then◌else◌,
}
pub mod Sorted
mod Tests

pub record ListElement {ℓ} (A : Type ℓ) : Type ℓ where
  pub item : A
  pub key : ℕ

module _ {ℓ} {A : Type ℓ} where
  unfoldable pub is_empty : List (ListElement A) → Bool
  is_empty [] = true
  is_empty (x ∷ xs) = false

  unfoldable pub append : A → List (ListElement A) → List (ListElement A)
  append item xs = xs ++ (record { item = item; key = 0 } ∷ [])

  unfoldable pub prepend : A → List (ListElement A) → List (ListElement A)
  prepend item xs = record { item = item; key = 0 } ∷ xs

  -- The walk of `SortedInsert` from an element `x` that does not come after the new one.
  unfoldable pub insert_after :
      ListElement A → ListElement A → List (ListElement A) → List (ListElement A)
  insert_after e x [] = x ∷ e ∷ []
  insert_after e x (y ∷ ys) =
      let rest = insert_after e y ys in if ltb e.key y.key then x ∷ e ∷ y ∷ ys else x ∷ rest

  unfoldable pub sorted_insert : A → ℕ → List (ListElement A) → List (ListElement A)
  unfolding insert_after
  sorted_insert item key [] = record { item = item; key = key } ∷ []
  sorted_insert item key (x ∷ xs) =
      if ltb key x.key
      then record { item = item; key = key } ∷ x ∷ xs
      else insert_after (record { item = item; key = key }) x xs

  -- The item and the key of the first element, and the rest.
  unfoldable pub sorted_remove : List (ListElement A) → Option (A × ℕ) × List (ListElement A)
  sorted_remove [] = (none, [])
  sorted_remove (x ∷ xs) = (some (x.item, x.key), xs)
