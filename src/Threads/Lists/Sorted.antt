-- ===== src/Threads/Lists/Sorted.antt =====
-- threads/list.cc: `SortedInsert` keeps a list in order, and puts an item behind those of its own key.
use project.Prelude.{
  ℕ, suc, ◌≤◌, ◌≡◌, refl, ap, sym, subst, inl, inr, List, [], ◌∷◌, ◌++◌, Option, none, some, ltb,
  Bool-cases, arith,
}
use project.Threads.Lists.{ListElement, insert_after, sorted_insert, sorted_remove}

module _ {ℓ} {A : Type ℓ} where
  -- No key of the list is below `k`.
  abbrev pub AllFrom : ℕ → List (ListElement A) → Type 0
  AllFrom k [] = Unit
  AllFrom k (x ∷ xs) = (k ≤ x.key) × AllFrom k xs

  -- No key of the list is above `k`.
  abbrev pub AllUpTo : ℕ → List (ListElement A) → Type 0
  AllUpTo k [] = Unit
  AllUpTo k (x ∷ xs) = (x.key ≤ k) × AllUpTo k xs

  abbrev pub IsSorted : List (ListElement A) → Type 0
  IsSorted [] = Unit
  IsSorted (x ∷ xs) = AllFrom x.key xs × IsSorted xs

  AllFrom-below : (k m : ℕ) (xs : List (ListElement A)) → m ≤ k → AllFrom k xs → AllFrom m xs
  AllFrom-below k m [] h a = tt
  AllFrom-below k m (x ∷ xs) h (p, a) = (omega arith, AllFrom-below k m xs h a)

  -- The list `after` is `before` with `e` put behind the keys up to its own and before the greater ones.
  abbrev pub IsInserted : ListElement A → List (ListElement A) → List (ListElement A) → Type ℓ
  IsInserted e before after =
      (front : List (ListElement A)) × (back : List (ListElement A)) × (before ≡ front ++ back)
      × (after ≡ front ++ (e ∷ back))
      × AllUpTo e.key front
      × AllFrom (suc e.key) back

  insert_after-IsInserted :
      (e x : ListElement A) (xs : List (ListElement A))
      → x.key ≤ e.key
      → IsSorted (x ∷ xs)
      → IsInserted e (x ∷ xs) (insert_after e x xs)
  unfolding insert_after
  insert_after-IsInserted e x [] h s = (x ∷ [], [], refl, refl, (h, tt), tt)
  insert_after-IsInserted e x (y ∷ ys) h (a, s) = elim (Bool-cases (ltb e.key y.key)) [
    | inl less ↦ rw less (
      x ∷ [],
      y ∷ ys,
      refl,
      refl,
      (h, tt),
      (ground (arith, less), AllFrom-below y.key (suc e.key) ys (ground (arith, less)) s.0),
    )
    | inr more ↦
        let (front, back, p, q, u, d) = insert_after-IsInserted e y ys (ground (arith, more)) s in
        rw more (x ∷ front, back, ap (λ l. x ∷ l) p, ap (λ l. x ∷ l) q, (h, u), d)
  ]

  -- An item that is inserted into a sorted list comes behind all those whose key is not greater, those
  -- of its own key included, and before all those whose key is greater; the others keep their order.
  pub sorted_insert-IsInserted :
      (item : A) (key : ℕ) (xs : List (ListElement A))
      → IsSorted xs
      → IsInserted (record { item = item; key = key }) xs (sorted_insert item key xs)
  unfolding sorted_insert
  sorted_insert-IsInserted item key [] s = ([], [], refl, refl, tt, tt)
  sorted_insert-IsInserted item key (x ∷ xs) s = elim (Bool-cases (ltb key x.key)) [
    | inl less ↦ rw less (
      [],
      x ∷ xs,
      refl,
      refl,
      tt,
      (ground (arith, less), AllFrom-below x.key (suc key) xs (ground (arith, less)) s.0),
    )
    | inr more ↦
        rw more (
          insert_after-IsInserted (record { item = item; key = key }) x xs (ground (arith, more)) s)
  ]

  AllFrom-insert :
      (k : ℕ) (e : ListElement A) (front back : List (ListElement A))
      → k ≤ e.key
      → AllFrom k (front ++ back)
      → AllFrom k (front ++ (e ∷ back))
  AllFrom-insert k e [] back h a = (h, a)
  AllFrom-insert k e (x ∷ front) back h (p, a) = (p, AllFrom-insert k e front back h a)

  insert-IsSorted :
      (e : ListElement A) (front back : List (ListElement A))
      → AllUpTo e.key front
      → AllFrom (suc e.key) back
      → IsSorted (front ++ back)
      → IsSorted (front ++ (e ∷ back))
  insert-IsSorted e [] back u d s = (AllFrom-below (suc e.key) e.key back (omega arith) d, s)
  insert-IsSorted e (x ∷ front) back (p, u) d (a, s) =
      (AllFrom-insert x.key e front back p a, insert-IsSorted e front back u d s)

  -- What was removed has the least key of the list.
  abbrev pub IsFirst : Option (A × ℕ) → List (ListElement A) → Type 0
  IsFirst none xs = Unit
  IsFirst (some x) xs = AllFrom x.1 xs

  -- Inserting by key keeps a sorted list sorted, so that what is then removed first has the least key,
  -- and the rest is sorted again.
  pub sorted_remove-insert :
      (item : A) (key : ℕ) (xs : List (ListElement A))
      → IsSorted xs
      → IsSorted (sorted_insert item key xs)
        × IsFirst (sorted_remove (sorted_insert item key xs)).0 (sorted_insert item key xs)
        × IsSorted (sorted_remove (sorted_insert item key xs)).1
  unfolding sorted_remove
  sorted_remove-insert item key xs s =
      (sorted, least (sorted_insert item key xs) sorted, rest (sorted_insert item key xs) sorted)
    where
      sorted : IsSorted (sorted_insert item key xs)
      sorted =
          let (front, back, p, q, u, d) = sorted_insert-IsInserted item key xs s in
          subst (λ l. IsSorted l) (sym q)
            (insert-IsSorted (record { item = item; key = key }) front back u d
              (subst (λ l. IsSorted l) p s))

      least : (l : List (ListElement A)) → IsSorted l → IsFirst (sorted_remove l).0 l
      least [] h = tt
      least (y ∷ ys) h = (omega arith, h.0)

      rest : (l : List (ListElement A)) → IsSorted l → IsSorted (sorted_remove l).1
      rest [] h = tt
      rest (y ∷ ys) h = h.1
