-- ===== src/Filesys/Directories/Laws.antt =====
-- filesys/directory.cc as a map from file names, as far as they are compared, to sectors.
use project.Prelude.{
  ℕ, zero, suc, ◌+◌, ◌≡◌, refl, sym, ap, subst, ◌∙◌, [], ◌∷◌, Bool, true, false, ◌&&◌, ℤ, pos,
  minus_one, get_elem?, Option, none, some, if◌then◌else◌, ok, ◌⊎◌, inl, inr, arith, Bool-cases,
  Option-cases,
}
use project.Filesys.Directories.{
  Chars, same_name, file_name_max_len, DirectoryEntry, Directory, new_directory, new_entry, matches,
  find_index_from, find_index, entry_at, find, fill_first, add, release, remove,
}
use project.Filesys.Directories.Names.{
  same_name_self, same_name_comm, same_name_right, same_name-copy_name,
}

-- The names are the same for the file system.
abbrev pub same_file : Chars → Chars → Bool
same_file s t = same_name file_name_max_len s t

-- The sector of a name.
unfoldable pub lookup : Chars → Directory → Option ℤ
lookup name [] = none
lookup name (e ∷ d) = let later = lookup name d in if matches name e then some e.sector else later

-- The table without the entry of a name.
unfoldable pub without : Chars → Directory → Directory
without name [] = []
without name (e ∷ d) =
    let later = without name d in
    if matches name e then record e { in_use = false } ∷ d else e ∷ later

-- How `Find` returns it.
abbrev pub or_minus_one : Option ℤ → ℤ
or_minus_one none = minus_one
or_minus_one (some s) = s

-- What `FindIndex` returns is where the entry is.
abbrev Position : ℕ → Chars → Directory → Type 0
Position i name d =
    ((find_index_from i name d ≡ minus_one) × (lookup name d ≡ none))
    ⊎ ((j : ℕ) × (e : DirectoryEntry) × (find_index_from i name d ≡ pos (i + j))
        × (lookup name d ≡ some e.sector)
        × (get_elem? d j ≡ some e)
        × (release (pos j) d ≡ without name d))

find_index_from-Position : (i : ℕ) (name : Chars) (d : Directory) → Position i name d
unfolding find_index_from lookup release without
find_index_from-Position i name [] = inl (refl, refl)
find_index_from-Position i name (e ∷ d) = elim (Bool-cases (matches name e)) [
  | inl m ↦ rw m (inr (0, e, ap pos (omega arith), refl, refl, refl))
  | inr m ↦ elim (find_index_from-Position (i + 1) name d) [
    | inl (f, l) ↦ rw m (inl (f, l))
    | inr (j, e', f, l, g, r) ↦
        rw m (inr (suc j, e', f ∙ ap pos (omega arith), l, g, ap (λ t. e ∷ t) r))
  ]
]

entry_at_lem :
    (j : ℕ) (d : Directory) (e : DirectoryEntry)
    → get_elem? d j ≡ some e
    → entry_at (pos j) d ≡ ok e
unfolding entry_at
entry_at_lem j d e g = rw (entry_at, g) refl

-- `Find` returns the sector of the name's entry, and -1 if there is none.
pub find_lem : (name : Chars) (d : Directory) → find name d ≡ ok (or_minus_one (lookup name d))
unfolding find find_index
find_lem name d = elim (find_index_from-Position 0 name d) [
  | inl (f, l) ↦ rw (f, l) refl
  | inr (j, e, f, l, g, r) ↦
      let p : find_index_from 0 name d ≡ pos j = f ∙ ap pos (omega arith) in
      rw (p, l, entry_at_lem j d e g) refl
]

-- `Remove` takes the name's entry out of use, if there is one.
pub remove_lem :
    (name : Chars) (d : Directory)
    → remove name d ≡ (elim (lookup name d) [ none ↦ (false, d) | some e ↦ (true, without name d) ])
unfolding remove find_index
remove_lem name d = elim (find_index_from-Position 0 name d) [
  | inl (f, l) ↦ rw (f, l) refl
  | inr (j, e, f, l, g, r) ↦
      let p : find_index_from 0 name d ≡ pos j = f ∙ ap pos (omega arith) in rw (p, l, r) refl
]

pub add_lem :
    (name : Chars) (s : ℤ) (d : Directory)
    → add name s d ≡ (elim (lookup name d) [ none ↦ fill_first name s d | some e ↦ (false, d) ])
unfolding add find_index
add_lem name s d = elim (find_index_from-Position 0 name d) [
  | inl (f, l) ↦ rw (f, l) refl
  | inr (j, e, f, l, g, r) ↦
      let p : find_index_from 0 name d ≡ pos j = f ∙ ap pos (omega arith) in rw (p, l) refl
]

matches-new_entry :
    (name other : Chars) (s : ℤ) (e : DirectoryEntry)
    → matches other (new_entry name s e) ≡ same_file name other
unfolding matches new_entry
matches-new_entry name other s e = same_name-copy_name file_name_max_len name e.name other

matches_unused : (name : Chars) (e : DirectoryEntry) → e.in_use ≡ false → matches name e ≡ false
unfolding matches
matches_unused name e u = rw u refl

matches_used :
    (name : Chars) (e : DirectoryEntry) → e.in_use ≡ true → matches name e ≡ same_file e.name name
unfolding matches
matches_used name e u = rw u refl

-- An entry that a name matches is matched by the same names as that name.
matches-same :
    (name other : Chars) (e : DirectoryEntry)
    → same_file name other ≡ true
    → matches other e ≡ matches name e
unfolding matches
matches-same name other e h = rw (same_name_right file_name_max_len e.name name other h) refl

-- What is found after an addition, at a name that the new entry matches and at another.
pub lookup-fill_first :
    (name other : Chars) (s : ℤ) (d : Directory)
    → lookup name d ≡ none
    → (fill_first name s d).0 ≡ true
    → lookup other (fill_first name s d).1
      ≡ (if same_file name other then some s else lookup other d)
unfolding lookup fill_first
lookup-fill_first name other s [] l h = absurd (ground arith)
lookup-fill_first name other s (e ∷ d) l h = elim (Bool-cases e.in_use) [
  | inl u ↦ ground (arith, lookup-fill_first name other s d, matches-same name other e)
  | inr u ↦ ground (arith, matches-new_entry name other s e, matches_unused other e)
]

lookup-same :
    (name other : Chars) (d : Directory)
    → same_file name other ≡ true
    → lookup other d ≡ lookup name d
unfolding lookup
lookup-same name other [] h = refl
lookup-same name other (e ∷ d) h = rw (matches-same name other e h, lookup-same name other d h) refl

pub matches-parts :
    (name : Chars) (e : DirectoryEntry)
    → matches name e ≡ true
    → (e.in_use ≡ true) × (same_file e.name name ≡ true)
unfolding matches
matches-parts name e h = ground (arith)

matches_both :
    (name other : Chars) (e : DirectoryEntry)
    → matches name e ≡ true
    → matches other e ≡ true
    → same_file name other ≡ true
matches_both name other e h k =
    let (u, a) = matches-parts name e h in
    let (v, b) = matches-parts other e k in
    same_name_comm file_name_max_len name other
    ∙ sym (same_name_right file_name_max_len other e.name name a)
    ∙ same_name_comm file_name_max_len other e.name
    ∙ b

-- No two entries in use have the same name.
unfoldable pub Distinct : Directory → Type 0
Distinct [] = Unit
Distinct (e ∷ d) = (e.in_use ≡ true → lookup e.name d ≡ none) × Distinct d

pub lookup-without :
    (name other : Chars) (d : Directory)
    → Distinct d
    → lookup other (without name d) ≡ (if same_file name other then none else lookup other d)
unfolding lookup without Distinct
lookup-without name other [] n = ground arith
lookup-without name other (e ∷ d) (n, ns) = elim (Bool-cases (matches name e)) [
  | inl m ↦
      let (u, a) = matches-parts name e m in
      let gone : lookup name d ≡ none = lookup-same e.name name d a ∙ n u in
      ground (
        arith,
        matches_unused other (record e { in_use = false }),
        lookup-same name other d,
        matches_both name other e,
        gone,
      )
  | inr m ↦ ground (arith, lookup-without name other d ns, matches-same name other e)
]

pub Distinct-without : (name : Chars) (d : Directory) → Distinct d → Distinct (without name d)
unfolding Distinct without
Distinct-without name [] n = tt
Distinct-without name (e ∷ d) (n, ns) = elim (Bool-cases (matches name e)) [
  | inl m ↦ rw m ((λ u. absurd (ground arith)), ns)
  | inr m ↦
      rw m ((λ u. ground (arith, lookup-without name e.name d ns, n u)), Distinct-without name d ns)
]

pub fill_first_full :
    (name : Chars) (s : ℤ) (d : Directory)
    → (fill_first name s d).0 ≡ false
    → (fill_first name s d).1 ≡ d
unfolding fill_first
fill_first_full name s [] h = refl
fill_first_full name s (e ∷ d) h = ground (arith, fill_first_full name s d)

name-new_entry :
    (name : Chars) (s : ℤ) (e : DirectoryEntry) → same_file name (new_entry name s e).name ≡ true
unfolding new_entry
name-new_entry name s e =
    same_name_comm file_name_max_len name _
    ∙ same_name-copy_name file_name_max_len name e.name name
    ∙ same_name_self file_name_max_len name

-- An entry that a name does not match still is the only one of its name after an addition of that name.
lookup-fill_first_other :
    (name : Chars) (s : ℤ) (e : DirectoryEntry) (d : Directory)
    → matches name e ≡ false
    → e.in_use ≡ true
    → lookup name d ≡ none
    → lookup e.name (fill_first name s d).1 ≡ lookup e.name d
lookup-fill_first_other name s e d m u l =
    let differ : same_file name e.name ≡ false =
      rw (same_name_comm file_name_max_len name e.name) (unmatched e u m) in
    elim (Bool-cases (fill_first name s d).0) [
      | inl h ↦ lookup-fill_first name e.name s d l h ∙ rw differ refl
      | inr h ↦ ap (lookup e.name) (fill_first_full name s d h)
    ]
  where
    unmatched :
        (e : DirectoryEntry)
        → e.in_use ≡ true
        → matches name e ≡ false
        → same_file e.name name ≡ false
    unmatched e u m = sym (matches_used name e u) ∙ m

pub fill_first_used :
    (name : Chars) (s : ℤ) (e : DirectoryEntry) (d : Directory)
    → e.in_use ≡ true
    → (fill_first name s (e ∷ d)).1 ≡ e ∷ (fill_first name s d).1
unfolding fill_first
fill_first_used name s e d u = simp (u) refl

pub fill_first_unused :
    (name : Chars) (s : ℤ) (e : DirectoryEntry) (d : Directory)
    → e.in_use ≡ false
    → (fill_first name s (e ∷ d)).1 ≡ new_entry name s e ∷ d
unfolding fill_first
fill_first_unused name s e d u = ground arith

pub Distinct-fill_first :
    (name : Chars) (s : ℤ) (d : Directory)
    → lookup name d ≡ none
    → Distinct d
    → Distinct (fill_first name s d).1
unfolding Distinct lookup fill_first
Distinct-fill_first name s [] l n = tt
Distinct-fill_first name s (e ∷ d) l (n, ns) =
    let m : matches name e ≡ false = ground arith in
    let l' : lookup name d ≡ none = ground arith in
    elim (Bool-cases e.in_use) [
      | inl u ↦ subst Distinct (sym (fill_first_used name s e d u)) (
        (λ u'. lookup-fill_first_other name s e d m u l' ∙ n u),
        Distinct-fill_first name s d l' ns,
      )
      | inr u ↦
          subst Distinct (sym (fill_first_unused name s e d u)) (
            (λ u'. lookup-same name (new_entry name s e).name d (name-new_entry name s e) ∙ l'),
            ns,
          )
    ]

pub Distinct-new_directory :
    (size : ℕ) (garbage : ℕ → DirectoryEntry) → Distinct (new_directory size garbage)
unfolding Distinct new_directory
Distinct-new_directory zero g = tt
Distinct-new_directory (suc size) g = ((λ u. absurd (ground arith)), Distinct-new_directory size g)

-- `Add` and `Remove` keep the names of the entries in use distinct.
pub Distinct-operations :
    (name : Chars) (s : ℤ) (d : Directory)
    → Distinct d
    → Distinct (add name s d).1 × Distinct (remove name d).1
Distinct-operations name s d n = elim (Option-cases (lookup name d)) [
  | inl l ↦ rw (add_lem name s d, remove_lem name d, l) (Distinct-fill_first name s d l n, n)
  | inr (e, l) ↦ rw (add_lem name s d, remove_lem name d, l) (n, Distinct-without name d n)
]

-- `Find` after `Add`: the new sector under the added name and under each that has the same first 9 characters, if
-- `Add` returned true, and what was found before under every other name, or if it returned false.
pub find-add :
    (name other : Chars) (s : ℤ) (d : Directory)
    → find other (add name s d).1
      ≡ (if (add name s d).0 && same_file name other then ok s else find other d)
find-add name other s d = elim (Option-cases (lookup name d)) [
  | inl l ↦ elim (Bool-cases (fill_first name s d).0) [
    | inl h ↦
        rw
          (
            add_lem name s d,
            l,
            find_lem other (fill_first name s d).1,
            find_lem other d,
            lookup-fill_first name other s d l h,
            h,
          )
          (branch (same_file name other) (lookup other d))
    | inr h ↦ rw (add_lem name s d, l, h) (ap (find other) (fill_first_full name s d h))
  ]
  | inr (e, l) ↦ rw (add_lem name s d, l) refl
]
  where
    branch :
        (b : Bool) (o : Option ℤ)
        → ok (or_minus_one (if b then some s else o)) ≡ (if b then ok s else ok (or_minus_one o))
    branch true o = refl
    branch false o = refl

-- `Find` after `Remove` in a directory whose entries in use have distinct names: -1 under the removed name and under each that has the same
-- first 9 characters, and what was found before under every other name.
pub find-remove :
    (name other : Chars) (d : Directory)
    → Distinct d
    → find other (remove name d).1 ≡ (if same_file name other then ok minus_one else find other d)
find-remove name other d n = elim (Option-cases (lookup name d)) [
  | inl l ↦
      rw (remove_lem name d, l, find_lem other d) (absent (λ h. lookup-same name other d h ∙ l))
  | inr (e, l) ↦
      rw
        (
          remove_lem name d,
          l,
          find_lem other (without name d),
          find_lem other d,
          lookup-without name other d n,
        )
        (branch (same_file name other) (lookup other d))
]
  where
    branch :
        (b : Bool) (o : Option ℤ)
        → ok (or_minus_one (if b then none else o))
          ≡ (if b then ok minus_one else ok (or_minus_one o))
    branch true o = refl
    branch false o = refl

    absent :
        (same_file name other ≡ true → lookup other d ≡ none)
        → ok (or_minus_one (lookup other d))
          ≡ (if same_file name other then ok minus_one else ok (or_minus_one (lookup other d)))
    absent f = elim (Bool-cases (same_file name other)) [
      | inl h ↦ rw (h, f h) refl
      | inr h ↦ rw h refl
    ]
