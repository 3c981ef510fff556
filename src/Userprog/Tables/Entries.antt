-- ===== src/Userprog/Tables/Entries.antt =====
-- userprog/addrspace.cc: the numbers that a `Table` hands out.
use project.Prelude.{
  ◌&&◌, ℕ, ◌<◌, ◌≡◌, refl, ap, ◌∙◌, Option, none, Bool, true, false, ℤ, pos, negsuc, minus_one,
  eq_ℤ, eq_ℤ→eq, ltb, ◌==◌, if◌then◌else◌, ok, ◌⊎◌, inl, inr, arith, Bool-cases, lt→ltb, Returns,
  Returns-bind,
}
use project.Userprog.BitMap.{BitMap, find, clear}
use project.Userprog.BitMap.Laws.{used, HasRoom, IsSetTo, clear-IsSetTo, test_lem}
use project.Userprog.BitMap.Search.{find-Found}
use project.Userprog.Tables.{Table, get, put_at, put, remove}

module _ {A : Type 0} where
  -- The map is a map of the entries, with a word for each bit.
  abbrev pub Fitting : Table A → Type 0
  Fitting t = HasRoom t.map × (t.map.num_bits ≡ t.size)

  -- The entry at a number that may be in use.
  abbrev pub entry : Table A → ℕ → Option A
  entry t i = if ltb i t.size && (used t.map i == 1) then t.table i else none

  get_lem : (i : ℕ) (t : Table A) → Fitting t → get (pos i) t ≡ ok (entry t i)
  unfolding get
  get_lem i t (r, n) = elim (Bool-cases (ltb i t.size)) [
    | inl l ↦ rw (l, test_lem i t.map r (ground arith)) refl
    | inr l ↦ rw l refl
  ]

  -- The table after number `k` has got a new element and its bit a new value.
  abbrev changed : ℕ → Option A → BitMap → Table A → Table A
  changed k f map t = record t { map = map; table = λ j. if k == j then f else t.table j }

  get_negative : (j : ℕ) (t u : Table A) → get (negsuc j) t ≡ get (negsuc j) u
  unfolding get
  get_negative j t u = refl

  entry-changed :
      (v k j : ℕ) (f : Option A) (map : BitMap) (t : Table A)
      → k < t.size
      → IsSetTo v k t.map map
      → entry (changed k f map t) j ≡ (if j == k then (if v == 1 then f else none) else entry t j)
  entry-changed v k j f map t l s = elim (Bool-cases (j == k)) [
    | inl e ↦
        let same : (k == j) ≡ true = ground arith in
        let here : used map j ≡ v = s.2 j ∙ rw same refl in
        let small : ltb j t.size ≡ true = ground (arith, e) in rw (small, here, same, e) refl
    | inr e ↦
        let other : (k == j) ≡ false = ground arith in
        let there : used map j ≡ used t.map j = s.2 j ∙ rw other refl in rw (there, other, e) refl
  ]

  get-changed :
      (v k : ℕ) (f : Option A) (map : BitMap) (t : Table A)
      → Fitting t
      → k < t.size
      → IsSetTo v k t.map map
      → (j : ℤ)
      → get j (changed k f map t)
        ≡ (if eq_ℤ j (pos k) then ok (if v == 1 then f else none) else get j t)
  get-changed v k f map t (r, n) l s (negsuc j) = get_negative j (changed k f map t) t
  get-changed v k f map t (r, n) l s (pos j) =
      rw
        (
          get_lem j (changed k f map t) (s.1, s.0 ∙ n),
          get_lem j t (r, n),
          entry-changed v k j f map t l s,
        )
        (push (j == k) _ _)
    where
      push : (b : Bool) (x y : Option A) → ok (if b then x else y) ≡ (if b then ok x else ok y)
      push true x y = refl
      push false x y = refl

  -- What `Put` does.
  abbrev pub IsPut : Option A → Table A → ℤ × Table A → Type 0
  IsPut f t x =
      Fitting x.1
      × (((x.0 ≡ minus_one) × (x.1 ≡ t) × ((j : ℕ) → j < t.size → used t.map j ≡ 1))
          ⊎ ((k : ℕ) × (x.0 ≡ pos k)
              × (k < t.size)
              × (used t.map k ≡ 0)
              × ((j : ℤ) → get j x.1 ≡ (if eq_ℤ j (pos k) then ok f else get j t))))

  -- In a table whose map is a map of its entries, `Put` returns, and the table is such a table again: if no number is free, it returns -1 and nothing has changed; if
  -- one is, the number that it returns was free, `Get` of it is the new element from then on, and `Get` of every other number is what it was.
  pub get-put : (f : Option A) (t : Table A) → Fitting t → Returns (IsPut f t) (put f t)
  unfolding put put_at
  get-put f t (r, n) =
      Returns-bind {A = ℤ × BitMap} (IsPut f t) _ (find t.map) _ (find-Found t.map r)
        λ (i, map) found. elim found [
          | inl (e, same, all) ↦
              rw (e, same) ((r, n), inl (refl, refl, λ j l. all j (omega arith) (omega (arith, n))))
          | inr (k, e, p, q, z, all, s) ↦
              rw (e, lt→ltb k t.size (omega (arith, n)))
                (
                  (s.1, s.0 ∙ n),
                  inr (
                    k,
                    refl,
                    omega (arith, n),
                    z,
                    get-changed 1 k f map t (r, n) (omega (arith, n)) s,
                  ),
                )
        ]

  get_negative_none : (i : ℕ) (t : Table A) → get (negsuc i) t ≡ ok none
  unfolding get
  get_negative_none i t = refl

  unused :
      (i : ℤ) (t : Table A)
      → get i t ≡ ok none
      → (j : ℤ) → get j t ≡ (if eq_ℤ j i then ok none else get j t)
  unused i t e j = elim (Bool-cases (eq_ℤ j i)) [
    | inl same ↦ rw same (ap (λ x. get x t) (eq_ℤ→eq j i same) ∙ e)
    | inr other ↦ rw other refl
  ]

  -- In such a table `Remove` returns what `Get` would, and the table is such a table again: `Get` of the number is null from then on, and `Get` of every other
  -- number is what it was.
  pub get-remove :
      (i : ℤ) (t : Table A)
      → Fitting t
      → Returns
          (λ x.
            (get i t ≡ ok x.0)
            × Fitting x.1
            × ((j : ℤ) → get j x.1 ≡ (if eq_ℤ j i then ok none else get j t)))
          (remove i t)
  unfolding remove put_at
  get-remove (negsuc i) t (r, n) =
      (get_negative_none i t, (r, n), unused (negsuc i) t (get_negative_none i t))
  get-remove (pos i) t (r, n) = elim (Bool-cases (ltb i t.size)) [
    | inl l ↦ elim (Bool-cases (used t.map i == 1)) [
      | inl u ↦
          let there : get (pos i) t ≡ ok (t.table i) = get_lem i t (r, n) ∙ rw (l, u) refl in
          rw (l, test_lem i t.map r (ground arith), u)
            (Returns-bind {A = BitMap} _ (IsSetTo 0 i t.map) (clear (pos i) t.map) _
              (clear-IsSetTo i t.map r (ground arith))
              λ map s. (there, (s.1, s.0 ∙ n), get-changed 0 i none map t (r, n) (ground arith) s))
      | inr u ↦
          let absent : get (pos i) t ≡ ok none = get_lem i t (r, n) ∙ rw (l, u) refl in
          rw (l, test_lem i t.map r (ground arith), u) (absent, (r, n), unused (pos i) t absent)
    ]
    | inr l ↦
        let absent : get (pos i) t ≡ ok none = get_lem i t (r, n) ∙ rw l refl in
        rw l (absent, (r, n), unused (pos i) t absent)
  ]
