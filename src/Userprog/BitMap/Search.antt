-- ===== src/Userprog/BitMap/Search.antt =====
-- userprog/bitmap.cc: the loops of the constructor, of `Find` and of `NumClear`.
use project.Prelude.{
  ℕ, zero, suc, leb, ◌&&◌, ◌+◌, ◌≤◌, ◌<◌, ◌≡◌, refl, ℤ, pos, minus_one, eq_ℤ, ap, ◌∙◌, length, ltb,
  ◌==◌, ==_iff, if◌then◌else◌, ok, ◌⊎◌, inl, inr, arith, Bool-cases, Returns, Returns-bind,
  Returns-implies,
}
use project.Userprog.BitMap.{
  BitMap, new_words, mark, clear, find_from, find, count_from, num_clear, clear_from, new_bit_map,
  div_round_up,
}
use project.Userprog.BitMap.Laws.{
  used, used-le-one, HasRoom, IsSetTo, mark-IsSetTo, clear-IsSetTo, test_lem,
}

-- What `Find` returns when it looks at the numbers from `i` on: -1 if all are in use, with the map as
-- it was, or else the smallest that is free, which is then in use.
abbrev pub Found : ℕ → BitMap → ℤ × BitMap → Type 0
Found i b x =
    ((x.0 ≡ minus_one) × (x.1 ≡ b) × ((j : ℕ) → i ≤ j → j < b.num_bits → used b j ≡ 1))
    ⊎ ((k : ℕ) × (x.0 ≡ pos k)
        × (i ≤ k)
        × (k < b.num_bits)
        × (used b k ≡ 0)
        × ((j : ℕ) → i ≤ j → j < k → used b j ≡ 1)
        × IsSetTo 1 k b x.1)

Found-later : (i : ℕ) (b : BitMap) (x : ℤ × BitMap) → used b i ≡ 1 → Found (i + 1) b x → Found i b x
Found-later i b x u (inl (e, f, all)) = inl (e, f, λ j p q. from j p q)
  where
    from : (j : ℕ) → i ≤ j → j < b.num_bits → used b j ≡ 1
    from j p q = elim (Bool-cases (i == j)) [
      | inl same ↦ let e : i ≡ j = (==_iff i j).0 same in rw (← e) u
      | inr other ↦ all j (ground arith) q
    ]
Found-later i b x u (inr (k, e, p, q, z, all, m)) = inr (k, e, omega arith, q, z, from, m)
  where
    from : (j : ℕ) → i ≤ j → j < k → used b j ≡ 1
    from j p' q' = elim (Bool-cases (i == j)) [
      | inl same ↦ let e : i ≡ j = (==_iff i j).0 same in rw (← e) u
      | inr other ↦ all j (ground arith) q'
    ]

find_from-Found :
    (n i : ℕ) (b : BitMap) → HasRoom b → i + n ≡ b.num_bits → Returns (Found i b) (find_from n i b)
unfolding find_from
find_from-Found zero i b r e = inl (refl, refl, λ j p q. absurd (omega arith))
find_from-Found (suc n) i b r e = elim (Bool-cases (used b i == 1)) [
  | inl busy ↦
      rw (test_lem i b r (omega arith), busy)
        (Returns-implies (find_from n (i + 1) b) (λ x f. Found-later i b x ((==_iff _ _).0 busy) f)
          (find_from-Found n (i + 1) b r (omega arith)))
  | inr free ↦
      rw (test_lem i b r (omega arith), free)
        (Returns-bind (Found i b) (IsSetTo 1 i b) (mark (pos i) b) _
          (mark-IsSetTo i b r (omega arith))
          (λ c m. inr (
            i,
            refl,
            omega arith,
            omega arith,
            ground (arith, used-le-one b i),
            (λ j p q. absurd (omega arith)),
            m,
          )))
]

-- If there is a word for each bit, `Find` returns: -1, with the map as it was, if all numbers are in
-- use, or else the smallest free number, whose bit is then set and the only one to have changed.
pub find-Found : (b : BitMap) → HasRoom b → Returns (Found 0 b) (find b)
unfolding find
find-Found b r = find_from-Found b.num_bits 0 b r (omega arith)

-- The bits from `i` on, `n` of them, are cleared, and the others stay.
abbrev IsCleared : ℕ → ℕ → BitMap → BitMap → Type 0
IsCleared n i b c =
    (c.num_bits ≡ b.num_bits)
    × HasRoom c
    × ((j : ℕ) → used c j ≡ (if leb i j && ltb j (i + n) then 0 else used b j))

clear_from-IsCleared :
    (n i : ℕ) (b : BitMap)
    → HasRoom b
    → i + n ≤ b.num_bits
    → Returns (IsCleared n i b) (clear_from n i b)
unfolding clear_from
clear_from-IsCleared zero i b r h = (refl, r, λ j. ground arith)
clear_from-IsCleared (suc n) i b r h =
    Returns-bind (IsCleared (suc n) i b) (IsSetTo 0 i b) (clear (pos i) b) (clear_from n (i + 1))
      (clear-IsSetTo i b r (omega arith))
      λ c (e, r', s).
        Returns-implies (clear_from n (i + 1) c)
          (λ d (e', r'', s'). (e' ∙ e, r'', λ j. ground (arith, s j, s' j)))
          (clear_from-IsCleared n (i + 1) c r' (omega arith))

length-new_words : (g : ℕ → ℕ) (n : ℕ) → length (new_words g n) ≡ n
unfolding new_words
length-new_words g zero = refl
length-new_words g (suc n) = omega (arith, length-new_words g n)

-- A new map has all its bits clear, whatever was in its memory.
pub new_bit_map-clear :
    (n : ℕ) (garbage : ℕ → ℕ)
    → Returns
        (λ b. (b.num_bits ≡ n) × HasRoom b × ((j : ℕ) → j < n → used b j ≡ 0))
        (new_bit_map n garbage)
unfolding new_bit_map
new_bit_map-clear n g =
    let b : BitMap = record {
      num_bits = n;
      num_words = div_round_up n 32;
      map = new_words g (div_round_up n 32);
    } in
    Returns-implies (clear_from n 0 b) (λ c (e, r, s). (e, r, λ j h. ground (arith, s j)))
      (clear_from-IsCleared n 0 b (ground (arith, length-new_words g (div_round_up n 32)))
        (omega arith))

-- How many of `n` numbers from `i` on are free.
unfoldable pub free_count : ℕ → ℕ → BitMap → ℕ
free_count zero i b = 0
free_count (suc n) i b = (if used b i == 1 then 0 else 1) + free_count n (i + 1) b

count_from_lem :
    (n i count : ℕ) (b : BitMap)
    → HasRoom b
    → i + n ≤ b.num_bits
    → count_from n i count b ≡ ok (count + free_count n i b)
unfolding count_from free_count
count_from_lem zero i count b r h = ap ok (omega arith)
count_from_lem (suc n) i count b r h = rw (test_lem i b r (omega arith)) (
    ground (
      arith,
      count_from_lem n (i + 1) (if used b i == 1 then count else count + 1) b r (omega arith),
    ))

pub free_count-IsSetTo :
    (n i k : ℕ) (b c : BitMap)
    → IsSetTo 1 k b c
    → used b k ≡ 0
    → free_count n i b ≡ free_count n i c + (if leb i k && ltb k (i + n) then 1 else 0)
unfolding free_count
free_count-IsSetTo zero i k b c s z = ground arith
free_count-IsSetTo (suc n) i k b c s z =
    ground (arith, s.2 i, free_count-IsSetTo n (i + 1) k b c s z)

free_count-none :
    (n i : ℕ) (b : BitMap) → ((j : ℕ) → i ≤ j → j < i + n → used b j ≡ 1) → free_count n i b ≡ 0
unfolding free_count
free_count-none zero i b h = refl
free_count-none (suc n) i b h = ground (
  arith,
  h i (omega arith) (omega arith),
  free_count-none n (i + 1) b (λ j p q. h j (omega arith) (omega arith)),
)

-- `NumClear` counts the numbers that are free.
pub num_clear_lem : (b : BitMap) → HasRoom b → num_clear b ≡ ok (free_count b.num_bits 0 b)
unfolding num_clear
num_clear_lem b r = count_from_lem b.num_bits 0 0 b r (omega arith) ∙ ap ok (omega arith)

pub free_count_all :
    (n i : ℕ) (b : BitMap) → ((j : ℕ) → i ≤ j → j < i + n → used b j ≡ 0) → free_count n i b ≡ n
unfolding free_count
free_count_all zero i b h = refl
free_count_all (suc n) i b h = ground (
  arith,
  h i (omega arith) (omega arith),
  free_count_all n (i + 1) b (λ j p q. h j (omega arith) (omega arith)),
)

-- `NumClear` and `Find` agree, if there is a word for each bit: `Find` returns, a search that finds a number leaves one less clear, and a search fails
-- only if none is clear.
pub num_clear-find :
    (b : BitMap)
    → HasRoom b
    → Returns
        (λ x.
          (m : ℕ) × (num_clear x.1 ≡ ok m)
          × (num_clear b ≡ ok (if eq_ℤ x.0 minus_one then m else m + 1))
          × (x.0 ≡ minus_one → m ≡ 0))
        (find b)
unfolding num_clear
num_clear-find b r = Returns-implies (find b) agree (find-Found b r)
  where
    agree :
        (x : ℤ × BitMap)
        → Found 0 b x
        → (m : ℕ) × (count_from x.1.num_bits 0 0 x.1 ≡ ok m)
          × (count_from b.num_bits 0 0 b ≡ ok (if eq_ℤ x.0 minus_one then m else m + 1))
          × (x.0 ≡ minus_one → m ≡ 0)
    agree x (inl (e, f, all)) =
        let none_free : free_count b.num_bits 0 b ≡ 0 =
          free_count-none b.num_bits 0 b (λ j p q. all j p (omega arith)) in
        (
          0,
          rw f (
              rw (count_from_lem b.num_bits 0 0 b r (omega arith))
                (ap ok (omega (arith, none_free)))),
          rw (e, count_from_lem b.num_bits 0 0 b r (omega arith))
              (ap ok (ground (arith, none_free))),
          λ e'. refl,
        )
    agree x (inr (k, e, p, q, z, all, s)) = (
      0 + free_count b.num_bits 0 x.1,
      ap (λ n. count_from n 0 0 x.1) s.0
          ∙ count_from_lem b.num_bits 0 0 x.1 s.1 (omega (arith, s.0)),
      rw (e, count_from_lem b.num_bits 0 0 b r (omega arith))
          (ap ok (ground (arith, free_count-IsSetTo b.num_bits 0 k b x.1 s z))),
      λ h. cc,
    )
