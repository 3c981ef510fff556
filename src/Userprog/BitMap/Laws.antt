-- ===== src/Userprog/BitMap/Laws.antt =====
-- userprog/bitmap.cc behaves as a set of numbers: what each operation does to each bit.
use Prim.Native.Nat.{bit_and, bit_or}
use native.Mathlib.Nat.{pow-suc}
use project.Prelude.{
  ℕ, zero, suc, ◌+◌, ◌-◌, ◌*◌, ◌/◌, ◌%◌, ◌^◌, ◌≤◌, ◌<◌, ◌≡◌, ◌≢◌, refl, List, [], ◌∷◌, Option, none,
  some, Bool, true, false, not, ℤ, pos, negsuc, minus_one, length, length-set, get_elem?, get_or,
  set, ltb, ◌==◌, ==_iff, if◌then◌else◌, Result, ok, fault, check, ◌>>=◌, ◌⊎◌, inl, inr, arith,
  Bool-cases, Returns, sym, ap, lt→ltb,
}
use project.Prelude.Bits.{
  bit, bit-le-one, bit-bit_and, bit-bit_or, bit-pow, bit_and-pow, complement, bit-complement,
}
use project.Userprog.BitMap.{BitMap, word_at, put_word, mark, clear, test}

-- 1 if number `i` is in the set, 0 if not.
unfoldable pub used : BitMap → ℕ → ℕ
used b i = bit (get_or b.map (i / 32) 0) (i % 32)

pub used-le-one : (b : BitMap) (j : ℕ) → used b j ≤ 1
unfolding used
used-le-one b j = bit-le-one (get_or b.map (j / 32) 0) (j % 32)

-- There is a word for each bit.
abbrev pub HasRoom : BitMap → Type 0
HasRoom b = b.num_bits ≤ length b.map * 32

word_at_lem : (n : ℕ) (b : BitMap) → n < length b.map → word_at n b ≡ ok (get_or b.map n 0)
unfolding word_at
word_at_lem n b h = go b.map n h
  where
    go :
        (ws : List ℕ) (n : ℕ)
        → n < length ws
        → (elim (get_elem? ws n) [ none ↦ fault project.Prelude.overrun | some w ↦ ok w ])
          ≡ ok (get_or ws n 0)
    go [] n h = absurd (omega arith)
    go (w ∷ ws) zero h = refl
    go (w ∷ ws) (suc n) h = go ws n (omega arith)

get_or-set :
    (ws : List ℕ) (n m v : ℕ)
    → n < length ws
    → get_or (set ws n v) m 0 ≡ (if n == m then v else get_or ws m 0)
get_or-set [] n m v h = absurd (omega arith)
get_or-set (w ∷ ws) zero zero v h = refl
get_or-set (w ∷ ws) zero (suc m) v h = ground arith
get_or-set (w ∷ ws) (suc n) zero v h = ground arith
get_or-set (w ∷ ws) (suc n) (suc m) v h = ground (arith, get_or-set ws n m v)

-- A word changed in one bit changes that bit of the map.
put_word-used :
    (b : BitMap) (i j w x : ℕ)
    → i / 32 < length b.map
    → bit w (j % 32) ≡ (if i % 32 == j % 32 then x else bit (get_or b.map (i / 32) 0) (j % 32))
    → used (put_word (i / 32) w b) j ≡ (if i == j then x else used b j)
unfolding used
put_word-used b i j w x h e = elim (Bool-cases (i / 32 == j / 32)) [
  | inl same ↦ ground (arith, get_or-set b.map (i / 32) (j / 32) w h)
  | inr other ↦ ground (arith, get_or-set b.map (i / 32) (j / 32) w h)
]

-- Bit `i` has been set to `v`, and nothing else has changed.
abbrev pub IsSetTo : ℕ → ℕ → BitMap → BitMap → Type 0
IsSetTo v i b c =
    (c.num_bits ≡ b.num_bits) × HasRoom c × ((j : ℕ) → used c j ≡ (if i == j then v else used b j))

pow_pos : (c : ℕ) → 0 < 2 ^ c
pow_pos zero = omega arith
pow_pos (suc c) = omega (arith, pow_pos c, pow-suc 2 c)

module _ (i : ℕ) (b : BitMap) (r : HasRoom b) (h : i < b.num_bits) where
  word : ℕ
  word = get_or b.map (i / 32) 0

  reads : word_at (i / 32) b ≡ ok word
  unfolding word
  reads = word_at_lem (i / 32) b (omega arith)

  -- `Mark` of a number of the map, if there is a word for each bit, returns with its bit set and no
  -- other changed.
  pub mark-IsSetTo : Returns (IsSetTo 1 i b) (mark (pos i) b)
  unfolding mark word
  mark-IsSetTo =
      rw (lt→ltb _ _ h, reads)
        (
          refl,
          omega (arith, length-set b.map (i / 32) (bit_or word (2 ^ (i % 32)))),
          λ j. put_word-used b i j (bit_or word (2 ^ (i % 32))) 1 (omega arith) (
              ground (
                arith,
                bit-bit_or word (2 ^ (i % 32)) (j % 32),
                bit-pow (i % 32) (j % 32),
                bit-le-one word (j % 32),
              )),
        )

  -- `Clear` of a number of the map, if there is a word for each bit, returns with its bit cleared and no
  -- other changed.
  pub clear-IsSetTo : Returns (IsSetTo 0 i b) (clear (pos i) b)
  unfolding clear word
  clear-IsSetTo =
      rw (lt→ltb _ _ h, reads)
        (
          refl,
          omega (arith, length-set b.map (i / 32) (bit_and word (complement (i % 32)))),
          λ j. put_word-used b i j (bit_and word (complement (i % 32))) 0 (omega arith) (
              ground (
                arith,
                bit-bit_and word (complement (i % 32)) (j % 32),
                bit-complement (i % 32) (j % 32),
                bit-le-one word (j % 32),
              )),
        )

  -- `Test` reads its bit.
  pub test_lem : test (pos i) b ≡ ok (used b i == 1)
  unfolding test used word
  test_lem =
      rw (lt→ltb _ _ h, reads)
        (ap ok
          (ground (arith, bit_and-pow word (i % 32), bit-le-one word (i % 32), pow_pos (i % 32))))
