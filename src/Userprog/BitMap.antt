-- ===== src/Userprog/BitMap.antt =====
-- userprog/bitmap.cc: an array of bits in 32-bit words.
pub mod Laws
pub mod Search
mod Tests
use Prim.Native.Nat.{bit_and, bit_or}
use project.Prelude.{
  ℕ, zero, suc, ◌+◌, ◌*◌, ◌/◌, ◌%◌, ◌^◌, List, [], ◌∷◌, Option, none, some, Bool, true, false, not,
  ℤ, pos, negsuc, minus_one, length, get_elem?, set, ltb, ◌==◌, if◌then◌else◌, Result, ok, fault,
  overrun, assertion, check, ◌>>=◌, ◌>>◌,
}
use project.Prelude.Bits.{complement}

pub record BitMap : Type 0 where
  pub num_bits : ℕ
  pub num_words : ℕ
  pub map : List ℕ

abbrev pub bits_in_word : ℕ
bits_in_word = 32

-- `divRoundUp(n, s)`
abbrev pub div_round_up : ℕ → ℕ → ℕ
div_round_up n s = n / s + (if ltb 0 (n % s) then 1 else 0)

-- `map[n]`
unfoldable pub word_at : ℕ → BitMap → Result ℕ
word_at n b = elim (get_elem? b.map n) [ none ↦ fault overrun | some w ↦ ok w ]

abbrev pub put_word : ℕ → ℕ → BitMap → BitMap
put_word n w b = record b { map = set b.map n w }

unfoldable pub mark : ℤ → BitMap → Result BitMap
mark (pos which) b = do
  check (ltb which b.num_bits) assertion
  w ← word_at (which / bits_in_word) b
  ok (put_word (which / bits_in_word) (bit_or w (2 ^ (which % bits_in_word))) b)
mark (negsuc which) b = fault assertion

unfoldable pub clear : ℤ → BitMap → Result BitMap
clear (pos which) b = do
  check (ltb which b.num_bits) assertion
  w ← word_at (which / bits_in_word) b
  ok (put_word (which / bits_in_word) (bit_and w (complement (which % bits_in_word))) b)
clear (negsuc which) b = fault assertion

unfoldable pub test : ℤ → BitMap → Result Bool
test (pos which) b = do
  check (ltb which b.num_bits) assertion
  w ← word_at (which / bits_in_word) b
  ok (not (bit_and w (2 ^ (which % bits_in_word)) == 0))
test (negsuc which) b = fault assertion

-- `for (int i = 0; i < numBits; i++) Clear(i)`, with `n` rounds to go.
unfoldable pub clear_from : ℕ → ℕ → BitMap → Result BitMap
unfolding clear
clear_from zero i b = ok b
clear_from (suc n) i b = clear (pos i) b >>= clear_from n (i + 1)

-- The words that `new unsigned int[n]` returns hold what they happen to hold.
unfoldable pub new_words : (ℕ → ℕ) → ℕ → List ℕ
new_words garbage zero = []
new_words garbage (suc n) = garbage n ∷ new_words garbage n

-- The constructor.
unfoldable pub new_bit_map : ℕ → (ℕ → ℕ) → Result BitMap
unfolding clear_from new_words
new_bit_map nitems garbage = clear_from nitems 0 (record {
  num_bits = nitems;
  num_words = div_round_up nitems bits_in_word;
  map = new_words garbage (div_round_up nitems bits_in_word);
})

-- The loop of `Find`, with `n` rounds to go.
unfoldable pub find_from : ℕ → ℕ → BitMap → Result (ℤ × BitMap)
unfolding test mark
find_from zero i b = ok (minus_one, b)
find_from (suc n) i b = do
  used ← test (pos i) b
  let later = find_from n (i + 1) b
  if used then later else (do b' ← mark (pos i) b; ok (pos i, b'))

unfoldable pub find : BitMap → Result (ℤ × BitMap)
unfolding find_from
find b = find_from b.num_bits 0 b

-- The loop of `NumClear`.
unfoldable pub count_from : ℕ → ℕ → ℕ → BitMap → Result ℕ
unfolding test
count_from zero i count b = ok count
count_from (suc n) i count b = do
  used ← test (pos i) b
  count_from n (i + 1) (if used then count else count + 1) b

unfoldable pub num_clear : BitMap → Result ℕ
unfolding count_from
num_clear b = count_from b.num_bits 0 0 b
