-- ===== src/Userprog/BitMap/Tests.antt =====
-- Runs of the bit map of userprog/bitmap.cc.
use native.Mathlib.Omega.{arith}
use project.Prelude.{◌≡◌, refl, [], ◌∷◌, true, false, pos, ok, Returns, fault, assertion}
use project.Userprog.BitMap.{BitMap, word_at, mark, test, find, num_clear}
use project.Userprog.BitMap.Search.{Found, find-Found}

-- 0, 1 and 33 are taken, of 40.
abbrev forty : BitMap
forty = record { num_bits = 40; num_words = 2; map = 3 ∷ 2 ∷ [] }

find_test : find forty ≡ ok (pos 2, record { num_bits = 40; num_words = 2; map = 7 ∷ 2 ∷ [] })
unfolding find word_at
find_test = refl

num_clear_test : num_clear forty ≡ ok 37
unfolding num_clear word_at
num_clear_test = refl

mark_test : mark (pos 40) forty ≡ fault assertion
unfolding mark word_at
mark_test = refl

bits_test : (test (pos 33) forty ≡ ok true) × (test (pos 32) forty ≡ ok false)
unfolding test word_at
bits_test = (refl, refl)

find-Found_example : Returns (Found 0 forty) (find forty)
find-Found_example = find-Found forty (omega arith)
