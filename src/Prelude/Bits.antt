-- ===== src/Prelude/Bits.antt =====
-- Single bits of the words that userprog/bitmap.cc sets, clears and tests.
use Prim.Native.Nat.{
  ℕ, zero, suc, ◌+◌, ◌-◌, ◌*◌, ◌/◌, ◌%◌, ◌^◌, ◌≤◌, ◌<◌, min, max, bit_and, bit_or, digits,
  bit_and-bitwise, bit_or-bitwise,
}
use mathlib.Core.Path.{◌≡◌, refl, ap, ◌∙◌}
use mathlib.Core.Bool.{Bool, true, ◌&&◌}
use native.Mathlib.Omega.{arith}
use native.Mathlib.Nat.{pow-suc}
use project.Prelude.Tests.{◌==◌, ==_iff, if◌then◌else◌}

-- The digit of weight 2 ^ d.
unfoldable pub bit : ℕ → ℕ → ℕ
bit w zero = w % 2
bit w (suc d) = bit (w / 2) d

-- The digits of a result, for an operation `f` on digits and what `z` makes of the other number.
module _ (z : ℕ → ℕ) (f : ℕ → ℕ → ℕ) (half : (v : ℕ) → z v ≡ z (v / 2) * 2 + f 0 (v % 2)) where
  -- Any count of digits that the first number fits in gives the same result.
  fuel_irrelevant : (j k w v : ℕ) → w ≤ j → w ≤ k → digits z f j w v ≡ digits z f k w v
  fuel_irrelevant zero zero w v p q = refl
  fuel_irrelevant zero (suc k) zero v p q = refl
  fuel_irrelevant zero (suc k) (suc w) v p q = absurd (omega arith)
  fuel_irrelevant (suc j) zero zero v p q = refl
  fuel_irrelevant (suc j) zero (suc w) v p q = absurd (omega arith)
  fuel_irrelevant (suc j) (suc k) zero v p q = refl
  fuel_irrelevant (suc j) (suc k) (suc w) v p q =
      omega (arith, fuel_irrelevant j k (suc w / 2) (v / 2) (omega arith) (omega arith))

  pub lowest_digit :
      (w v : ℕ) → digits z f w w v ≡ digits z f (w / 2) (w / 2) (v / 2) * 2 + f (w % 2) (v % 2)
  lowest_digit zero v = half v
  lowest_digit (suc w) v =
      omega (arith, fuel_irrelevant w (suc w / 2) (suc w / 2) (v / 2) (omega arith) (omega arith))

halve_and : (w v : ℕ) → bit_and w v ≡ bit_and (w / 2) (v / 2) * 2 + min (w % 2) (v % 2)
halve_and w v = omega (
  arith,
  bit_and-bitwise w v,
  bit_and-bitwise (w / 2) (v / 2),
  lowest_digit (λ b. 0) min (λ b. omega arith) w v,
)

halve_or : (w v : ℕ) → bit_or w v ≡ bit_or (w / 2) (v / 2) * 2 + max (w % 2) (v % 2)
halve_or w v = omega (
  arith,
  bit_or-bitwise w v,
  bit_or-bitwise (w / 2) (v / 2),
  lowest_digit (λ b. b) max (λ b. omega arith) w v,
)

pub bit-le-one : (w d : ℕ) → bit w d ≤ 1
unfolding bit
bit-le-one w zero = omega arith
bit-le-one w (suc d) = bit-le-one (w / 2) d

pub bit-bit_and : (w v d : ℕ) → bit (bit_and w v) d ≡ min (bit w d) (bit v d)
unfolding bit
bit-bit_and w v zero = omega (arith, halve_and w v)
bit-bit_and w v (suc d) =
    let e : bit_and w v / 2 ≡ bit_and (w / 2) (v / 2) = omega (arith, halve_and w v) in
    rw e (bit-bit_and (w / 2) (v / 2) d)

pub bit-bit_or : (w v d : ℕ) → bit (bit_or w v) d ≡ max (bit w d) (bit v d)
unfolding bit
bit-bit_or w v zero = omega (arith, halve_or w v)
bit-bit_or w v (suc d) =
    let e : bit_or w v / 2 ≡ bit_or (w / 2) (v / 2) = omega (arith, halve_or w v) in
    rw e (bit-bit_or (w / 2) (v / 2) d)

bit_zero : (d : ℕ) → bit 0 d ≡ 0
unfolding bit
bit_zero zero = refl
bit_zero (suc d) = bit_zero d

-- A power of two has one digit.
pub bit-pow : (c d : ℕ) → bit (2 ^ c) d ≡ (if c == d then 1 else 0)
unfolding bit
bit-pow zero zero = refl
bit-pow zero (suc d) = ground (arith, bit_zero d)
bit-pow (suc c) zero = ground (arith, pow-suc 2 c)
bit-pow (suc c) (suc d) =
    let e : 2 ^ suc c / 2 ≡ 2 ^ c = omega (arith, pow-suc 2 c) in rw e (ground (arith, bit-pow c d))

digits_and_zero : (n w : ℕ) → digits (λ b. 0) min n w 0 ≡ 0
digits_and_zero zero w = refl
digits_and_zero (suc n) zero = refl
digits_and_zero (suc n) (suc w) = omega (arith, digits_and_zero n (suc w / 2))

bit_and-zero : (w : ℕ) → bit_and w 0 ≡ 0
bit_and-zero w = bit_and-bitwise w 0 ∙ digits_and_zero w w

-- A word masked by a power of two is that digit.
pub bit_and-pow : (w c : ℕ) → bit_and w (2 ^ c) ≡ bit w c * 2 ^ c
unfolding bit
bit_and-pow w zero = omega (arith, halve_and w 1, bit_and-zero (w / 2))
bit_and-pow w (suc c) =
    let e : 2 ^ suc c / 2 ≡ 2 ^ c = omega (arith, pow-suc 2 c) in
    let h : bit_and w (2 ^ suc c) ≡ bit_and (w / 2) (2 ^ c) * 2 =
      rw (halve_and w (2 ^ suc c), e) (omega (arith, pow-suc 2 c)) in
    omega (arith, h, bit_and-pow (w / 2) c, ap (λ (t : ℕ). bit (w / 2) c * t) (pow-suc 2 c))

unfoldable pub all_checked : ℕ → (ℕ → Bool) → Bool
all_checked zero p = true
all_checked (suc n) p = p n && all_checked n p

pub all_checked_sound : (n : ℕ) (p : ℕ → Bool) (x : ℕ) → all_checked n p ≡ true → x < n → p x ≡ true
unfolding all_checked
all_checked_sound zero p x h lt = absurd (omega arith)
all_checked_sound (suc n) p x h lt = ground (arith, all_checked_sound n p x)

-- `~(1 << c)` on 32 bits.
abbrev pub complement : ℕ → ℕ
complement c = 2 ^ 32 - 1 - 2 ^ c

complement_table :
    all_checked 1024
      (λ x. bit (complement (x / 32)) (x % 32) == (if x / 32 == x % 32 then 0 else 1))
    ≡ true
unfolding all_checked bit
complement_table = refl

pub bit-complement : (c d : ℕ) → c < 32 → d < 32 → bit (complement c) d ≡ (if c == d then 0 else 1)
bit-complement c d p q =
    let h =
      all_checked_sound 1024
        (λ x. bit (complement (x / 32)) (x % 32) == (if x / 32 == x % 32 then 0 else 1))
        (c * 32 + d) complement_table (omega arith) in
    let e : (c * 32 + d) / 32 ≡ c = omega arith in
    let f : (c * 32 + d) % 32 ≡ d = omega arith in (==_iff _ _).0 (rw (e, f) at h)
