-- ===== src/Prelude/Words.antt =====
-- `char` (signed, eight bits) and `int` (32 bits), as the i386 builds of nachos-csci402/code have them.
use Prim.Native.Nat.{ℕ, ◌-◌, ◌%◌, ◌^◌, ◌<◌}
use mathlib.Core.Path.{◌≡◌}
use mathlib.Core.Bool.{Bool, true, false}
use native.Mathlib.Omega.{arith}
use project.Prelude.Tests.{ltb, ◌==◌, if◌then◌else◌}

-- `negsuc n` is -(n + 1).
pub data ℤ : Type 0 where
  pos : ℕ → ℤ
  negsuc : ℕ → ℤ

-- `==` on `int`.
abbrev pub eq_ℤ : ℤ → ℤ → Bool
eq_ℤ (pos a) (pos b) = a == b
eq_ℤ (pos a) (negsuc b) = false
eq_ℤ (negsuc a) (pos b) = false
eq_ℤ (negsuc a) (negsuc b) = a == b

abbrev pub minus_one : ℤ
minus_one = negsuc 0

-- `(int)c` for a byte that is held in a `char`.
abbrev pub of_char : ℕ → ℤ
of_char b = if ltb b 128 then pos b else negsuc (255 - b)

-- `(char)i`, as the byte that it stores.
abbrev pub to_char : ℤ → ℕ
to_char (pos n) = n % 256
to_char (negsuc n) = 255 - n % 256

-- `(int)u` for a 32-bit `unsigned int`.
abbrev pub of_unsigned : ℕ → ℤ
of_unsigned u = if ltb u (2 ^ 31) then pos u else negsuc (2 ^ 32 - 1 - u)

pub of_char-to_char : (n : ℕ) → n < 128 → of_char (to_char (pos n)) ≡ pos n
of_char-to_char n h = ground arith

pub to_char-of_char : (b : ℕ) → b < 256 → to_char (of_char b) ≡ b
to_char-of_char b h = ground arith

pub eq_ℤ_refl : (a : ℤ) → eq_ℤ a a ≡ true
eq_ℤ_refl a = ground arith

pub eq_ℤ→eq : (a b : ℤ) → eq_ℤ a b ≡ true → a ≡ b
eq_ℤ→eq a b h = ground arith
