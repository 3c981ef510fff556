-- ===== src/Prelude/Slots.antt =====
-- A `std::vector` of pointers to objects that the code deletes: a slot is `some` object while the
-- object lives, and `none` once it is deleted (the pointer stays in the vector, and dangles).
use Prim.Native.Nat.{ℕ, zero, suc, ◌+◌}
use mathlib.Core.Path.{◌≡◌, refl, ap}
use mathlib.Core.Logic.{◌≢◌}
use mathlib.Core.Bool.{Bool, true, false}
use mathlib.Core.Option.{Option, none, some}
use mathlib.Core.List.{List, [], ◌∷◌, ◌++◌}
use native.Mathlib.Omega.{arith}
use project.Prelude.Tests.{ltb}
use project.Prelude.Lists.{length, set, length-set}
use project.Prelude.Words.{ℤ, pos, negsuc}
use project.Prelude.Results.{Result, ok, fault, out_of_range, dangling, Holds, Holds-implies}

module _ {ℓ} {A : Type ℓ} where
  -- `index > -1 && (unsigned int)index < table.size()`
  unfoldable pub in_table : ℤ → List (Option A) → Bool
  in_table (pos n) t = ltb n (length t)
  in_table (negsuc n) t = false

  -- The object in slot `n` is read.
  unfoldable pub read : List (Option A) → ℕ → Result A
  read [] n = fault out_of_range
  read (none ∷ t) zero = fault dangling
  read (some a ∷ t) zero = ok a
  read (x ∷ t) (suc n) = read t n

  -- `table.at(index)`, and the pointer is followed. A negative `int` is out of range as a `size_t`.
  unfoldable pub slot : ℤ → List (Option A) → Result A
  unfolding read
  slot (pos n) t = read t n
  slot (negsuc n) t = fault out_of_range

  -- The object behind the pointer gets a new state, or is deleted.
  unfoldable pub set_slot : ℤ → Option A → List (Option A) → List (Option A)
  set_slot (pos n) v t = set t n v
  set_slot (negsuc n) v t = t

  pub length-set_slot :
      (i : ℤ) (v : Option A) (t : List (Option A)) → length (set_slot i v t) ≡ length t
  unfolding set_slot
  length-set_slot (pos n) v t = length-set t n v
  length-set_slot (negsuc n) v t = refl

  read-in_table : (t : List (Option A)) (n : ℕ) → Holds (λ a. ltb n (length t) ≡ true) (read t n)
  unfolding read
  read-in_table [] n = tt
  read-in_table (none ∷ t) zero = tt
  read-in_table (some a ∷ t) zero = ground arith
  read-in_table (none ∷ t) (suc n) = ground (arith, read-in_table t n)
  read-in_table (some a ∷ t) (suc n) = ground (arith, read-in_table t n)

  -- What can be read is in the table.
  pub slot-in_table : (i : ℤ) (t : List (Option A)) → Holds (λ a. in_table i t ≡ true) (slot i t)
  unfolding slot in_table
  slot-in_table (pos n) t = read-in_table t n
  slot-in_table (negsuc n) t = tt

  read-set :
      (t : List (Option A)) (n : ℕ) (b : A)
      → Holds (λ a. read (set t n (some b)) n ≡ ok b) (read t n)
  unfolding read
  read-set [] n b = tt
  read-set (none ∷ t) zero b = tt
  read-set (some a ∷ t) zero b = refl
  read-set (none ∷ t) (suc n) b = read-set t n b
  read-set (some a ∷ t) (suc n) b = read-set t n b

  -- A live object that has got a new state is read in that state.
  pub slot-set_slot :
      (i : ℤ) (t : List (Option A)) (b : A)
      → Holds (λ a. slot i (set_slot i (some b) t) ≡ ok b) (slot i t)
  unfolding slot set_slot
  slot-set_slot (pos n) t b = read-set t n b
  slot-set_slot (negsuc n) t b = tt

  set-set : (t : List (Option A)) (n : ℕ) (v w : Option A) → set (set t n w) n v ≡ set t n v
  set-set [] n v w = refl
  set-set (x ∷ t) zero v w = refl
  set-set (x ∷ t) (suc n) v w = ap (◌∷◌ x) (set-set t n v w)

  -- The later of two writes to a slot counts.
  pub set_slot-set_slot :
      (i : ℤ) (t : List (Option A)) (v w : Option A)
      → set_slot i v (set_slot i w t) ≡ set_slot i v t
  unfolding set_slot
  set_slot-set_slot (pos n) t v w = set-set t n v w
  set_slot-set_slot (negsuc n) t v w = refl

  read-set_ne :
      (t : List (Option A)) (n m : ℕ) (v : Option A) → n ≢ m → read (set t n v) m ≡ read t m
  unfolding read
  read-set_ne [] n m v h = refl
  read-set_ne (x ∷ t) zero zero v h = absurd (h refl)
  read-set_ne (none ∷ t) zero (suc m) none h = refl
  read-set_ne (none ∷ t) zero (suc m) (some a) h = refl
  read-set_ne (some b ∷ t) zero (suc m) none h = refl
  read-set_ne (some b ∷ t) zero (suc m) (some a) h = refl
  read-set_ne (none ∷ t) (suc n) zero v h = refl
  read-set_ne (some b ∷ t) (suc n) zero v h = refl
  read-set_ne (none ∷ t) (suc n) (suc m) v h = read-set_ne t n m v (λ e. h (ap suc e))
  read-set_ne (some b ∷ t) (suc n) (suc m) v h = read-set_ne t n m v (λ e. h (ap suc e))

  -- The other slots stay.
  pub slot-set_slot_ne :
      (i j : ℤ) (v : Option A) (t : List (Option A)) → i ≢ j → slot j (set_slot i v t) ≡ slot j t
  unfolding slot set_slot
  slot-set_slot_ne (pos n) (pos m) v t h = read-set_ne t n m v (λ e. h (ap pos e))
  slot-set_slot_ne (pos n) (negsuc m) v t h = refl
  slot-set_slot_ne (negsuc n) j v t h = refl

  set_self : (t : List (Option A)) (n : ℕ) → Holds (λ a. set t n (some a) ≡ t) (read t n)
  unfolding read
  set_self [] n = tt
  set_self (none ∷ t) zero = tt
  set_self (some a ∷ t) zero = refl
  set_self (none ∷ t) (suc n) = Holds-implies (read t n) (λ a e. ap (◌∷◌ none) e) (set_self t n)
  set_self (some b ∷ t) (suc n) =
      Holds-implies (read t n) (λ a e. ap (◌∷◌ (some b)) e) (set_self t n)

  pub set_slot_self :
      (i : ℤ) (t : List (Option A)) → Holds (λ a. set_slot i (some a) t ≡ t) (slot i t)
  unfolding slot set_slot
  set_slot_self (pos n) t = set_self t n
  set_slot_self (negsuc n) t = tt

  -- Every live object has the property.
  abbrev pub AllLive {κ} : (A → Type κ) → List (Option A) → Type κ
  AllLive P [] = Unit
  AllLive P (none ∷ t) = AllLive P t
  AllLive P (some a ∷ t) = P a × AllLive P t

  -- The sum of a weight over the live objects.
  abbrev pub weight : (A → ℕ) → Option A → ℕ
  weight w none = 0
  weight w (some a) = w a

  unfoldable pub total : (A → ℕ) → List (Option A) → ℕ
  total w [] = 0
  total w (x ∷ t) = weight w x + total w t

module _ {ℓ κ} {A : Type ℓ} (P : A → Type κ) where
  read-AllLive : (t : List (Option A)) (n : ℕ) → AllLive P t → Holds P (read t n)
  unfolding read
  read-AllLive [] n h = tt
  read-AllLive (none ∷ t) zero h = tt
  read-AllLive (some a ∷ t) zero h = h.0
  read-AllLive (none ∷ t) (suc n) h = read-AllLive t n h
  read-AllLive (some a ∷ t) (suc n) h = read-AllLive t n h.1

  pub slot-AllLive : (i : ℤ) (t : List (Option A)) → AllLive P t → Holds P (slot i t)
  unfolding slot
  slot-AllLive (pos n) t h = read-AllLive t n h
  slot-AllLive (negsuc n) t h = tt

  set-AllLive :
      (t : List (Option A)) (n : ℕ) (a : A) → AllLive P t → P a → AllLive P (set t n (some a))
  set-AllLive [] n a h p = tt
  set-AllLive (none ∷ t) zero a h p = (p, h)
  set-AllLive (some b ∷ t) zero a h p = (p, h.1)
  set-AllLive (none ∷ t) (suc n) a h p = set-AllLive t n a h p
  set-AllLive (some b ∷ t) (suc n) a h p = (h.0, set-AllLive t n a h.1 p)

  pub set_slot-AllLive :
      (i : ℤ) (a : A) (t : List (Option A)) → AllLive P t → P a → AllLive P (set_slot i (some a) t)
  unfolding set_slot
  set_slot-AllLive (pos n) a t h p = set-AllLive t n a h p
  set_slot-AllLive (negsuc n) a t h p = h

  delete-AllLive : (t : List (Option A)) (n : ℕ) → AllLive P t → AllLive P (set t n none)
  delete-AllLive [] n h = tt
  delete-AllLive (none ∷ t) zero h = h
  delete-AllLive (some b ∷ t) zero h = h.1
  delete-AllLive (none ∷ t) (suc n) h = delete-AllLive t n h
  delete-AllLive (some b ∷ t) (suc n) h = (h.0, delete-AllLive t n h.1)

  pub delete_slot-AllLive :
      (i : ℤ) (t : List (Option A)) → AllLive P t → AllLive P (set_slot i none t)
  unfolding set_slot
  delete_slot-AllLive (pos n) t h = delete-AllLive t n h
  delete_slot-AllLive (negsuc n) t h = h

  pub push-AllLive :
      (a : A) (t : List (Option A)) → AllLive P t → P a → AllLive P (t ++ some a ∷ [])
  push-AllLive a [] h p = (p, tt)
  push-AllLive a (none ∷ t) h p = push-AllLive a t h p
  push-AllLive a (some b ∷ t) h p = (h.0, push-AllLive a t h.1 p)

module _ {ℓ} {A : Type ℓ} (w : A → ℕ) where
  set-total :
      (v : Option A) (t : List (Option A)) (n : ℕ)
      → Holds (λ a. total w (set t n v) + w a ≡ total w t + weight w v) (read t n)
  unfolding read total
  set-total v [] n = tt
  set-total v (none ∷ t) zero = tt
  set-total v (some a ∷ t) zero = omega arith
  set-total v (none ∷ t) (suc n) = ground (arith, set-total v t n)
  set-total v (some a ∷ t) (suc n) = ground (arith, set-total v t n)

  pub set_slot-total :
      (v : Option A) (i : ℤ) (t : List (Option A))
      → Holds (λ a. total w (set_slot i v t) + w a ≡ total w t + weight w v) (slot i t)
  unfolding slot set_slot
  set_slot-total v (pos n) t = set-total v t n
  set_slot-total v (negsuc n) t = tt

  pub push-total : (a : A) (t : List (Option A)) → total w (t ++ some a ∷ []) ≡ total w t + w a
  unfolding total
  push-total a [] = omega arith
  push-total a (x ∷ t) = omega (arith, push-total a t)
