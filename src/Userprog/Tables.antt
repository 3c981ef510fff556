-- ===== src/Userprog/Tables.antt =====
-- userprog/addrspace.cc: `Table`, which an address space keeps its open files in. Its lock makes an operation one step.
use project.Prelude.{
  ℕ, Option, none, some, Bool, true, false, not, ℤ, pos, negsuc, minus_one, eq_ℤ, ltb, ◌==◌,
  if◌then◌else◌, Result, ok, fault, overrun, check, ◌>>=◌, ◌>>◌,
}
use project.Userprog.BitMap
use project.Userprog.BitMap.{BitMap}
pub mod Entries
mod Tests

-- `table[i]` is `none` where it holds a null pointer.
pub record Table (A : Type 0) : Type 0 where
  pub map : BitMap
  pub table : ℕ → Option A
  pub size : ℕ

module _ {A : Type 0} where
  -- The constructor; `garbage` and `words` are what the memory of `new` holds.
  unfoldable pub new_table : ℕ → (ℕ → Option A) → (ℕ → ℕ) → Result (Table A)
  new_table size garbage words = do
    b ← BitMap.new_bit_map size words
    ok (record { map = b; table = garbage; size = size })

  unfoldable pub get : ℤ → Table A → Result (Option A)
  get (pos i) t =
      if ltb i t.size
      then (do used ← BitMap.test (pos i) t.map; ok (if used then t.table i else none))
      else ok none
  get (negsuc i) t = ok none

  -- `table[i] = f`
  unfoldable pub put_at : ℤ → Option A → Table A → Result (Table A)
  put_at (pos i) f t = do
    check (ltb i t.size) overrun
    ok (record t { table = λ j. if i == j then f else t.table j })
  put_at (negsuc i) f t = fault overrun

  unfoldable pub put : Option A → Table A → Result (ℤ × Table A)
  unfolding put_at
  put f t = do
    (i, map) ← BitMap.find t.map
    let t' = record t { map = map }
    if not (eq_ℤ i minus_one) then (do t'' ← put_at i f t'; ok (i, t'')) else ok (i, t')

  unfoldable pub remove : ℤ → Table A → Result (Option A × Table A)
  unfolding put_at
  remove (pos i) t =
      if ltb i t.size
      then (do
        used ← BitMap.test (pos i) t.map
        if used
            then (do
              map ← BitMap.clear (pos i) t.map
              t' ← put_at (pos i) none (record t { map = map })
              ok (t.table i, t'))
            else ok (none, t))
      else ok (none, t)
  remove (negsuc i) t = ok (none, t)
