-- ===== src/Userprog/FileCalls/Closing.antt =====
-- userprog/exception.cc: a file from Open to Close.
use project.Prelude.{
  zero, suc, ℕ, ◌≤◌, ◌≡◌, refl, sym, ◌∙◌, List, [], Option, none, some, true, false, pos, minus_one,
  eq_ℤ_refl, ◌==◌, ok, ◌⊎◌, inl, inr, arith, Returns, Returns-implies,
}
use project.Userprog.BitMap.Laws.{used}
use project.Userprog.Tables.{Table, get, put, remove}
use project.Userprog.Tables.Entries.{Fitting, get-put, get-remove}
use project.Userprog.FileCalls.{read_syscall, write_syscall, open_syscall, close_syscall}

module _ {F : Type 0} (read_file : ℕ → F → List ℕ × F) (write_file : List ℕ → F → F) where
  closed :
      (len : ℕ) (typed buf : List ℕ) (fd : ℕ) (t : Table F)
      → 2 ≤ fd
      → get (pos fd) t ≡ ok none
      → (read_syscall read_file write_file len typed (pos fd) t ≡ ok (minus_one, [], t))
        × (write_syscall read_file write_file true buf (pos fd) t ≡ ok ([], t))
  unfolding read_syscall write_syscall
  closed len typed buf fd t l e =
      let a : (fd == 0) ≡ false = ground arith in
      let b : (fd == 1) ≡ false = ground arith in (rw (a, b, e) refl, rw (a, b, e) refl)

  -- In a table whose map is a map of its entries, where numbers 0 and 1 are in use (they are the console's), for a file that has been opened: Open returns -1, or a number from 2 on; after Close of that number Read of it returns
  -- -1, and neither Read nor Write of it does anything.
  pub open_syscall-close :
      (len : ℕ) (typed buf : List ℕ) (f : F) (t : Table F)
      → Fitting t
      → used t.map 0 ≡ 1
      → used t.map 1 ≡ 1
      → Returns
          (λ (id, u).
            (id ≡ minus_one)
            ⊎ ((k : ℕ) × (id ≡ pos k)
                × (2 ≤ k)
                × (get id u ≡ ok (some f))
                × Returns
                    (λ (g, v).
                      (g ≡ some f)
                      × (read_syscall read_file write_file len typed id v ≡ ok (minus_one, [], v))
                      × (write_syscall read_file write_file true buf id v ≡ ok ([], v)))
                    (close_syscall id u)))
          (open_syscall true (some f) t)
  unfolding open_syscall close_syscall
  open_syscall-close len typed buf f t fit a b =
      Returns-implies (put (some f) t)
        (λ (id, u) (fits, o). elim o [
          | inl (e, _, _) ↦ inl e
          | inr (k, e, l, z, g) ↦
              let stored : get (pos k) u ≡ ok (some f) = g (pos k) ∙ rw (eq_ℤ_refl (pos k)) refl in
              let from_two : 2 ≤ k = beyond k z in
              rw e (
                inr (
                  k,
                  refl,
                  from_two,
                  stored,
                  Returns-implies (remove (pos k) u)
                      (λ (h, v) (q, fits', gone). (
                        same_file h (sym q ∙ stored),
                        (closed len typed buf k v from_two
                            (gone (pos k) ∙ rw (eq_ℤ_refl (pos k)) refl)).0,
                        (closed len typed buf k v from_two
                            (gone (pos k) ∙ rw (eq_ℤ_refl (pos k)) refl)).1,
                      ))
                      (get-remove (pos k) u fits),
                ))
        ])
        (get-put (some f) t fit)
    where
      same_file : (h : Option F) → ok h ≡ ok (some f) → h ≡ some f
      same_file h e = cc

      beyond : (k : ℕ) → used t.map k ≡ 0 → 2 ≤ k
      beyond zero z = absurd (ground (arith, z, a))
      beyond (suc zero) z = absurd (ground (arith, z, b))
      beyond (suc (suc k)) z = omega arith
