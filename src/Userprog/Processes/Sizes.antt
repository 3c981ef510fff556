-- ===== src/Userprog/Processes/Sizes.antt =====
-- userprog/exception.cc and userprog/addrspace.cc: what the calls do to the number of pages of a space and to its queue.
use project.Prelude.{
  ℕ, zero, suc, ◌+◌, ◌-◌, ◌/◌, ◌≡◌, refl, ◌∙◌, List, [], ◌∷◌, ◌++◌, Bool, true, false, ltb, leb,
  ◌==◌, if◌then◌else◌, Result, ok, fault, overrun, check, pos, arith, Holds, Holds-each, Holds-bind,
  Holds-implies,
}
use project.Userprog.BitMap.{clear}
use project.Userprog.Paging.State.{Vm, AddrSpace, PageTableEntry, page_size, num_phys_pages}
use project.Userprog.Paging.Spaces.{
  get_num_pages, allocate_stack, restore_state, free_page, clear_stack_from, clear_stack,
  clear_mem_from,
}
use project.Userprog.Processes.{take_stack}
use project.Userprog.Processes.Stacks.{start_of}
use project.Userprog.Processes.Settlement.{OnlyAt}

-- The pages of space `a` may have changed, but not their number, nor the queue; and no other space has.
abbrev pub SameSize : ℕ → Vm → Vm → Type 0
SameSize a s s' =
    OnlyAt a s.space s'.space
    × ((s'.space a).num_pages ≡ (s.space a).num_pages)
    × ((s'.space a).num_page_queue ≡ (s.space a).num_page_queue)

SameSize-both : (a : ℕ) (s t u : Vm) → SameSize a s t → SameSize a t u → SameSize a s u
SameSize-both a s t u (o, n, q) (o', n', q') = ((λ b e. o' b e ∙ o b e), n' ∙ n, q' ∙ q)

pub self_eq : (a : ℕ) → (a == a) ≡ true
self_eq a = ground arith

free_page-SameSize : (a v : ℕ) (s : Vm) → Holds (SameSize a s) (free_page a v s)
unfolding free_page
free_page-SameSize a v s =
    Holds-each {B = Vm} (SameSize a s)
      (clear (pos ((s.space a).page_table v).entry.physical_page) s.main_memory_bit_map) _
      λ bits e.
        Holds-each {B = Vm} (SameSize a s)
          (check (ltb ((s.space a).page_table v).entry.physical_page num_phys_pages) overrun) _
          λ u f. ((λ b f. rw f refl), rw (self_eq a) refl, rw (self_eq a) refl)

pub clear_mem_from-SameSize : (a n i : ℕ) (s : Vm) → Holds (SameSize a s) (clear_mem_from a n i s)
unfolding clear_mem_from
clear_mem_from-SameSize a zero i s = ((λ b e. refl), refl, refl)
clear_mem_from-SameSize a (suc n) i s =
    Holds-bind (SameSize a s) (SameSize a s)
      (if ((s.space a).page_table i).entry.valid then free_page a i s else ok s)
      (clear_mem_from a n (i + 1)) (by_valid ((s.space a).page_table i).entry.valid)
      λ t h.
        Holds-implies (clear_mem_from a n (i + 1) t) (λ u k. SameSize-both a s t u h k)
          (clear_mem_from-SameSize a n (i + 1) t)
  where
    by_valid : (b : Bool) → Holds (SameSize a s) (if b then free_page a i s else ok s)
    by_valid true = free_page-SameSize a i s
    by_valid false = ((λ b e. refl), refl, refl)

clear_stack_from-SameSize : (a n i : ℕ) (s : Vm) → Holds (SameSize a s) (clear_stack_from a n i s)
unfolding clear_stack_from
clear_stack_from-SameSize a zero i s = ((λ b e. refl), refl, refl)
clear_stack_from-SameSize a (suc n) i s =
    Holds-each (SameSize a s) (check (ltb i (s.space a).num_pages) overrun) _ λ u e.
      Holds-bind (SameSize a s) (SameSize a s) (free_page a i s) (clear_stack_from a n (i + 1))
        (free_page-SameSize a i s)
        λ t h.
          Holds-implies (clear_stack_from a n (i + 1) t) (λ u k. SameSize-both a s t u h k)
            (clear_stack_from-SameSize a n (i + 1) t)

pub clear_stack-SameSize : (a stack : ℕ) (s : Vm) → Holds (SameSize a s) (clear_stack a stack s)
unfolding clear_stack
clear_stack-SameSize a stack s =
    Holds-each (SameSize a s) (check (leb 7 (stack / page_size)) overrun) _
      λ u e. clear_stack_from-SameSize a 8 (stack / page_size - 7) s

pub allocate_stack-sizes :
    (garbage : ℕ → PageTableEntry) (a : ℕ) (s : Vm)
    → (let t = allocate_stack garbage a s in
        OnlyAt a s.space t.space
        × ((t.space a).num_pages ≡ (s.space a).num_pages + 8)
        × ((t.space a).num_page_queue
            ≡ (s.space a).num_page_queue ++ (((s.space a).num_pages + 8) ∷ [])))
unfolding allocate_stack restore_state
allocate_stack-sizes garbage a s = ((λ b e. rw e refl), rw (self_eq a) refl, rw (self_eq a) refl)

-- What `getNumPages` takes.
abbrev pub Taken : ℕ → Vm → ℕ × Vm → Type 0
Taken a s x =
    (n : ℕ) × (rest : List ℕ) × (x.0 ≡ start_of n)
    × ((s.space a).num_page_queue ≡ n ∷ rest)
    × OnlyAt a s.space x.1.space
    × ((x.1.space a).num_pages ≡ (s.space a).num_pages)
    × ((x.1.space a).num_page_queue ≡ rest)

get_num_pages-Taken :
    (space : AddrSpace)
    → Holds {A = ℕ × AddrSpace}
        (λ x.
          (rest : List ℕ) × (space.num_page_queue ≡ x.0 ∷ rest)
          × (x.1.num_pages ≡ space.num_pages)
          × (x.1.num_page_queue ≡ rest))
        (get_num_pages space)
unfolding get_num_pages
get_num_pages-Taken space = by_queue space.num_page_queue refl
  where
    by_queue :
        (q : List ℕ)
        → space.num_page_queue ≡ q
        → Holds {A = ℕ × AddrSpace}
            (λ x.
              (rest : List ℕ) × (space.num_page_queue ≡ x.0 ∷ rest)
              × (x.1.num_pages ≡ space.num_pages)
              × (x.1.num_page_queue ≡ rest))
            (elim q as (λ k. Result (ℕ × AddrSpace)) [
              | [] ↦ fault overrun
              | n ∷ rest ↦ ok (n, record space { num_page_queue = rest })
            ])
    by_queue [] e = tt
    by_queue (n ∷ rest) e = (rest, e, refl, refl)

pub take_stack-Taken : (a : ℕ) (s : Vm) → Holds (Taken a s) (take_stack a s)
unfolding take_stack
take_stack-Taken a s =
    Holds-bind {A = ℕ × AddrSpace} {B = ℕ × Vm} (Taken a s) _ (get_num_pages (s.space a)) _
      (get_num_pages-Taken (s.space a))
      λ (n, space) (rest, q, e, r).
        (n, rest, refl, q, (λ b f. rw f refl), rw (self_eq a) e, rw (self_eq a) r)
