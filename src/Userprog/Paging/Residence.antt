-- ===== src/Userprog/Paging/Residence.antt =====
-- userprog/exception.cc: after a page fault, the TLB leads to the page that was missing.
use project.Prelude.{
  ℕ, zero, suc, ◌+◌, ◌/◌, ◌<◌, ◌≡◌, refl, sym, subst, ◌∙◌, inl, inr, Option, none, some, true, ltb,
  ◌&&◌, ok, check, Bool-cases, arith, Holds, Holds-each, Holds-bind, Holds-implies, Holds-both,
  overrun,
}
use project.Userprog.BitMap.Laws.{used}
use project.Userprog.Paging.State.{Vm, page_size, num_phys_pages, page}
use project.Userprog.Paging.Spaces.{ipt_miss}
use project.Userprog.Paging.Faults.{
  get_frame, handle_ipt_miss, holds_page, search_from, find_frame, propagate, update_tlb,
  handle_page_fault,
}
use project.Userprog.Paging.Contents.{content, Keeps, IsAt}
use project.Userprog.Paging.Stays.{Stays, find_frame-Stays}
use project.Userprog.Paging.Frames.{Paged}
use project.Userprog.Paging.Transparency.{handle_page_fault-Keeps}

-- Each entry of the table of frames has its own number, and is valid only if the frame is taken.
pub record Numbered (s : Vm) : Type 0 where
  pub own_number : (p : ℕ) → p < num_phys_pages → (s.ipt p).entry.physical_page ≡ p
  pub valid_taken :
      (p : ℕ) → p < num_phys_pages → (s.ipt p).entry.valid ≡ true → used s.main_memory_bit_map p ≡ 1

-- Frame `p` has page `v` of the space that runs.
record IsHere (v : ℕ) (s : Vm) (p : ℕ) : Type 0 where
  here_entry :
      ((s.ipt p).entry.valid ≡ true)
      × ((s.ipt p).entry.virtual_page ≡ v)
      × ((s.ipt p).entry.physical_page ≡ p)
  here_page : IsAt s s.current_space v p

ipt_miss-IsHere : (v p : ℕ) (s : Vm) → Holds (λ s'. IsHere v s' p) (ipt_miss s.current_space v p s)
unfolding ipt_miss
ipt_miss-IsHere v p s =
    Holds-each (λ s'. IsHere v s' p)
      (check (ltb v (s.space s.current_space).num_pages && ltb p num_phys_pages) overrun) _
      λ u h. record {
        here_entry = (ground arith, ground arith, ground arith);
        here_page = record { at_valid = ground arith; at_frame = ground arith };
      }

search_from-some :
    (v n i p : ℕ) (s : Vm)
    → search_from v n i s ≡ some p
    → (j : ℕ) × (j < i + n) × (holds_page v j s ≡ true) × ((s.ipt j).entry.physical_page ≡ p)
unfolding search_from
search_from-some v zero i p s e = absurd (ground (arith, e))
search_from-some v (suc n) i p s e = elim (Bool-cases (holds_page v i s)) [
  | inl h ↦ (i, omega arith, h, ground (arith, h, e))
  | inr h ↦
      let (j, k, t, q) = search_from-some v n (i + 1) p s (ground (arith, h, e)) in
      (j, omega arith, t, q)
]

holds_page_lem :
    (v j : ℕ) (s : Vm)
    → holds_page v j s ≡ true
    → ((s.ipt j).entry.valid ≡ true)
      × ((s.ipt j).entry.virtual_page ≡ v)
      × ((s.ipt j).owner ≡ s.current_space)
unfolding holds_page
holds_page_lem v j s h = (ground (arith, h), ground (arith, h), ground (arith, h))

find_frame-IsHere :
    (random v : ℕ) (s : Vm)
    → Paged s
    → Numbered s
    → Holds {A = ℕ × Vm} (λ x. IsHere v x.1 x.0) (find_frame random v s)
unfolding find_frame handle_ipt_miss
find_frame-IsHere random v s paged numbered = by_search (search_from v num_phys_pages 0 s) refl
  where
    hit : (j : ℕ) → j < num_phys_pages → holds_page v j s ≡ true → IsHere v s j
    hit j h e =
        let (va, vp, ow) = holds_page_lem v j s e in
        let there = paged.occupied j h (numbered.valid_taken j h va) in
        record {
          here_entry = (va, vp, numbered.own_number j h);
          here_page =
              subst (λ b. IsAt s b v j) ow (subst (λ w. IsAt s (s.ipt j).owner w j) vp there);
        }

    by_search :
        (r : Option ℕ)
        → search_from v num_phys_pages 0 s ≡ r
        → Holds {A = ℕ × Vm}
            (λ x. IsHere v x.1 x.0)
            (elim r [ none ↦ handle_ipt_miss random v s | some p ↦ ok (p, s) ])
    by_search none e =
        Holds-each {A = ℕ × Vm} (λ x. IsHere v x.1 x.0) (get_frame random s) _
          λ f g.
            Holds-bind (λ x. IsHere v x.1 x.0) (λ s'. IsHere v s' f.0)
              (ipt_miss f.1.current_space v f.0 f.1) _ (ipt_miss-IsHere v f.0 f.1) λ s' h. h
    by_search (some p) e =
        let (j, k, t, q) = search_from-some v num_phys_pages 0 p s e in
        subst (λ x. IsHere v s x) (sym (numbered.own_number j k) ∙ q) (hit j k t)

-- Entry `i` of the TLB leads to page `v` of space `a`.
abbrev pub LeadsTo : ℕ → ℕ → ℕ → Vm → Type 0
LeadsTo i a v s =
    ((s.tlb i).valid ≡ true) × ((s.tlb i).virtual_page ≡ v) × IsAt s a v (s.tlb i).physical_page

-- What carrying over a dirty bit leaves as it was.
propagate-same :
    (p : ℕ) (s : Vm)
    → Holds
        (λ s'.
          ((s'.ipt p).entry.valid ≡ (s.ipt p).entry.valid)
          × ((s'.ipt p).entry.virtual_page ≡ (s.ipt p).entry.virtual_page)
          × ((s'.ipt p).entry.physical_page ≡ (s.ipt p).entry.physical_page)
          × (s'.space ≡ s.space)
          × (s'.current_space ≡ s.current_space)
          × (s'.current_tlb ≡ s.current_tlb))
        (propagate s)
unfolding propagate
propagate-same p s = elim (Bool-cases (s.tlb s.current_tlb).dirty) [
  | inl d ↦ rw d (
      Holds-each _ (check (ltb (s.tlb s.current_tlb).physical_page num_phys_pages) overrun) _
        λ u h. (ground arith, ground arith, ground arith, refl, refl, refl))
  | inr c ↦ rw c (refl, refl, refl, refl, refl, refl)
]

update_tlb-LeadsTo :
    (v p : ℕ) (s : Vm)
    → IsHere v s p
    → Holds (λ s'. LeadsTo s.current_tlb s.current_space v s') (update_tlb p s)
unfolding update_tlb
update_tlb-LeadsTo v p s here =
    Holds-bind (λ s'. LeadsTo s.current_tlb s.current_space v s') _ (propagate s) _
      (propagate-same p s)
      λ t (va, vp, ph, sp, cu, ti).
        Holds-each (λ s'. LeadsTo s.current_tlb s.current_space v s')
          (check (ltb p num_phys_pages) overrun) _
          λ u h. (
            ground (arith, va, ti, here.here_entry.0),
            ground (arith, vp, ti, here.here_entry.1),
            record {
              at_valid = rw sp here.here_page.at_valid;
              at_frame =
                  rw sp (here.here_page.at_frame ∙ sym (ground (arith, ph, ti, here.here_entry.2)));
            },
          )

handle_page_fault-LeadsTo :
    (random bad_v_addr : ℕ) (s : Vm)
    → Paged s
    → Numbered s
    → Holds
        (λ s'. LeadsTo s.current_tlb s.current_space (bad_v_addr / page_size) s')
        (handle_page_fault random bad_v_addr s)
unfolding handle_page_fault
handle_page_fault-LeadsTo random bad_v_addr s paged numbered =
    Holds-bind {A = ℕ × Vm} (λ s'. LeadsTo s.current_tlb s.current_space v s')
      (λ x. IsHere v x.1 x.0 × Stays s x.1) (find_frame random v s) _
      (Holds-both {A = ℕ × Vm} (λ x. IsHere v x.1 x.0) (λ x. Stays s x.1) (find_frame random v s)
        (find_frame-IsHere random v s paged numbered) (find_frame-Stays random v s))
      λ (p, t) (here, (tl, cu)).
        Holds-implies (update_tlb p t)
          (λ s' l.
            subst (λ a. LeadsTo s.current_tlb a v s') cu
              (subst (λ i. LeadsTo i t.current_space v s') tl l))
          (update_tlb-LeadsTo v p t here)
  where
    v : ℕ
    v = bad_v_addr / page_size

-- After a page fault that is dealt with, at an address of one of the pages of the program that runs, if
-- the tables agree and no write has been lost track of, the entry of the TLB that was next is valid and
-- for the page, and its frame has the bytes that the page had before, wherever it was.
pub handle_page_fault-content :
    (random bad_v_addr : ℕ) (s : Vm)
    → Paged s
    → Numbered s
    → bad_v_addr / page_size < (s.space s.current_space).num_pages
    → Holds
        (λ s'.
          ((s'.tlb s.current_tlb).valid ≡ true)
          × ((s'.tlb s.current_tlb).virtual_page ≡ bad_v_addr / page_size)
          × ((o : ℕ)
              → o < page_size
              → page s'.main_memory (s'.tlb s.current_tlb).physical_page o
                ≡ content s s.current_space (bad_v_addr / page_size) o))
        (handle_page_fault random bad_v_addr s)
unfolding content
handle_page_fault-content random bad_v_addr s paged numbered h =
    Holds-implies (handle_page_fault random bad_v_addr s)
      (λ s' ((kept, pages), (va, vp, there)).
        (va, vp, λ o l. in_frame s' there o ∙ kept s.current_space v o h l))
      (Holds-both (Keeps s) (LeadsTo s.current_tlb s.current_space v)
        (handle_page_fault random bad_v_addr s)
        (handle_page_fault-Keeps random bad_v_addr s paged h)
        (handle_page_fault-LeadsTo random bad_v_addr s paged numbered))
  where
    v : ℕ
    v = bad_v_addr / page_size

    in_frame :
        (s' : Vm)
        → IsAt s' s.current_space v (s'.tlb s.current_tlb).physical_page
        → (o : ℕ)
        → page s'.main_memory (s'.tlb s.current_tlb).physical_page o
          ≡ content s' s.current_space v o
    in_frame s' there o = rw (there.at_valid, there.at_frame) refl
