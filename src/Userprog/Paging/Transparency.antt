-- ===== src/Userprog/Paging/Transparency.antt =====
-- userprog/exception.cc: a page fault changes no page of any program.
use project.Prelude.{
  ℕ, zero, suc, ◌+◌, ◌*◌, ◌/◌, ◌%◌, ◌≤◌, ◌<◌, ◌≡◌, ◌≢◌, refl, sym, ap, subst, ◌∙◌, ◌⊎◌, inl, inr, ℤ,
  pos, negsuc, minus_one, List, Option, none, some, Bool, true, false, not, ltb, leb, ◌==◌, ◌&&◌,
  if◌then◌else◌, Result, ok, fault, halted, check, ◌>>=◌, ◌>>◌, Bool-cases, arith, Holds,
  Holds-each, Holds-bind, Holds-implies, Holds-Returns,
}
use project.Userprog.Paging.State.{Vm, page_size, num_phys_pages}
use project.Userprog.Paging.Faults.{
  handle_ipt_miss, holds_page, search_from, find_frame, propagate, update_tlb, handle_page_fault,
}
use project.Userprog.Paging.Contents.{content, Keeps}
use project.Userprog.Paging.Frames.{Paged, handle_ipt_miss-Keeps}

search_from-none :
    (vpn n i : ℕ) (s : Vm)
    → search_from vpn n i s ≡ none
    → (j : ℕ) → i ≤ j
    → j < i + n
    → holds_page vpn j s ≡ false
unfolding search_from
search_from-none vpn zero i s e j h k = absurd (omega arith)
search_from-none vpn (suc n) i s e j h k = elim (Bool-cases (i == j)) [
  | inl same ↦
      let e' : i ≡ j = ground (arith, same) in ground (arith, e, ap (λ x. holds_page vpn x s) e')
  | inr other ↦
      search_from-none vpn n (i + 1) s (ground (arith, e)) j (ground (arith, other)) (omega arith)
]

holds_page_lem :
    (vpn p : ℕ) (s : Vm)
    → (s.ipt p).owner ≡ s.current_space
    → (s.ipt p).entry.virtual_page ≡ vpn
    → (s.ipt p).entry.valid ≡ true
    → holds_page vpn p s ≡ true
unfolding holds_page
holds_page_lem vpn p s e f g = ground (arith, e, f, g)

true≢false : true ≢ false
true≢false e = ground (arith, e)

update_tlb-Keeps : (p : ℕ) (s : Vm) → Holds (Keeps s) (update_tlb p s)
unfolding update_tlb propagate content
update_tlb-Keeps p s = Holds-each (Keeps s) (propagate s) _ λ s' e.
    Holds-each (Keeps s) (check (ltb p num_phys_pages) project.Prelude.overrun) _
      λ u h. (λ b w o k l. same s' e b w o, λ b. ground (arith, e))
  where
    same : (s' : Vm) → propagate s ≡ ok s' → (b w o : ℕ) → content s' b w o ≡ content s b w o
    same s' e b w o = ground (arith, e)

-- A page fault of the program that runs, at an address of one of its pages, that is dealt with changes
-- the contents of no page of any program, wherever the page is, and no program's number of pages, if
-- the tables agree and no write has been lost track of.
pub handle_page_fault-Keeps :
    (random bad_v_addr : ℕ) (s : Vm)
    → Paged s
    → bad_v_addr / page_size < (s.space s.current_space).num_pages
    → Holds (Keeps s) (handle_page_fault random bad_v_addr s)
unfolding handle_page_fault find_frame
handle_page_fault-Keeps random bad_v_addr s paged h =
    Holds-bind (Keeps s) (λ x. Keeps s x.1) (find_frame random vpn s) _
      (found (search_from vpn num_phys_pages 0 s) refl)
      λ (p, t) (kept, pages).
        Holds-implies (update_tlb p t)
          (λ s' (kept', more). (
            λ b w o k l. kept' b w o (omega (arith, pages b)) l ∙ kept b w o k l,
            λ b. more b ∙ pages b,
          ))
          (update_tlb-Keeps p t)
  where
    vpn : ℕ
    vpn = bad_v_addr / page_size

    absent :
        search_from vpn num_phys_pages 0 s ≡ none
        → ((s.space s.current_space).page_table vpn).entry.valid ≡ false
    absent e = elim (Bool-cases ((s.space s.current_space).page_table vpn).entry.valid) [
      | inl v ↦
          let r = paged.resident s.current_space vpn h v in
          absurd (
            true≢false (
              sym (
                holds_page_lem vpn ((s.space s.current_space).page_table vpn).entry.physical_page s
                  r.2 r.3 r.4)
              ∙ search_from-none vpn num_phys_pages 0 s e
                  ((s.space s.current_space).page_table vpn).entry.physical_page (omega arith)
                  (omega (arith, r.0))))
      | inr v ↦ v
    ]

    found :
        (r : Option ℕ)
        → search_from vpn num_phys_pages 0 s ≡ r
        → Holds {A = ℕ × Vm}
            (λ x. Keeps s x.1)
            (elim r [ none ↦ handle_ipt_miss random vpn s | some p ↦ ok (p, s) ])
    found none e = handle_ipt_miss-Keeps s paged random vpn (absent e)
    found (some p) e = (λ b w o k l. refl, λ b. refl)
