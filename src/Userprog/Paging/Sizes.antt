-- ===== src/Userprog/Paging/Sizes.antt =====
-- userprog/exception.cc and userprog/addrspace.cc: what the page faults do to the number of pages of a space and to its queue.
use project.Prelude.{
  ℕ, zero, suc, ◌+◌, ◌/◌, ◌≡◌, refl, ap, ◌∙◌, Option, none, some, Bool, true, false, ltb, ℤ, halted,
  ◌>>=◌, ◌==◌, ==_iff, ◌&&◌, if◌then◌else◌, ok, fault, overrun, check, pos, negsuc, inl, inr,
  Bool-cases, Holds, Holds-each, Holds-bind, Holds-implies,
}
use project.Userprog.BitMap.{BitMap, find}
use project.Userprog.Paging.State.{
  Vm, AddrSpace, page_size, num_phys_pages, tlb_size, with_space, put_page, page,
}
use project.Userprog.Paging.Spaces.{ipt_miss, swapped_page, evicted_page}
use project.Userprog.Paging.Faults.{
  propagate, update_tlb, drop_entry, drop_from, choose, swap_out, drop_page, evict,
  handle_memory_full, get_frame, handle_ipt_miss, search_from, find_frame, handle_page_fault,
}

-- The pages of the spaces may have changed, but not their numbers, nor the queues.
abbrev pub Sized : Vm → Vm → Type 0
Sized s s' =
    (b : ℕ)
    → ((s'.space b).num_pages ≡ (s.space b).num_pages)
      × ((s'.space b).num_page_queue ≡ (s.space b).num_page_queue)

Sized-both : (s t u : Vm) → Sized s t → Sized t u → Sized s u
Sized-both s t u h k b = ((k b).0 ∙ (h b).0, (k b).1 ∙ (h b).1)

SameFor : AddrSpace → AddrSpace → Type 0
SameFor a a' = (a'.num_pages ≡ a.num_pages) × (a'.num_page_queue ≡ a.num_page_queue)

with_space-Sized :
    (a : ℕ) (x : AddrSpace) (s : Vm) → SameFor (s.space a) x → Sized s (with_space a x s)
unfolding SameFor
with_space-Sized a x s (n, q) b = elim (Bool-cases (a == b)) [
  | inl e ↦
      let same = ap s.space ((==_iff a b).0 e) in
      rw e (n ∙ ap (λ y. y.num_pages) same, q ∙ ap (λ y. y.num_page_queue) same)
  | inr e ↦ rw e (refl, refl)
]

update_tlb-Sized : (ppn : ℕ) (s : Vm) → Holds (Sized s) (update_tlb ppn s)
unfolding update_tlb propagate
update_tlb-Sized ppn s =
    Holds-bind (Sized s) (Sized s) (propagate s) _
      (Holds-each (Sized s)
        (check
          (if (s.tlb s.current_tlb).dirty
            then ltb (s.tlb s.current_tlb).physical_page num_phys_pages
            else true)
          overrun)
        _
        λ u e. elim (Bool-cases (s.tlb s.current_tlb).dirty) [
          | inl d ↦ rw d (λ b. (refl, refl))
          | inr d ↦ rw d (λ b. (refl, refl))
        ])
      λ t h. Holds-each (Sized s) (check (ltb ppn num_phys_pages) overrun) _ λ u e. h

drop_from-space : (ppn n i : ℕ) (s : Vm) → (drop_from ppn n i s).space ≡ s.space
unfolding drop_from drop_entry
drop_from-space ppn zero i s = refl
drop_from-space ppn (suc n) i s =
    drop_from-space ppn n (i + 1) (drop_entry ppn i s)
    ∙ (elim (Bool-cases ((s.tlb i).physical_page == ppn)) [ inl e ↦ rw e refl | inr e ↦ rw e refl ])

swapped_page-SameFor :
    (vpn place : ℕ) (a : AddrSpace) → Holds (SameFor a) (swapped_page vpn place a)
unfolding swapped_page SameFor
swapped_page-SameFor vpn place a =
    Holds-each (SameFor a) (check (ltb vpn a.num_pages) overrun) _ λ u e. (refl, refl)

evicted_page-SameFor : (vpn : ℕ) (a : AddrSpace) → Holds (SameFor a) (evicted_page vpn a)
unfolding evicted_page SameFor
evicted_page-SameFor vpn a =
    Holds-each (SameFor a) (check (ltb vpn a.num_pages) overrun) _ λ u e. (refl, refl)

swap_out-Sized : (ppn : ℕ) (s : Vm) → Holds (Sized s) (swap_out ppn s)
unfolding swap_out
swap_out-Sized ppn s =
    Holds-each (Sized s) (find s.swap_file_bit_map) _ λ found e. to_place found.1 found.0
  where
    to_place :
        (bits : BitMap) (i : ℤ)
        → Holds (Sized s) (elim i [
          | negsuc n ↦ fault halted
          | pos place ↦ (do
            space ← swapped_page (s.ipt ppn).entry.virtual_page place (s.space (s.ipt ppn).owner)
            ok (
                with_space (s.ipt ppn).owner space (record s {
                  swap_file_bit_map = bits;
                  swap_file = put_page place (page s.main_memory ppn) s.swap_file;
                })))
        ])
    to_place bits (negsuc n) = tt
    to_place bits (pos n) =
        let i = s.ipt ppn in
        Holds-bind (Sized s) (SameFor (s.space i.owner))
          (swapped_page i.entry.virtual_page n (s.space i.owner)) _
          (swapped_page-SameFor i.entry.virtual_page n (s.space i.owner))
          λ x h. with_space-Sized i.owner x s h

drop_page-Sized : (ppn : ℕ) (s : Vm) → Holds (Sized s) (drop_page ppn s)
unfolding drop_page
drop_page-Sized ppn s =
    let i = s.ipt ppn in
    Holds-bind (Sized s) (SameFor (s.space i.owner))
      (evicted_page i.entry.virtual_page (s.space i.owner)) _
      (evicted_page-SameFor i.entry.virtual_page (s.space i.owner))
      λ x h. with_space-Sized i.owner x s h

evict-Sized : (ppn : ℕ) (s : Vm) → Holds (Sized s) (evict ppn s)
unfolding evict
evict-Sized ppn s = Holds-each (Sized s) (check (ltb ppn num_phys_pages) overrun) _ λ u e.
    Holds-implies (if (s'.ipt ppn).entry.dirty then swap_out ppn s' else drop_page ppn s')
      (λ t h b.
        let same = ap (λ sp. sp b) (drop_from-space ppn tlb_size 0 s) in
        ((h b).0 ∙ ap (λ y. y.num_pages) same, (h b).1 ∙ ap (λ y. y.num_page_queue) same))
      (by_dirty (s'.ipt ppn).entry.dirty)
  where
    s' : Vm
    s' = drop_from ppn tlb_size 0 s

    by_dirty : (d : Bool) → Holds (Sized s') (if d then swap_out ppn s' else drop_page ppn s')
    by_dirty true = swap_out-Sized ppn s'
    by_dirty false = drop_page-Sized ppn s'

choose-space : (random : ℕ) (s : Vm) → (choose random s).1.space ≡ s.space
unfolding choose
choose-space random s = elim (Bool-cases s.p_rand) [ inl e ↦ rw e refl | inr e ↦ rw e refl ]

handle_memory_full-Sized :
    (random : ℕ) (s : Vm) → Holds (λ x. Sized s x.1) (handle_memory_full random s)
unfolding handle_memory_full
handle_memory_full-Sized random s =
    let c = choose random s in
    Holds-bind {A = Vm} {B = ℕ × Vm} (λ x. Sized s x.1) (Sized c.1) (evict c.0 c.1) _
      (evict-Sized c.0 c.1)
      λ t h b.
        let same = ap (λ sp. sp b) (choose-space random s) in
        ((h b).0 ∙ ap (λ y. y.num_pages) same, (h b).1 ∙ ap (λ y. y.num_page_queue) same)

get_frame-Sized : (random : ℕ) (s : Vm) → Holds (λ x. Sized s x.1) (get_frame random s)
unfolding get_frame
get_frame-Sized random s =
    Holds-each {B = ℕ × Vm} (λ x. Sized s x.1) (find s.main_memory_bit_map) _
      λ found e. from_frame found.1 found.0
  where
    from_frame :
        (bits : BitMap) (i : ℤ)
        → Holds {A = ℕ × Vm}
            (λ x. Sized s x.1)
            (elim i [
              | negsuc n ↦ handle_memory_full random (record s { main_memory_bit_map = bits })
              | pos ppn ↦ ok (ppn, record s { main_memory_bit_map = bits })
            ])
    from_frame bits (negsuc n) =
        handle_memory_full-Sized random (record s { main_memory_bit_map = bits })
    from_frame bits (pos ppn) = λ b. (refl, refl)

ipt_miss-Sized : (a vpn ppn : ℕ) (s : Vm) → Holds (Sized s) (ipt_miss a vpn ppn s)
unfolding ipt_miss SameFor
ipt_miss-Sized a vpn ppn s =
    Holds-each (Sized s) (check (ltb vpn (s.space a).num_pages && ltb ppn num_phys_pages) overrun) _
      λ u e. with_space-Sized a _ s (refl, refl)

find_frame-Sized : (random vpn : ℕ) (s : Vm) → Holds (λ x. Sized s x.1) (find_frame random vpn s)
unfolding find_frame handle_ipt_miss
find_frame-Sized random vpn s = by_search (search_from vpn num_phys_pages 0 s)
  where
    by_search :
        (o : Option ℕ)
        → Holds {A = ℕ × Vm}
            (λ x. Sized s x.1)
            (elim o [ none ↦ handle_ipt_miss random vpn s | some ppn ↦ ok (ppn, s) ])
    by_search (some ppn) = λ b. (refl, refl)
    by_search none =
        Holds-bind {A = ℕ × Vm} {B = ℕ × Vm} (λ x. Sized s x.1) (λ x. Sized s x.1)
          (get_frame random s) _ (get_frame-Sized random s)
          λ f h.
            Holds-bind {A = Vm} {B = ℕ × Vm} (λ x. Sized s x.1) (Sized f.1)
              (ipt_miss f.1.current_space vpn f.0 f.1) _
              (ipt_miss-Sized f.1.current_space vpn f.0 f.1) λ t k. Sized-both s f.1 t h k

-- A page fault changes pages only.
pub handle_page_fault-Sized :
    (random bad_v_addr : ℕ) (s : Vm) → Holds (Sized s) (handle_page_fault random bad_v_addr s)
unfolding handle_page_fault
handle_page_fault-Sized random bad_v_addr s =
    Holds-bind {A = ℕ × Vm} (Sized s) (λ x. Sized s x.1)
      (find_frame random (bad_v_addr / page_size) s) _
      (find_frame-Sized random (bad_v_addr / page_size) s)
      λ f h.
        Holds-implies (update_tlb f.0 f.1) (λ t k. Sized-both s f.1 t h k)
          (update_tlb-Sized f.0 f.1)
