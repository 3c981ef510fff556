-- ===== src/Userprog/Paging/Stays.antt =====
-- userprog/exception.cc: finding a frame changes neither the program that runs nor the entry of the TLB
-- that is replaced next.
use project.Prelude.{
  ℕ, zero, suc, ◌+◌, ◌%◌, ◌≡◌, refl, ◌∙◌, ℤ, pos, negsuc, Option, none, some, Bool, true, false,
  ltb, ◌&&◌, if◌then◌else◌, Result, ok, fault, halted, check, ◌>>=◌, arith, Holds, Holds-each,
  Holds-bind, Holds-implies, overrun,
}
use project.Userprog.BitMap.{BitMap, find}
use project.Userprog.Paging.State.{Vm, num_phys_pages, tlb_size, with_space, put_page, page}
use project.Userprog.Paging.Spaces.{ipt_miss, swapped_page, evicted_page}
use project.Userprog.Paging.Faults.{
  drop_entry, drop_from, swap_out, drop_page, evict, handle_memory_full, get_frame, handle_ipt_miss,
  search_from, find_frame,
}
use project.Userprog.Paging.Frames.{choose_cases}

abbrev pub Stays : Vm → Vm → Type 0
Stays s s' = (s'.current_tlb ≡ s.current_tlb) × (s'.current_space ≡ s.current_space)

onward : (s t : Vm) (r : Result Vm) → Stays s t → Holds (Stays t) r → Holds (Stays s) r
onward s t r (a, b) h = Holds-implies r (λ u (c, d). (c ∙ a, d ∙ b)) h

drop_from-Stays : (p n i : ℕ) (s : Vm) → Stays s (drop_from p n i s)
unfolding drop_from drop_entry
drop_from-Stays p zero i s = (refl, refl)
drop_from-Stays p (suc n) i s =
    let h = drop_from-Stays p n (i + 1) (drop_entry p i s) in
    (h.0 ∙ ground arith, h.1 ∙ ground arith)

swap_out-Stays : (p : ℕ) (s : Vm) → Holds (Stays s) (swap_out p s)
unfolding swap_out
swap_out-Stays p s = Holds-each (Stays s) (find s.swap_file_bit_map) _ λ x e. place x.1 x.0
  where
    place :
        (bits : BitMap) (i : ℤ)
        → Holds (Stays s) (elim i [
          | negsuc n ↦ fault halted
          | pos place ↦ (do
            space ← swapped_page (s.ipt p).entry.virtual_page place (s.space (s.ipt p).owner)
            ok (
                with_space (s.ipt p).owner space (record s {
                  swap_file_bit_map = bits;
                  swap_file = put_page place (page s.main_memory p) s.swap_file;
                })))
        ])
    place bits (negsuc n) = tt
    place bits (pos n) =
        Holds-each (Stays s) (swapped_page (s.ipt p).entry.virtual_page n (s.space (s.ipt p).owner))
          _ λ space e. (refl, refl)

drop_page-Stays : (p : ℕ) (s : Vm) → Holds (Stays s) (drop_page p s)
unfolding drop_page
drop_page-Stays p s =
    Holds-each (Stays s) (evicted_page (s.ipt p).entry.virtual_page (s.space (s.ipt p).owner)) _
      λ space e. (refl, refl)

evict-Stays : (p : ℕ) (s : Vm) → Holds (Stays s) (evict p s)
unfolding evict
evict-Stays p s =
    Holds-each (Stays s) (check (ltb p num_phys_pages) overrun) _
      λ u h. onward s s' _ (drop_from-Stays p tlb_size 0 s) (by_dirty (s'.ipt p).entry.dirty)
  where
    s' : Vm
    s' = drop_from p tlb_size 0 s

    by_dirty : (d : Bool) → Holds (Stays s') (if d then swap_out p s' else drop_page p s')
    by_dirty true = swap_out-Stays p s'
    by_dirty false = drop_page-Stays p s'

handle_memory_full-Stays :
    (random : ℕ) (s : Vm) → Holds {A = ℕ × Vm} (λ x. Stays s x.1) (handle_memory_full random s)
unfolding handle_memory_full
handle_memory_full-Stays random s =
    choose_cases (λ c. Holds {A = ℕ × Vm} (λ x. Stays s x.1) (evict c.0 c.1 >>= λ s'. ok (c.0, s')))
      random s (empties (random % num_phys_pages) s (refl, refl))
      (empties s.current_ipt (record s { current_ipt = (s.current_ipt + 1) % num_phys_pages })
        (refl, refl))
  where
    empties :
        (p : ℕ) (t : Vm)
        → Stays s t
        → Holds {A = ℕ × Vm} (λ x. Stays s x.1) (evict p t >>= λ s'. ok (p, s'))
    empties p t h =
        Holds-bind (λ x. Stays s x.1) (Stays s) (evict p t) _
          (onward s t (evict p t) h (evict-Stays p t)) λ s' k. k

get_frame-Stays : (random : ℕ) (s : Vm) → Holds {A = ℕ × Vm} (λ x. Stays s x.1) (get_frame random s)
unfolding get_frame
get_frame-Stays random s =
    Holds-each (λ x. Stays s x.1) (find s.main_memory_bit_map) _ λ x e. frame x.1 x.0
  where
    frame :
        (bits : BitMap) (i : ℤ)
        → Holds {A = ℕ × Vm}
            (λ x. Stays s x.1)
            (elim i [
              | negsuc n ↦ handle_memory_full random (record s { main_memory_bit_map = bits })
              | pos p ↦ ok (p, record s { main_memory_bit_map = bits })
            ])
    frame bits (negsuc n) =
        handle_memory_full-Stays random (record s { main_memory_bit_map = bits })
    frame bits (pos p) = (refl, refl)

ipt_miss-Stays : (a v p : ℕ) (s : Vm) → Holds (Stays s) (ipt_miss a v p s)
unfolding ipt_miss
ipt_miss-Stays a v p s =
    Holds-each (Stays s) (check (ltb v (s.space a).num_pages && ltb p num_phys_pages) overrun) _
      λ u h. (refl, refl)

pub find_frame-Stays :
    (random v : ℕ) (s : Vm) → Holds {A = ℕ × Vm} (λ x. Stays s x.1) (find_frame random v s)
unfolding find_frame handle_ipt_miss
find_frame-Stays random v s = by_search (search_from v num_phys_pages 0 s)
  where
    by_search :
        (r : Option ℕ)
        → Holds {A = ℕ × Vm}
            (λ x. Stays s x.1)
            (elim r [ none ↦ handle_ipt_miss random v s | some p ↦ ok (p, s) ])
    by_search none =
        Holds-bind {A = ℕ × Vm} (λ x. Stays s x.1) (λ x. Stays s x.1) (get_frame random s) _
          (get_frame-Stays random s)
          λ f h.
            Holds-bind (λ x. Stays s x.1) (Stays s) (ipt_miss f.1.current_space v f.0 f.1) _
              (onward s f.1 (ipt_miss f.1.current_space v f.0 f.1) h
                (ipt_miss-Stays f.1.current_space v f.0 f.1))
              λ s' k. k
    by_search (some p) = (refl, refl)
