-- ===== src/Userprog/Paging/Faults.antt =====
-- userprog/exception.cc: what a page fault does.
use project.Prelude.{
  ℕ, zero, suc, ◌+◌, ◌/◌, ◌%◌, pos, negsuc, Option, none, some, Bool, true, false, ltb, ◌==◌, ◌&&◌,
  if◌then◌else◌, Result, ok, fault, halted, overrun, check, ◌>>=◌, ◌>>◌,
}
use project.Userprog.BitMap.{find}
use project.Userprog.Paging.State.{
  IptEntry, Vm, page_size, num_phys_pages, tlb_size, update, put_page, page, with_space, with_ipt,
}
use project.Userprog.Paging.Spaces.{ipt_miss, swapped_page, evicted_page}

abbrev pub set_dirty : Bool → IptEntry → IptEntry
set_dirty d e = record e { entry = record e.entry { dirty = d } }

-- The first part of `updateTLB`: the dirty bit of the entry that is replaced.
unfoldable pub propagate : Vm → Result Vm
propagate s = do
  let old = s.tlb s.current_tlb
  check (if old.dirty then ltb old.physical_page num_phys_pages else true) overrun
  ok (
      if old.dirty
      then with_ipt old.physical_page (set_dirty true (s.ipt old.physical_page)) s
      else s)

unfoldable pub update_tlb : ℕ → Vm → Result Vm
unfolding propagate
update_tlb ppn s = do
  s' ← propagate s
  check (ltb ppn num_phys_pages) overrun
  ok (record s' {
    tlb = update s'.current_tlb (s'.ipt ppn).entry s'.tlb;
    current_tlb = (s'.current_tlb + 1) % tlb_size;
  })

-- A round of the loop of `HandleMemoryFull`.
unfoldable pub drop_entry : ℕ → ℕ → Vm → Vm
drop_entry ppn i s =
    if (s.tlb i).physical_page == ppn
    then record s {
      tlb = update i (record (s.tlb i) { valid = false }) s.tlb;
      ipt = update ppn (set_dirty (s.tlb i).dirty (s.ipt ppn)) s.ipt;
    }
    else s

unfoldable pub drop_from : ℕ → ℕ → ℕ → Vm → Vm
unfolding drop_entry
drop_from ppn zero i s = s
drop_from ppn (suc n) i s = drop_from ppn n (i + 1) (drop_entry ppn i s)

-- The frame to empty; `random` is what `rand()` returns.
unfoldable pub choose : ℕ → Vm → ℕ × Vm
choose random s =
    if s.p_rand
    then (random % num_phys_pages, s)
    else (s.current_ipt, record s { current_ipt = (s.current_ipt + 1) % num_phys_pages })

-- The page in frame `ppn` goes to the swap file, at a place that was free.
unfoldable pub swap_out : ℕ → Vm → Result Vm
unfolding swapped_page
swap_out ppn s = do
  found ← find s.swap_file_bit_map
  let e = s.ipt ppn
  elim found.0 [
    | negsuc _ ↦ fault halted
    | pos place ↦ (do
      space ← swapped_page e.entry.virtual_page place (s.space e.owner)
      ok (
          with_space e.owner space (record s {
            swap_file_bit_map = found.1;
            swap_file = put_page place (page s.main_memory ppn) s.swap_file;
          })))
  ]

-- The page in frame `ppn` is dropped.
unfoldable pub drop_page : ℕ → Vm → Result Vm
unfolding evicted_page
drop_page ppn s = do
  let e = s.ipt ppn
  space ← evicted_page e.entry.virtual_page (s.space e.owner)
  ok (with_space e.owner space s)

-- `HandleMemoryFull` once the frame is chosen.
unfoldable pub evict : ℕ → Vm → Result Vm
unfolding drop_from swap_out drop_page
evict ppn s = do
  check (ltb ppn num_phys_pages) overrun
  let s' = drop_from ppn tlb_size 0 s
  if (s'.ipt ppn).entry.dirty then swap_out ppn s' else drop_page ppn s'

unfoldable pub handle_memory_full : ℕ → Vm → Result (ℕ × Vm)
unfolding evict choose
handle_memory_full random s = do let c = choose random s; s' ← evict c.0 c.1; ok (c.0, s')

-- A free frame, or one that is emptied.
unfoldable pub get_frame : ℕ → Vm → Result (ℕ × Vm)
unfolding handle_memory_full
get_frame random s = do
  found ← find s.main_memory_bit_map
  let s' = record s { main_memory_bit_map = found.1 }
  elim found.0 [ negsuc _ ↦ handle_memory_full random s' | pos ppn ↦ ok (ppn, s') ]

unfoldable pub handle_ipt_miss : ℕ → ℕ → Vm → Result (ℕ × Vm)
unfolding get_frame ipt_miss
handle_ipt_miss random vpn s = do
  f ← get_frame random s
  s' ← ipt_miss f.1.current_space vpn f.0 f.1
  ok (f.0, s')

-- `IPT[i]` holds page `vpn` of the space that runs.
unfoldable pub holds_page : ℕ → ℕ → Vm → Bool
holds_page vpn i s =
    ((s.ipt i).entry.virtual_page == vpn)
    && ((s.ipt i).owner == s.current_space)
    && (s.ipt i).entry.valid

-- The search through the IPT, with `n` rounds to go.
unfoldable pub search_from : ℕ → ℕ → ℕ → Vm → Option ℕ
unfolding holds_page
search_from vpn zero i s = none
search_from vpn (suc n) i s =
    let rest = search_from vpn n (i + 1) s in
    if holds_page vpn i s then some (s.ipt i).entry.physical_page else rest

unfoldable pub find_frame : ℕ → ℕ → Vm → Result (ℕ × Vm)
unfolding search_from handle_ipt_miss
find_frame random vpn s = elim (search_from vpn num_phys_pages 0 s) [
  | none ↦ handle_ipt_miss random vpn s
  | some ppn ↦ ok (ppn, s)
]

-- `bad_v_addr` is the register `BadVAddrReg`.
unfoldable pub handle_page_fault : ℕ → ℕ → Vm → Result Vm
unfolding find_frame update_tlb
handle_page_fault random bad_v_addr s = do
  f ← find_frame random (bad_v_addr / page_size) s
  update_tlb f.0 f.1
