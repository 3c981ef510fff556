-- ===== src/Userprog/Paging/Translation.antt =====
-- machine/translate.cc: from a virtual to a physical address, with the TLB.
use project.Prelude.{
  ℕ, zero, suc, ◌+◌, ◌*◌, ◌/◌, ◌%◌, Option, none, some, Bool, true, false, not, leb, ◌==◌, ◌&&◌,
  if◌then◌else◌, Result, ok, assertion, check, ◌>>◌,
}
use project.Userprog.Paging.State.{Vm, page_size, num_phys_pages, tlb_size, update}

pub data ExceptionType : Type 0 where
  address_error page_fault read_only bus_error : ExceptionType

pub data Translated : Type 0 where
  exception : ExceptionType → Translated
  address : ℕ → Translated

abbrev pub misaligned : ℕ → ℕ → Bool
misaligned virt_addr size =
    if size == 4
    then not (virt_addr % 4 == 0)
    else if size == 2
    then not (virt_addr % 2 == 0)
    else false

-- The search through the TLB, with `n` rounds to go.
unfoldable pub lookup_from : ℕ → ℕ → ℕ → Vm → Option ℕ
lookup_from vpn zero i s = none
lookup_from vpn (suc n) i s =
    let rest = lookup_from vpn n (i + 1) s in
    if (s.tlb i).valid && ((s.tlb i).virtual_page == vpn) then some i else rest

-- The part of `Translate` after the entry is found.
unfoldable pub translate_by : ℕ → ℕ → ℕ → Bool → Vm → Result (Translated × Vm)
translate_by i virt_addr size writing s =
    let entry = s.tlb i in
    let phys_addr = entry.physical_page * page_size + virt_addr % page_size in
    if entry.read_only && writing
    then ok (exception read_only, s)
    else if leb num_phys_pages entry.physical_page
    then ok (exception bus_error, s)
    else (do
      check (leb (phys_addr + size) (num_phys_pages * page_size)) assertion
      ok (
        address phys_addr,
        record s {
          tlb =
              update i
                (record entry { in_use = true; dirty = if writing then true else entry.dirty })
                s.tlb;
        },
      ))

unfoldable pub translate : ℕ → ℕ → Bool → Vm → Result (Translated × Vm)
unfolding lookup_from translate_by
translate virt_addr size writing s =
    if misaligned virt_addr size
    then ok (exception address_error, s)
    else elim (lookup_from (virt_addr / page_size) tlb_size 0 s) [
      | none ↦ ok (exception page_fault, s)
      | some i ↦ translate_by i virt_addr size writing s
    ]
