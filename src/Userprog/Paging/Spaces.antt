-- ===== src/Userprog/Paging/Spaces.antt =====
-- userprog/addrspace.cc: the pages of an address space.
use project.Prelude.{
  ℕ, zero, suc, ◌+◌, ◌-◌, ◌*◌, ◌/◌, ◌%◌, ◌^◌, List, [], ◌∷◌, ◌++◌, true, false, pos, ltb, leb, ◌==◌,
  ◌&&◌, if◌then◌else◌, Result, ok, fault, overrun, assertion, check, ◌>>=◌, ◌>>◌, get_or,
}
use project.Userprog.BitMap.{clear, div_round_up}
use project.Userprog.Paging.State.{
  PageTableEntry, IptEntry, AddrSpace, Vm, page_size, num_phys_pages, tlb_size, user_stack_size,
  update, put_page, page, with_space, with_page, with_ipt,
}

-- The parts of the header of an executable that the constructor reads, as 32-bit words.
pub record NoffHeader : Type 0 where
  pub noff_magic : ℕ
  pub code_size : ℕ
  pub init_data_size : ℕ
  pub uninit_data_size : ℕ

abbrev pub noffmagic : ℕ
noffmagic = 0xbadfad

-- An entry of the table, as the constructor and `allocateStack` initialise it. `garbage` is what
-- `new` left in the fields that they do not set.
abbrev pub fresh_page : (ℕ → PageTableEntry) → ℕ → ℕ → PageTableEntry
fresh_page garbage location i = record (garbage i) {
  entry = record (garbage i).entry {
    virtual_page = i;
    valid = false;
    in_use = false;
    dirty = false;
    read_only = false;
  };
  byte_offset = 40 + i * page_size;
  location = location;
}

unfoldable pub new_addr_space : (ℕ → PageTableEntry) → NoffHeader → List ℕ → Result AddrSpace
new_addr_space garbage noff_h executable = do
  check (noff_h.noff_magic == noffmagic) assertion
  let size = (noff_h.code_size + noff_h.init_data_size + noff_h.uninit_data_size) % 2 ^ 32
  let pages = div_round_up size page_size + div_round_up user_stack_size page_size
  ok (record {
    page_table = λ i. if ltb i pages then fresh_page garbage 1 i else garbage i;
    num_pages = pages;
    num_page_queue = pages ∷ [];
    executable = executable;
  })

-- The loop of `SaveState`.
unfoldable pub save_from : ℕ → ℕ → Vm → Vm
save_from zero i s = s
save_from (suc n) i s =
    save_from n (i + 1) (record s { tlb = update i (record (s.tlb i) { valid = false }) s.tlb })

unfoldable pub save_state : Vm → Vm
unfolding save_from
save_state s = save_from tlb_size 0 s

unfoldable pub restore_state : ℕ → Vm → Vm
restore_state a s = record s { page_table_size = (s.space a).num_pages }

-- A frame is zeroed and given back, and its page is no longer in memory.
unfoldable pub free_page : ℕ → ℕ → Vm → Result Vm
free_page a v s = do
  let e = (s.space a).page_table v
  let p = e.entry.physical_page
  bits ← clear (pos p) s.main_memory_bit_map
  check (ltb p num_phys_pages) overrun
  let s' = record s {
    main_memory_bit_map = bits;
    main_memory = put_page p (λ _. 0) s.main_memory;
    ipt = update p (record (s.ipt p) { entry = record (s.ipt p).entry { valid = false } }) s.ipt;
  }
  ok (
      with_space a (with_page v (record e { entry = record e.entry { valid = false } }) (s.space a))
        s')

-- The loop of `clearMem`.
unfoldable pub clear_mem_from : ℕ → ℕ → ℕ → Vm → Result Vm
unfolding free_page
clear_mem_from a zero i s = ok s
clear_mem_from a (suc n) i s =
    (if ((s.space a).page_table i).entry.valid then free_page a i s else ok s)
    >>= clear_mem_from a n (i + 1)

unfoldable pub clear_mem : ℕ → Vm → Result Vm
unfolding clear_mem_from
clear_mem a s = clear_mem_from a (s.space a).num_pages 0 s

-- The loop of `clearStack`. A page outside the table is an overrun.
unfoldable pub clear_stack_from : ℕ → ℕ → ℕ → Vm → Result Vm
unfolding free_page
clear_stack_from a zero i s = ok s
clear_stack_from a (suc n) i s = do
  check (ltb i (s.space a).num_pages) overrun
  s' ← free_page a i s
  clear_stack_from a n (i + 1) s'

unfoldable pub clear_stack : ℕ → ℕ → Vm → Result Vm
unfolding clear_stack_from
clear_stack a stack s = do
  let stack_end = stack / page_size
  check (leb 7 stack_end) overrun
  clear_stack_from a 8 (stack_end - 7) s

-- The copy of an entry, which leaves out `swapLocation`.
abbrev pub copy_page : PageTableEntry → PageTableEntry → PageTableEntry
copy_page new old = record new {
  entry = old.entry;
  byte_offset = old.byte_offset;
  location = old.location;
}

unfoldable pub allocate_stack : (ℕ → PageTableEntry) → ℕ → Vm → Vm
unfolding restore_state
allocate_stack garbage a s =
    let space = s.space a in
    let n = space.num_pages in
    restore_state a (
      with_space a
        (record space {
          num_pages = n + 8;
          num_page_queue = space.num_page_queue ++ ((n + 8) ∷ []);
          page_table = λ i.
              if ltb i n
              then copy_page (garbage i) (space.page_table i)
              else if ltb i (n + 8)
              then fresh_page garbage 2 i
              else garbage i;
        })
        s)

-- An empty queue has no front.
unfoldable pub get_num_pages : AddrSpace → Result (ℕ × AddrSpace)
get_num_pages space = elim space.num_page_queue [
  | [] ↦ fault overrun
  | (n ∷ rest) ↦ ok (n, record space { num_page_queue = rest })
]

-- `executable->ReadAt`: bytes past the end of the file are not copied, and were zeroed before.
abbrev pub read_executable : List ℕ → ℕ → ℕ → ℕ
read_executable bytes offset o = get_or bytes (offset + o) 0

-- What `IPTMiss` puts into a frame.
unfoldable pub page_source : List ℕ → (ℕ → ℕ) → PageTableEntry → ℕ → ℕ
page_source executable swap_file e o =
    if e.location == 1
    then read_executable executable e.byte_offset o
    else if e.location == 0
    then page swap_file e.swap_location o
    else 0

unfoldable pub ipt_miss : ℕ → ℕ → ℕ → Vm → Result Vm
ipt_miss a vpn ppn s = do
  let space = s.space a
  let e = space.page_table vpn
  check (ltb vpn space.num_pages && ltb ppn num_phys_pages) overrun
  let e' = record e { entry = record e.entry { valid = true; physical_page = ppn } }
  let loaded : IptEntry = record {
    owner = a;
    entry = record {
      virtual_page = vpn;
      physical_page = ppn;
      valid = true;
      in_use = e.entry.in_use;
      dirty = e.entry.dirty;
      read_only = e.entry.read_only;
    };
  }
  let s' = record s {
    main_memory = put_page ppn (page_source space.executable s.swap_file e) s.main_memory;
  }
  ok (with_ipt ppn loaded (with_space a (with_page vpn e' space) s'))

unfoldable pub swapped_page : ℕ → ℕ → AddrSpace → Result AddrSpace
swapped_page vpn swap_location space = do
  let e = space.page_table vpn
  check (ltb vpn space.num_pages) overrun
  ok (
      with_page vpn
        (record e {
          entry = record e.entry { valid = false };
          location = 0;
          swap_location = swap_location;
        })
        space)

unfoldable pub evicted_page : ℕ → AddrSpace → Result AddrSpace
evicted_page vpn space = do
  let e = space.page_table vpn
  check (ltb vpn space.num_pages) overrun
  ok (with_page vpn (record e { entry = record e.entry { valid = false } }) space)
