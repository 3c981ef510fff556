-- ===== src/Userprog/Paging/State.antt =====
-- The state of demand paging. The kernel works on it with interrupts off and under its locks, so an
-- operation runs as a whole. An array is a function of the index, and an access checks the bound.
use project.Prelude.{ℕ, ◌+◌, ◌*◌, ◌/◌, ◌%◌, List, Bool, ◌==◌, if◌then◌else◌}
use project.Userprog.BitMap.{BitMap}

-- `in_use` is the field `use`.
pub record TranslationEntry : Type 0 where
  pub virtual_page : ℕ
  pub physical_page : ℕ
  pub valid : Bool
  pub read_only : Bool
  pub in_use : Bool
  pub dirty : Bool

-- `location`: 0 is the swap file, 1 the executable, 2 neither.
pub record PageTableEntry : Type 0 where
  pub entry : TranslationEntry
  pub location : ℕ
  pub byte_offset : ℕ
  pub swap_location : ℕ

-- `owner` is the position of the space among the spaces.
pub record IptEntry : Type 0 where
  pub entry : TranslationEntry
  pub owner : ℕ

pub record AddrSpace : Type 0 where
  pub page_table : ℕ → PageTableEntry
  pub num_pages : ℕ
  pub num_page_queue : List ℕ
  pub executable : List ℕ

-- `current_space` is `currentThread->space`. A byte of the swap file that was never written is 0.
pub record Vm : Type 0 where
  pub ipt : ℕ → IptEntry
  pub tlb : ℕ → TranslationEntry
  pub current_ipt : ℕ
  pub current_tlb : ℕ
  pub main_memory : ℕ → ℕ
  pub swap_file : ℕ → ℕ
  pub main_memory_bit_map : BitMap
  pub swap_file_bit_map : BitMap
  pub space : ℕ → AddrSpace
  pub current_space : ℕ
  pub page_table_size : ℕ
  pub p_rand : Bool

abbrev pub page_size : ℕ
page_size = 128

abbrev pub num_phys_pages : ℕ
num_phys_pages = 256

abbrev pub tlb_size : ℕ
tlb_size = 4

abbrev pub user_stack_size : ℕ
user_stack_size = 1024

-- `f[i] = v`
abbrev pub update : {A : Type 0} → ℕ → A → (ℕ → A) → ℕ → A
update i v f j = if i == j then v else f j

-- The page `p` of an array of bytes becomes `bytes`.
abbrev pub put_page : ℕ → (ℕ → ℕ) → (ℕ → ℕ) → ℕ → ℕ
put_page p bytes memory x = if x / page_size == p then bytes (x % page_size) else memory x

-- The bytes of page `p`.
abbrev pub page : (ℕ → ℕ) → ℕ → ℕ → ℕ
page memory p o = memory (p * page_size + o)

abbrev pub with_space : ℕ → AddrSpace → Vm → Vm
with_space a space s = record s { space = update a space s.space }

abbrev pub with_page : ℕ → PageTableEntry → AddrSpace → AddrSpace
with_page v e space = record space { page_table = update v e space.page_table }

abbrev pub with_ipt : ℕ → IptEntry → Vm → Vm
with_ipt p e s = record s { ipt = update p e s.ipt }
