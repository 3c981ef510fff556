-- ===== src/Userprog/Paging/Tests.antt =====
-- Runs of demand paging (userprog/addrspace.cc, userprog/exception.cc, machine/translate.cc).
use native.Mathlib.Omega.{arith}
use project.Prelude.{
  ℕ, zero, suc, ◌+◌, ◌*◌, ◌<◌, ◌≡◌, refl, [], ◌∷◌, replicate, Bool, true, false, ◌&&◌, ◌==◌, ==_iff,
  if◌then◌else◌, inl, inr, ok, Holds, Bool-cases, ap,
}
use project.Prelude.Bits.{bit}
use project.Userprog.BitMap.{BitMap, find, word_at}
use project.Userprog.BitMap.Laws.{used}
use project.Userprog.Paging.State.{
  TranslationEntry, PageTableEntry, AddrSpace, Vm, page_size, page, update,
}
use project.Userprog.Paging.Spaces.{page_source}
use project.Userprog.Paging.Faults.{handle_page_fault}
use project.Userprog.Paging.Contents.{content, Keeps}
use project.Userprog.Paging.Residence.{Numbered, handle_page_fault-content}
use project.Userprog.Paging.Translation.{address, translate}
use project.Userprog.Paging.Frames.{Paged}
use project.Userprog.Paging.Transparency.{handle_page_fault-Keeps}

abbrev an_entry : Bool → ℕ → ℕ → TranslationEntry
an_entry valid v p = record {
  virtual_page = v;
  physical_page = p;
  valid = valid;
  read_only = false;
  in_use = false;
  dirty = false;
}

abbrev a_page : Bool → ℕ → PageTableEntry
a_page valid v = record {
  entry = an_entry valid v v;
  location = 1;
  byte_offset = 40 + v * page_size;
  swap_location = 0;
}

abbrev a_space : ℕ → Bool → AddrSpace
a_space n valid = record {
  page_table = a_page valid;
  num_pages = n;
  num_page_queue = [];
  executable = [];
}

-- Space 0 fills the memory, space 1 has no page in memory.
abbrev spaces : ℕ → AddrSpace
spaces zero = a_space 256 true
spaces (suc zero) = a_space 10 false
spaces (suc (suc b)) = a_space 0 false

abbrev full_map : BitMap
full_map = record { num_bits = 256; num_words = 8; map = replicate 8 4294967295 }

abbrev full : Vm
full = record {
  ipt = λ p. record { entry = an_entry true p p; owner = 0 };
  tlb = λ i. an_entry false 0 0;
  current_ipt = 3;
  current_tlb = 1;
  main_memory = λ x. 0;
  swap_file = λ x. 0;
  main_memory_bit_map = full_map;
  swap_file_bit_map = record { num_bits = 40; num_words = 2; map = 0 ∷ 0 ∷ [] };
  space = spaces;
  current_space = 1;
  page_table_size = 10;
  p_rand = false;
}

all_below : (ℕ → Bool) → ℕ → Bool
all_below f zero = true
all_below f (suc n) = f n && all_below f n

all_below_lem : (f : ℕ → Bool) (n : ℕ) → all_below f n ≡ true → (j : ℕ) → j < n → f j ≡ true
unfolding all_below
all_below_lem f zero e j h = absurd (omega arith)
all_below_lem f (suc n) e j h = elim (Bool-cases (j == n)) [
  | inl same ↦ let e' : j ≡ n = (==_iff j n).0 same in ground (arith, e, ap f e')
  | inr other ↦ all_below_lem f n (ground (arith, e)) j (ground (arith, other))
]

full_map-all : all_below (λ i. used full_map i == 1) 256 ≡ true
unfolding all_below used bit
full_map-all = refl

full_map-used : (j : ℕ) → j < 256 → used full_map j ≡ 1
full_map-used j h =
    (==_iff (used full_map j) 1).0 (all_below_lem (λ i. used full_map i == 1) 256 full_map-all j h)

full-Paged : Paged full
unfolding page_source
full-Paged = record {
  placed = record { has_room = omega arith; place_used = no_place };
  frames_room = omega arith;
  frames_number = refl;
  next_frame = omega arith;
  resident = at_home;
  occupied = λ p h u. record { at_valid = refl; at_frame = refl };
  tracked = λ p h u. inl λ o l. refl;
}
  where
    no_place :
        (b w : ℕ)
        → w < (spaces b).num_pages
        → ((spaces b).page_table w).location ≡ 0
        → used full.swap_file_bit_map ((spaces b).page_table w).swap_location ≡ 1
    no_place zero w h e = absurd (omega arith)
    no_place (suc zero) w h e = absurd (omega arith)
    no_place (suc (suc b)) w h e = absurd (omega arith)

    at_home :
        (b w : ℕ)
        → w < (spaces b).num_pages
        → ((spaces b).page_table w).entry.valid ≡ true
        → (((spaces b).page_table w).entry.physical_page < 256)
          × (used full_map ((spaces b).page_table w).entry.physical_page ≡ 1)
          × ((full.ipt ((spaces b).page_table w).entry.physical_page).owner ≡ b)
          × ((full.ipt ((spaces b).page_table w).entry.physical_page).entry.virtual_page ≡ w)
          × ((full.ipt ((spaces b).page_table w).entry.physical_page).entry.valid ≡ true)
    at_home zero w h e = (h, full_map-used w h, refl, refl, refl)
    at_home (suc zero) w h e = absurd (ground (arith, e))
    at_home (suc (suc b)) w h e = absurd (omega arith)

handle_page_fault-Keeps_example : Holds (Keeps full) (handle_page_fault 0 260 full)
handle_page_fault-Keeps_example = handle_page_fault-Keeps 0 260 full full-Paged (omega arith)

-- The program of space 1 has page 2 in frame 3 after the fault, and page 3 of space 0 is out.
handle_page_fault_test :
    Holds
      (λ s.
        (((s.space 1).page_table 2).entry.valid ≡ true)
        × (((s.space 1).page_table 2).entry.physical_page ≡ 3)
        × (((s.space 0).page_table 3).entry.valid ≡ false)
        × ((s.tlb 1).virtual_page ≡ 2)
        × (s.current_tlb ≡ 2))
      (handle_page_fault 0 260 full)
unfolding handle_page_fault find word_at
handle_page_fault_test = (refl, refl, refl, refl, refl)

-- Frame 3 was written through entry 0 of the TLB, and entry 2 still names it from an earlier use: the
-- loop of `HandleMemoryFull` lets entry 2 decide that the page is clean, and the write is lost.
abbrev stale : Vm
stale = record full {
  main_memory = λ x. if x == 384 then 7 else 0;
  tlb = λ i.
      if i == 0
      then record (an_entry true 3 3) { dirty = true }
      else if i == 2
      then an_entry false 9 3
      else an_entry false 0 0;
}

lost_write_test :
    (content stale 0 3 0 ≡ 7) × Holds (λ s. content s 0 3 0 ≡ 0) (handle_page_fault 0 260 stale)
unfolding handle_page_fault find word_at content page_source
lost_write_test = (refl, refl)

translate_test :
    translate 260 4 true (record full { tlb = λ i. an_entry true (i + 1) 5 })
    ≡ ok (
      address 644,
      record full {
        tlb =
            update 1
              (record (an_entry true 2 5) { in_use = true; dirty = true })
              (λ i. an_entry true (i + 1) 5);
      },
    )
unfolding translate
translate_test = refl

full-Numbered : Numbered full
full-Numbered = record { own_number = λ p h. refl; valid_taken = λ p h v. full_map-used p h }

handle_page_fault-content_example :
    Holds
      (λ s'.
        ((s'.tlb 1).valid ≡ true)
        × ((s'.tlb 1).virtual_page ≡ 2)
        × ((o : ℕ)
            → o < page_size
            → page s'.main_memory (s'.tlb 1).physical_page o ≡ content full 1 2 o))
      (handle_page_fault 0 260 full)
handle_page_fault-content_example =
    handle_page_fault-content 0 260 full full-Paged full-Numbered (omega arith)
