-- ===== src/Userprog/Paging/Contents.antt =====
-- userprog/addrspace.cc and userprog/exception.cc: what a page holds, wherever it is, and what moving
-- it does to that.
use project.Prelude.{
  ℕ, ◌+◌, ◌*◌, ◌%◌, ◌<◌, ◌≡◌, ◌≢◌, refl, ap, inl, inr, ℤ, pos, negsuc, true, false, ltb, ◌==◌, ◌&&◌,
  if◌then◌else◌, ok, fault, halted, ◌>>=◌, Bool-cases, arith, Holds, Holds-bind, Holds-Returns,
}
use project.Userprog.BitMap.{BitMap, find}
use project.Userprog.BitMap.Laws.{used, HasRoom}
use project.Userprog.BitMap.Search.{Found, find-Found}
use project.Userprog.Paging.State.{Vm, page_size, put_page, page, with_space}
use project.Userprog.Paging.Spaces.{ipt_miss, page_source, swapped_page, evicted_page}
use project.Userprog.Paging.Faults.{drop_page, swap_out}

-- Byte `o` of page `v` of space `a`.
unfoldable pub content : Vm → ℕ → ℕ → ℕ → ℕ
content s a v o =
    let e = (s.space a).page_table v in
    if e.entry.valid
    then page s.main_memory e.entry.physical_page o
    else page_source (s.space a).executable s.swap_file e o

-- Page `w` of space `b` is in frame `p`.
pub record IsAt (s : Vm) (b w p : ℕ) : Type 0 where
  pub at_valid : ((s.space b).page_table w).entry.valid ≡ true
  pub at_frame : ((s.space b).page_table w).entry.physical_page ≡ p

-- No page is in frame `p`.
abbrev pub IsEmpty : Vm → ℕ → Type 0
IsEmpty s p =
    (b w : ℕ)
    → w < (s.space b).num_pages
    → ((s.space b).page_table w).entry.valid ≡ true
    → ((s.space b).page_table w).entry.physical_page ≢ p

-- No page has changed.
abbrev pub Preserves : Vm → Vm → Type 0
Preserves s s' =
    (b w o : ℕ) → w < (s.space b).num_pages → o < page_size → content s' b w o ≡ content s b w o

-- No page has changed, and no space its size.
abbrev pub Keeps : Vm → Vm → Type 0
Keeps s s' = Preserves s s' × ((b : ℕ) → (s'.space b).num_pages ≡ (s.space b).num_pages)

-- No page has changed, none has come into memory, and the same space runs.
abbrev pub Moved : Vm → Vm → Type 0
Moved s s' =
    Preserves s s'
    × ((b : ℕ) → (s'.space b).num_pages ≡ (s.space b).num_pages)
    × ((b w : ℕ)
        → ((s.space b).page_table w).entry.valid ≡ false
        → ((s'.space b).page_table w).entry.valid ≡ false)
    × (s'.current_space ≡ s.current_space)

page-put_page :
    (p q o : ℕ) (bytes memory : ℕ → ℕ)
    → o < 128
    → page (put_page p bytes memory) q o ≡ (if q == p then bytes o else page memory q o)
page-put_page p q o bytes memory h = elim (Bool-cases (q == p)) [
  | inl same ↦
      let same_byte : (q * 128 + o) % 128 ≡ o = omega arith in ground (arith, ap bytes same_byte)
  | inr other ↦ ground arith
]

-- Bringing a page that is not in memory into an empty frame changes no page.
pub ipt_miss-Keeps :
    (a vpn ppn : ℕ) (s : Vm)
    → ((s.space a).page_table vpn).entry.valid ≡ false
    → IsEmpty s ppn
    → Holds (Keeps s) (ipt_miss a vpn ppn s)
unfolding content ipt_miss
ipt_miss-Keeps a vpn ppn s absent empty =
    elim (Bool-cases (ltb vpn (s.space a).num_pages && ltb ppn 256)) [
      | inl h ↦ rw h (
        λ b w o k l.
            let e = (s.space b).page_table w in
            ground (
              arith,
              page-put_page ppn e.entry.physical_page o
                  (page_source (s.space a).executable s.swap_file ((s.space a).page_table vpn))
                  s.main_memory l,
              page-put_page ppn ppn o
                  (page_source (s.space a).executable s.swap_file ((s.space a).page_table vpn))
                  s.main_memory l,
              empty b w k,
            ),
        λ b. ground arith,
      )
      | inr h ↦ rw h tt
    ]

-- The page of frame `p` is the one that the table of frames says, and no other page is in it.
pub record IsHeld (s : Vm) (p : ℕ) : Type 0 where
  pub in_frame : IsAt s (s.ipt p).owner (s.ipt p).entry.virtual_page p
  pub alone :
      (b w : ℕ)
      → w < (s.space b).num_pages
      → ((s.space b).page_table w).entry.valid ≡ true
      → ((s.space b).page_table w).entry.physical_page ≡ p
      → (b ≡ (s.ipt p).owner) × (w ≡ (s.ipt p).entry.virtual_page)

-- The page that the frame `p` holds is as it was when it was brought in.
abbrev pub IsClean : Vm → ℕ → Type 0
IsClean s p =
    (o : ℕ)
    → o < page_size
    → page s.main_memory p o
      ≡ page_source (s.space (s.ipt p).owner).executable s.swap_file
          ((s.space (s.ipt p).owner).page_table (s.ipt p).entry.virtual_page) o

-- A page that is in the swap file has a place of its own, which is taken.
pub record Placed (s : Vm) : Type 0 where
  pub has_room : HasRoom s.swap_file_bit_map
  pub place_used :
      (b w : ℕ)
      → w < (s.space b).num_pages
      → ((s.space b).page_table w).location ≡ 0
      → used s.swap_file_bit_map ((s.space b).page_table w).swap_location ≡ 1

-- A clean page can be dropped, and its frame is empty.
pub drop_page-Moved :
    (p : ℕ) (s : Vm)
    → IsHeld s p
    → IsClean s p
    → Holds (λ s'. Moved s s' × IsEmpty s' p) (drop_page p s)
unfolding content drop_page evicted_page page_source
drop_page-Moved p s held clean =
    let e = s.ipt p in
    elim (Bool-cases (ltb e.entry.virtual_page (s.space e.owner).num_pages)) [
      | inl h ↦ rw h (
        (
          λ b w o k l. ground (arith, held.in_frame.at_valid, held.in_frame.at_frame, clean o l),
          λ b. ground arith,
          λ b w k. ground (arith, k),
          refl,
        ),
        λ b w k. ground (arith, held.alone b w),
      )
      | inr h ↦ rw h tt
    ]

swap_out_to :
    (p place : ℕ) (bits : BitMap) (s : Vm)
    → Placed s
    → used s.swap_file_bit_map place ≡ 0
    → IsHeld s p
    → Holds
        (λ s'. Moved s s' × IsEmpty s' p)
        (do
          space ← swapped_page (s.ipt p).entry.virtual_page place (s.space (s.ipt p).owner)
          ok (
              with_space (s.ipt p).owner space (record s {
                swap_file_bit_map = bits;
                swap_file = put_page place (page s.main_memory p) s.swap_file;
              })))
unfolding content swapped_page page_source
swap_out_to p place bits s placed free held =
    let e = s.ipt p in
    elim (Bool-cases (ltb e.entry.virtual_page (s.space e.owner).num_pages)) [
      | inl h ↦ rw h (
        (
          λ b w o k l.
              let e' = (s.space b).page_table w in
              ground (
                arith,
                held.in_frame.at_valid,
                held.in_frame.at_frame,
                placed.place_used b w k,
                page-put_page place place o (page s.main_memory p) s.swap_file l,
                page-put_page place e'.swap_location o (page s.main_memory p) s.swap_file l,
              ),
          λ b. ground arith,
          λ b w k. ground (arith, k),
          refl,
        ),
        λ b w k. ground (arith, held.alone b w),
      )
      | inr h ↦ rw h tt
    ]

-- Any page can be swapped out, and its frame is empty.
pub swap_out-Moved :
    (p : ℕ) (s : Vm)
    → Placed s
    → IsHeld s p
    → Holds (λ s'. Moved s s' × IsEmpty s' p) (swap_out p s)
unfolding swap_out
swap_out-Moved p s placed held =
    Holds-bind _ (Found 0 s.swap_file_bit_map) (find s.swap_file_bit_map) _
      (Holds-Returns (Found 0 s.swap_file_bit_map) (find s.swap_file_bit_map)
        (find-Found s.swap_file_bit_map placed.has_room))
      λ x found. place x.0 x.1 found
  where
    place :
        (i : ℤ) (bits : BitMap)
        → Found 0 s.swap_file_bit_map (i, bits)
        → Holds
            (λ s'. Moved s s' × IsEmpty s' p)
            (elim i [
              | negsuc n ↦ fault halted
              | pos place ↦ (do
                space ← swapped_page (s.ipt p).entry.virtual_page place (s.space (s.ipt p).owner)
                ok (
                    with_space (s.ipt p).owner space (record s {
                      swap_file_bit_map = bits;
                      swap_file = put_page place (page s.main_memory p) s.swap_file;
                    })))
            ])
    place (negsuc n) bits found = tt
    place (pos n) bits (inl (e, f, all)) = absurd (ground (arith, e))
    place (pos n) bits (inr (k, e, u, v, z, all, t)) =
        swap_out_to p n bits s placed (ground (arith, e, z)) held
