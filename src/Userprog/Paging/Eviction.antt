-- ===== src/Userprog/Paging/Eviction.antt =====
-- userprog/exception.cc: emptying a frame changes no page of any program.
use project.Prelude.{
  ℕ, zero, suc, ◌+◌, ◌*◌, ◌/◌, ◌%◌, ◌≤◌, ◌<◌, ◌≡◌, ◌≢◌, refl, sym, ap, ◌∙◌, ◌⊎◌, inl, inr, ℤ, pos,
  negsuc, minus_one, List, Option, none, some, Bool, true, false, not, ltb, leb, ◌==◌, ◌&&◌,
  if◌then◌else◌, Result, ok, fault, halted, check, ◌>>=◌, ◌>>◌, Bool-cases, arith, Holds,
  Holds-each, Holds-bind, Holds-implies, Holds-Returns,
}
use project.Userprog.Paging.State.{Vm, num_phys_pages, tlb_size}
use project.Userprog.Paging.Faults.{drop_page, swap_out, drop_entry, drop_from, evict}
use project.Userprog.Paging.Contents.{
  content, IsEmpty, Moved, IsHeld, IsClean, Placed, drop_page-Moved, swap_out-Moved,
}

-- Only the TLB and the dirty bits of the frames may differ.
pub record SamePages (s s' : Vm) : Type 0 where
  pub same_space : s'.space ≡ s.space
  pub same_memory : s'.main_memory ≡ s.main_memory
  pub same_swap : s'.swap_file ≡ s.swap_file
  pub same_places : s'.swap_file_bit_map ≡ s.swap_file_bit_map
  pub same_current : s'.current_space ≡ s.current_space
  pub same_owner : (p : ℕ) → (s'.ipt p).owner ≡ (s.ipt p).owner
  pub same_page : (p : ℕ) → (s'.ipt p).entry.virtual_page ≡ (s.ipt p).entry.virtual_page

drop_entry-SamePages : (ppn i : ℕ) (s : Vm) → SamePages s (drop_entry ppn i s)
unfolding drop_entry
drop_entry-SamePages ppn i s = elim (Bool-cases ((s.tlb i).physical_page == ppn)) [
  | inl h ↦ rw h (record {
    same_space = refl;
    same_memory = refl;
    same_swap = refl;
    same_places = refl;
    same_current = refl;
    same_owner = λ p. ground arith;
    same_page = λ p. ground arith;
  })
  | inr h ↦ rw h (record {
    same_space = refl;
    same_memory = refl;
    same_swap = refl;
    same_places = refl;
    same_current = refl;
    same_owner = λ p. refl;
    same_page = λ p. refl;
  })
]

drop_from-SamePages : (ppn n i : ℕ) (s : Vm) → SamePages s (drop_from ppn n i s)
unfolding drop_from
drop_from-SamePages ppn zero i s = record {
  same_space = refl;
  same_memory = refl;
  same_swap = refl;
  same_places = refl;
  same_current = refl;
  same_owner = λ p. refl;
  same_page = λ p. refl;
}
drop_from-SamePages ppn (suc n) i s =
    let one = drop_entry-SamePages ppn i s in
    let more = drop_from-SamePages ppn n (i + 1) (drop_entry ppn i s) in
    record {
      same_space = more.same_space ∙ one.same_space;
      same_memory = more.same_memory ∙ one.same_memory;
      same_swap = more.same_swap ∙ one.same_swap;
      same_places = more.same_places ∙ one.same_places;
      same_current = more.same_current ∙ one.same_current;
      same_owner = λ p. more.same_owner p ∙ one.same_owner p;
      same_page = λ p. more.same_page p ∙ one.same_page p;
    }

-- Each entry of the TLB for frame `p`, of the `n` from `i` on, says that the page was written.
abbrev pub SaysDirty : ℕ → ℕ → ℕ → Vm → Type 0
SaysDirty p n i s =
    (j : ℕ) → i ≤ j → j < i + n → (s.tlb j).physical_page ≡ p → (s.tlb j).dirty ≡ true

-- The frame is marked as written, or an entry of the TLB is for it.
abbrev pub IsKnown : ℕ → ℕ → ℕ → Vm → Type 0
IsKnown p n i s =
    ((s.ipt p).entry.dirty ≡ true)
    ⊎ ((j : ℕ) × (i ≤ j) × (j < i + n) × ((s.tlb j).physical_page ≡ p))

drop_entry-tlb :
    (p i j : ℕ) (s : Vm)
    → (((drop_entry p i s).tlb j).physical_page ≡ (s.tlb j).physical_page)
      × (((drop_entry p i s).tlb j).dirty ≡ (s.tlb j).dirty)
unfolding drop_entry
drop_entry-tlb p i j s = (ground arith, ground arith)

drop_from-dirty :
    (p n i : ℕ) (s : Vm)
    → SaysDirty p n i s
    → IsKnown p n i s
    → ((drop_from p n i s).ipt p).entry.dirty ≡ true
unfolding drop_from drop_entry
drop_from-dirty p zero i s says (inl h) = h
drop_from-dirty p zero i s says (inr (j, k, l, e)) = absurd (omega arith)
drop_from-dirty p (suc n) i s says known =
    drop_from-dirty p n (i + 1) (drop_entry p i s)
      (λ j k l. ground (arith, drop_entry-tlb p i j s, says j (omega arith) (omega arith)))
      (elim (Bool-cases ((s.tlb i).physical_page == p)) [
        | inl h ↦ inl (here h)
        | inr h ↦ later h known
      ])
  where
    here : ((s.tlb i).physical_page == p) ≡ true → ((drop_entry p i s).ipt p).entry.dirty ≡ true
    here h = ground (arith, h, says i (omega arith) (omega arith))

    later :
        ((s.tlb i).physical_page == p) ≡ false
        → IsKnown p (suc n) i s
        → IsKnown p n (i + 1) (drop_entry p i s)
    later h (inl d) = inl (ground (arith, h, d))
    later h (inr (j, k, l, e)) = elim (Bool-cases (i == j)) [
      | inl same ↦
          let e' : i ≡ j = ground (arith, same) in
          absurd (ground (arith, h, ap (λ x. (s.tlb x).physical_page) e', e))
      | inr other ↦ inr (j, ground (arith, other), omega arith, ground (arith, h, e))
    ]

-- What is known of the page in frame `p`: it is as it was when it was brought in, or the TLB and the
-- table of frames say that it was written.
abbrev pub IsTracked : ℕ → Vm → Type 0
IsTracked p s = IsClean s p ⊎ (SaysDirty p tlb_size 0 s × IsKnown p tlb_size 0 s)

pub SamePages-Moved : (s s' s'' : Vm) → SamePages s s' → Moved s' s'' → Moved s s''
unfolding content
SamePages-Moved s s' s'' same (kept, pages, fewer, current) = (
  λ b w o k l.
      kept b w o (ground (arith, ap (λ f. (f b).num_pages) same.same_space)) l ∙ same_content b w o,
  λ b. pages b ∙ ap (λ f. (f b).num_pages) same.same_space,
  λ b w h. fewer b w (ap (λ f. ((f b).page_table w).entry.valid) same.same_space ∙ h),
  current ∙ same.same_current,
)
  where
    same_content : (b w o : ℕ) → content s' b w o ≡ content s b w o
    same_content b w o = rw (same.same_space, same.same_memory, same.same_swap) refl

pub SamePages-IsHeld : (p : ℕ) (s s' : Vm) → SamePages s s' → IsHeld s p → IsHeld s' p
SamePages-IsHeld p s s' same held = record {
  in_frame =
      rw (same.same_owner p, same.same_page p)
        (record {
          at_valid = rw same.same_space held.in_frame.at_valid;
          at_frame = rw same.same_space held.in_frame.at_frame;
        });
  alone = rw (same.same_space, same.same_owner p, same.same_page p) held.alone;
}

pub SamePages-Placed : (s s' : Vm) → SamePages s s' → Placed s → Placed s'
SamePages-Placed s s' same placed = record {
  has_room = rw same.same_places placed.has_room;
  place_used = rw (same.same_places, same.same_space) placed.place_used;
}

-- Emptying a frame changes no page, if a page that was written is known to be.
pub evict-Moved :
    (p : ℕ) (s : Vm)
    → Placed s
    → IsHeld s p
    → IsTracked p s
    → Holds (λ s'. Moved s s' × IsEmpty s' p) (evict p s)
unfolding evict
evict-Moved p s placed held tracked =
    Holds-each (λ s'. Moved s s' × IsEmpty s' p)
      (check (ltb p num_phys_pages) project.Prelude.overrun) _
      λ u h. go (Bool-cases ((s'.ipt p).entry.dirty))
  where
    s' : Vm
    s' = drop_from p tlb_size 0 s

    same : SamePages s s'
    same = drop_from-SamePages p tlb_size 0 s

    held' : IsHeld s' p
    held' = SamePages-IsHeld p s s' same held

    placed' : Placed s'
    placed' = SamePages-Placed s s' same placed

    clean : ((s'.ipt p).entry.dirty ≡ false) → IsTracked p s → IsClean s' p
    clean h (inl c) o l =
        rw (same.same_memory, same.same_space, same.same_swap, same.same_owner p, same.same_page p)
          (c o l)
    clean h (inr (says, known)) o l =
        absurd (ground (arith, h, drop_from-dirty p tlb_size 0 s says known))

    onward :
        (r : Result Vm)
        → Holds (λ s''. Moved s' s'' × IsEmpty s'' p) r
        → Holds (λ s''. Moved s s'' × IsEmpty s'' p) r
    onward r h = Holds-implies r (λ s'' (m, e). (SamePages-Moved s s' s'' same m, e)) h

    go :
        ((s'.ipt p).entry.dirty ≡ true) ⊎ ((s'.ipt p).entry.dirty ≡ false)
        → Holds
            (λ s''. Moved s s'' × IsEmpty s'' p)
            (if (s'.ipt p).entry.dirty then swap_out p s' else drop_page p s')
    go (inl h) = rw h (onward (swap_out p s') (swap_out-Moved p s' placed' held'))
    go (inr h) = rw h (onward (drop_page p s') (drop_page-Moved p s' held' (clean h tracked)))
