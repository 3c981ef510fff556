-- ===== src/Userprog/Paging/Frames.antt =====
-- userprog/exception.cc: getting a frame for a page changes no page of any program.
use project.Prelude.{
  ℕ, ◌+◌, ◌%◌, ◌<◌, ◌≡◌, refl, sym, ap, subst, ◌∙◌, inl, inr, ℤ, pos, negsuc, Bool, true, false,
  if◌then◌else◌, ok, ◌>>=◌, arith, Holds, Holds-bind, Holds-implies, Holds-Returns,
}
use project.Userprog.BitMap.{BitMap, find}
use project.Userprog.BitMap.Laws.{used, HasRoom}
use project.Userprog.BitMap.Search.{Found, find-Found}
use project.Userprog.Paging.State.{Vm, num_phys_pages}
use project.Userprog.Paging.Spaces.{ipt_miss}
use project.Userprog.Paging.Faults.{evict, choose, handle_memory_full, get_frame, handle_ipt_miss}
use project.Userprog.Paging.Contents.{
  content, IsAt, IsEmpty, Keeps, Moved, IsHeld, Placed, ipt_miss-Keeps,
}
use project.Userprog.Paging.Eviction.{
  SamePages, SamePages-IsHeld, SamePages-Moved, SamePages-Placed, IsTracked, evict-Moved,
}

-- The tables agree. `resident`: a page that is in memory is in a frame that is taken, and the table of
-- frames has it there. `occupied`: a frame that is taken has the page that the table of frames says.
pub record Paged (s : Vm) : Type 0 where
  pub placed : Placed s
  pub frames_room : HasRoom s.main_memory_bit_map
  pub frames_number : s.main_memory_bit_map.num_bits ≡ num_phys_pages
  pub next_frame : s.current_ipt < num_phys_pages
  pub resident :
      (b w : ℕ)
      → w < (s.space b).num_pages
      → ((s.space b).page_table w).entry.valid ≡ true
      → (((s.space b).page_table w).entry.physical_page < num_phys_pages)
        × (used s.main_memory_bit_map ((s.space b).page_table w).entry.physical_page ≡ 1)
        × ((s.ipt ((s.space b).page_table w).entry.physical_page).owner ≡ b)
        × ((s.ipt ((s.space b).page_table w).entry.physical_page).entry.virtual_page ≡ w)
        × ((s.ipt ((s.space b).page_table w).entry.physical_page).entry.valid ≡ true)
  pub occupied :
      (p : ℕ)
      → p < num_phys_pages
      → used s.main_memory_bit_map p ≡ 1
      → IsAt s (s.ipt p).owner (s.ipt p).entry.virtual_page p
  pub tracked : (p : ℕ) → p < num_phys_pages → used s.main_memory_bit_map p ≡ 1 → IsTracked p s

Paged-IsHeld :
    (s : Vm)
    → Paged s
    → (p : ℕ) → p < num_phys_pages
    → used s.main_memory_bit_map p ≡ 1
    → IsHeld s p
Paged-IsHeld s paged p h u = record {
  in_frame = paged.occupied p h u;
  alone = λ b w k v e.
      let r = paged.resident b w k v in
      (
        subst (λ q. b ≡ (s.ipt q).owner) e (sym r.2),
        subst (λ q. w ≡ (s.ipt q).entry.virtual_page) e (sym r.3),
      );
}

pub choose_cases :
    (P : ℕ × Vm → Type 0) (random : ℕ) (t : Vm)
    → P (random % num_phys_pages, t)
    → P (t.current_ipt, record t { current_ipt = (t.current_ipt + 1) % num_phys_pages })
    → P (choose random t)
unfolding choose
choose_cases P random t x y = go t.p_rand
  where
    go :
        (b : Bool)
        → P (
            if b
            then (random % num_phys_pages, t)
            else (t.current_ipt, record t { current_ipt = (t.current_ipt + 1) % num_phys_pages }))
    go true = x
    go false = y

module _ (s : Vm) (paged : Paged s) where
  -- A frame that is taken can be emptied.
  evict_taken :
      (p : ℕ) (t : Vm)
      → SamePages s t
      → IsTracked p t
      → p < num_phys_pages
      → used s.main_memory_bit_map p ≡ 1
      → Holds (λ s'. Moved s s' × IsEmpty s' p) (evict p t)
  evict_taken p t same tracked h u =
      Holds-implies (evict p t) (λ s' (m, e). (SamePages-Moved s t s' same m, e))
        (evict-Moved p t (SamePages-Placed s t same paged.placed)
          (SamePages-IsHeld p s t same (Paged-IsHeld s paged p h u)) tracked)

  module _ (random : ℕ) (bits : BitMap) where
    with_map : Vm
    with_map = record s { main_memory_bit_map = bits }

    full-Moved :
        ((p : ℕ) → p < num_phys_pages → used s.main_memory_bit_map p ≡ 1)
        → Holds {A = ℕ × Vm}
            (λ x. Moved s x.1 × IsEmpty x.1 x.0)
            (handle_memory_full random with_map)
    unfolding handle_memory_full with_map
    full-Moved all =
        choose_cases
          (λ c.
            Holds {A = ℕ × Vm} (λ x. Moved s x.1 × IsEmpty x.1 x.0)
              (evict c.0 c.1 >>= λ s'. ok (c.0, s')))
          random with_map
          (empties (random % num_phys_pages) with_map
            (record {
              same_space = refl;
              same_memory = refl;
              same_swap = refl;
              same_places = refl;
              same_current = refl;
              same_owner = λ p. refl;
              same_page = λ p. refl;
            })
            (paged.tracked (random % num_phys_pages) (omega arith)
              (all (random % num_phys_pages) (omega arith)))
            (omega arith))
          (empties s.current_ipt
            (record with_map { current_ipt = (s.current_ipt + 1) % num_phys_pages })
            (record {
              same_space = refl;
              same_memory = refl;
              same_swap = refl;
              same_places = refl;
              same_current = refl;
              same_owner = λ p. refl;
              same_page = λ p. refl;
            })
            (paged.tracked s.current_ipt paged.next_frame (all s.current_ipt paged.next_frame))
            paged.next_frame)
      where
        empties :
            (p : ℕ) (t : Vm)
            → SamePages s t
            → IsTracked p t
            → p < num_phys_pages
            → Holds {A = ℕ × Vm}
                (λ x. Moved s x.1 × IsEmpty x.1 x.0)
                (evict p t >>= λ s'. ok (p, s'))
        empties p t same tracked h =
            Holds-bind (λ x. Moved s x.1 × IsEmpty x.1 x.0) (λ s'. Moved s s' × IsEmpty s' p)
              (evict p t) _ (evict_taken p t same tracked h (all p h)) λ s' m. m

    -- Whatever the search for a free frame finds.
    take_frame :
        (i : ℤ)
        → Found 0 s.main_memory_bit_map (i, bits)
        → Holds {A = ℕ × Vm}
            (λ x. Moved s x.1 × IsEmpty x.1 x.0)
            (elim i [ negsuc n ↦ handle_memory_full random with_map | pos p ↦ ok (p, with_map) ])
    unfolding with_map content
    take_frame (negsuc n) (inl (e, f, all)) =
        full-Moved λ p h. all p (omega arith) (omega (arith, h, paged.frames_number))
    take_frame (negsuc n) (inr (k, e, p, q, z, all, t)) = absurd (ground (arith, e))
    take_frame (pos n) (inl (e, f, all)) = absurd (ground (arith, e))
    take_frame (pos n) (inr (k, e, p, q, z, all, t)) = (
      (λ b w o k l. refl, λ b. refl, λ b w h. h, refl),
      λ b w k v e'.
          ground (arith, e, z, e', (paged.resident b w k v).1, ap (used s.main_memory_bit_map) e'),
    )

  get_frame-Moved :
      (random : ℕ) → Holds {A = ℕ × Vm} (λ x. Moved s x.1 × IsEmpty x.1 x.0) (get_frame random s)
  unfolding get_frame with_map
  get_frame-Moved random =
      Holds-bind _ (Found 0 s.main_memory_bit_map) (find s.main_memory_bit_map) _
        (Holds-Returns (Found 0 s.main_memory_bit_map) (find s.main_memory_bit_map)
          (find-Found s.main_memory_bit_map paged.frames_room))
        λ x found. take_frame random x.1 x.0 found

  -- Bringing in a page that is not in memory changes no page.
  pub handle_ipt_miss-Keeps :
      (random vpn : ℕ)
      → ((s.space s.current_space).page_table vpn).entry.valid ≡ false
      → Holds (λ x. Keeps s x.1) (handle_ipt_miss random vpn s)
  unfolding handle_ipt_miss
  handle_ipt_miss-Keeps random vpn absent =
      Holds-bind _ (λ x. Moved s x.1 × IsEmpty x.1 x.0) (get_frame random s) _
        (get_frame-Moved random)
        λ (p, t) ((kept, pages, fewer, current), empty).
          Holds-bind (λ x. Keeps s x.1) (Keeps t) (ipt_miss t.current_space vpn p t) _
            (ipt_miss-Keeps t.current_space vpn p t (rw current (fewer s.current_space vpn absent))
              empty)
            λ u (k, more). (
              λ b w o l m. k b w o (omega (arith, pages b)) m ∙ kept b w o l m,
              λ b. more b ∙ pages b,
            )
