-- ===== src/Filesys/Files/Layout.antt =====
-- filesys/filehdr.cc and filesys/openfile.cc: the sectors of a new file.
use project.Prelude.{
  ℕ, zero, suc, ◌+◌, ◌*◌, ◌≤◌, ◌<◌, ◌≡◌, sym, ap, ◌∙◌, pos, lt→ltb, ◌==◌, ==_iff, inl, inr, arith,
  Bool-cases, Returns, Returns-implies,
}
use project.Userprog.BitMap.{BitMap, div_round_up}
use project.Userprog.BitMap.Laws.{used-le-one, HasRoom}
use project.Filesys.Headers.{FileHeader, num_direct, sector_size, allocate}
use project.Filesys.Headers.Sectors.{
  taken, taken-entry, HasFree, Allocated, sized, allocate-Allocated,
}
use project.Filesys.System.{disk_sectors, on_disk}
use project.Filesys.Files.Reading.{Laid}
use project.Filesys.Files.Writing.{Apart}

-- A sector that stands in two entries is taken twice.
taken_twice :
    (n i j m k : ℕ) (h : FileHeader)
    → i ≤ j
    → j < m
    → m < i + n
    → h.data_sectors j ≡ pos k
    → h.data_sectors m ≡ pos k
    → 2 ≤ taken n i h k
unfolding taken
taken_twice zero i j m k h p q r e f = absurd (omega arith)
taken_twice (suc n) i j m k h p q r e f = elim (Bool-cases (i == j)) [
  | inl same ↦
      let here : h.data_sectors i ≡ pos k = ap h.data_sectors ((==_iff i j).0 same) ∙ e in
      rw here (ground (arith, taken-entry n (i + 1) m k h (ground arith) (omega arith) f))
  | inr other ↦ omega (arith, taken_twice n (i + 1) j m k h (ground arith) q (omega arith) e f)
]

module _ (size : ℕ) (h h' : FileHeader) (b b' : BitMap) (l : b.num_bits ≤ disk_sectors)
    (a : Allocated (div_round_up size sector_size) 0 (sized size h) b h' b') where
  -- A sector of the file is an entry of its header.
  inside : (i : ℕ) → i * sector_size < h'.num_bytes → i < div_round_up size sector_size
  inside i p = ground (arith, a.num_bytes_same)

  ordered :
      (i j : ℕ) → i < j → j * sector_size < h'.num_bytes → h'.data_sectors i ≡ h'.data_sectors j → ⊥
  ordered i j q p e =
      let r : j < div_round_up size sector_size = inside j p in
      let (k, f, _) = a.in_map j (omega arith) (omega (arith, r)) in
      omega (
        arith,
        taken_twice (div_round_up size sector_size) 0 i j k h' (omega arith) q (omega (arith, r))
            (e ∙ f) f,
        a.bits k,
        used-le-one b' k,
      )

  Apart-Allocated : Apart h'
  Apart-Allocated i j p q e = elim (Bool-cases (i == j)) [
    | inl same ↦ (==_iff i j).0 same
    | inr other ↦ absurd (ground (arith, ordered i j, ordered j i, e, sym e))
  ]

  Laid-Allocated : div_round_up size sector_size ≤ num_direct → Laid h'
  unfolding on_disk
  Laid-Allocated d i p =
      let r : i < div_round_up size sector_size = inside i p in
      let (k, f, q) = a.in_map i (omega arith) (omega (arith, r)) in
      (omega (arith, d, r), rw f (lt→ltb k 1024 (omega (arith, a.same_size))))

-- `Allocate` for a file of at most `num_direct` sectors, from a map of at most the sectors of the disk, with a word for each bit and as many
-- sectors clear as the file needs, lays it out as `ReadAt` and `WriteAt` need it: every sector of the file is in its
-- header and on the disk, and no two are the same.
pub allocate-Laid :
    (size : ℕ) (h : FileHeader) (b : BitMap)
    → b.num_bits ≤ disk_sectors
    → HasRoom b
    → HasFree (div_round_up size sector_size) b
    → div_round_up size sector_size ≤ num_direct
    → Returns (λ x. Laid x.1 × Apart x.1) (allocate size h b)
allocate-Laid size h b l r f d =
    Returns-implies (allocate size h b)
      (λ x (e, a). (Laid-Allocated size h x.1 b x.2 l a d, Apart-Allocated size h x.1 b x.2 l a))
      (allocate-Allocated size h b r f d)
