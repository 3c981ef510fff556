-- ===== src/Filesys/System/Format.antt =====
-- filesys/filesys.cc: a disk that has just been formatted.
use project.Prelude.{
  ℕ, zero, suc, ◌+◌, ◌≤◌, ◌<◌, ◌≡◌, refl, ap, ◌∙◌, ℤ, pos, if◌then◌else◌, arith, Returns,
  Returns-bind, Returns-both, leb,
}
use project.Userprog.BitMap.{BitMap, mark, new_bit_map}
use project.Userprog.BitMap.Laws.{used, HasRoom, IsSetTo, mark-IsSetTo}
use project.Userprog.BitMap.Search.{
  new_bit_map-clear, free_count, free_count-IsSetTo, free_count_all, num_clear_lem,
}
use project.Filesys.Directories.{DirectoryEntry, new_directory}
use project.Filesys.Directories.Laws.{Distinct-new_directory}
use project.Filesys.Headers.{FileHeader, allocate}
use project.Filesys.Headers.Sectors.{
  taken, Allocated, HasFree, sized, allocate-Allocated, allocate-HasFree,
}
use project.Filesys.System.{FileSystem, disk_sectors, on_disk, write_header, format}
use project.Filesys.System.Claims.{file_claims, claims, put_header, EachFile}
use project.Filesys.System.Consistency.{Consistent}

-- The sectors of the two files that are there from the start.
abbrev pub initially_reserved : (ℤ → FileHeader) → ℕ → ℕ
initially_reserved hs k = file_claims hs (pos 0) k + file_claims hs (pos 1) k

claims-new_directory :
    (hs : ℤ → FileHeader) (n : ℕ) (g : ℕ → DirectoryEntry) (k : ℕ)
    → claims hs (new_directory n g) k ≡ 0
unfolding claims new_directory
claims-new_directory hs zero g k = refl
claims-new_directory hs (suc n) g k = omega (arith, claims-new_directory hs n g k)

EachFile-new_directory :
    (P : ℤ → Type 0) (n : ℕ) (g : ℕ → DirectoryEntry) → EachFile P (new_directory n g)
unfolding EachFile new_directory
EachFile-new_directory P zero g = tt
EachFile-new_directory P (suc n) g = ((λ u. absurd (ground arith)), EachFile-new_directory P n g)

-- A map of the disk of which only sectors 0 and 1 are in use.
abbrev Reserved : BitMap → Type 0
Reserved b =
    (b.num_bits ≡ disk_sectors)
    × HasRoom b
    × ((j : ℕ) → j < disk_sectors → used b j ≡ (if leb 2 j then 0 else 1))
    × HasFree 3 b

Reserved-marks :
    (b c d : BitMap)
    → (b.num_bits ≡ disk_sectors) × HasRoom b × ((j : ℕ) → j < disk_sectors → used b j ≡ 0)
    → IsSetTo 1 0 b c
    → IsSetTo 1 1 c d
    → Reserved d
Reserved-marks b c d (n, r, z) f g = (
  g.0 ∙ f.0 ∙ n,
  g.1,
  (λ j l. ground (arith, g.2 j, f.2 j, z j l)),
  (free_count d.num_bits 0 d, num_clear_lem d g.1, count),
)
  where
    count : 3 ≤ free_count d.num_bits 0 d
    count = ground (
      arith,
      ap (λ n. free_count n 0 d) (g.0 ∙ f.0 ∙ n),
      free_count_all 1024 0 b (λ j p q. z j (omega arith)),
      free_count-IsSetTo 1024 0 0 b c f (z 0 (omega arith)),
      free_count-IsSetTo 1024 0 1 c d g (ground (arith, f.2 1, z 1 (omega arith))),
    )

-- The two headers, the map and the directory.
format_result :
    FileHeader → FileHeader → BitMap → (ℕ → DirectoryEntry) → (ℤ → FileHeader) → FileSystem
format_result map_hdr dir_hdr b entries headers = record {
  free_map_file = b;
  directory_file = new_directory 10 entries;
  headers = put_header (pos 1) dir_hdr (put_header (pos 0) map_hdr headers);
}

format_result-Consistent :
    (map_hdr dir_hdr blank : FileHeader) (b c d : BitMap) (entries : ℕ → DirectoryEntry)
    (headers : ℤ → FileHeader)
    → Reserved b
    → Allocated 1 0 (sized 128 blank) b map_hdr c
    → Allocated 2 0 (sized 200 blank) c dir_hdr d
    → (let fs = format_result map_hdr dir_hdr d entries headers in
        Consistent (initially_reserved fs.headers) fs)
unfolding format_result
format_result-Consistent map_hdr dir_hdr blank b c d entries headers (n, r, z, free) a a' = record {
  has_room = a'.has_room;
  disk_size = a'.same_size ∙ a.same_size ∙ n;
  distinct = Distinct-new_directory 10 entries;
  sound = EachFile-new_directory _ 10 entries;
  accounted = λ j l. ground (
    arith,
    z j l,
    a.bits j,
    a'.bits j,
    claims-new_directory (put_header (pos 1) dir_hdr (put_header (pos 0) map_hdr headers)) 10
        entries j,
    ap (λ n. taken n 0 map_hdr j) a.num_sectors_same,
    ap (λ n. taken n 0 dir_hdr j) a'.num_sectors_same,
  );
}

-- Formatting returns, whatever the memory and the disk hold before: the `ASSERT`s hold, and the map counts each sector once for
-- each of the two files of the system that claims it, headers included, and not at all otherwise.
pub format-Consistent :
    (garbage : ℕ → ℕ) (entries : ℕ → DirectoryEntry) (blank : FileHeader) (headers : ℤ → FileHeader)
    → Returns
        (λ fs. Consistent (initially_reserved fs.headers) fs)
        (format garbage entries blank headers)
unfolding format write_header on_disk format_result
format-Consistent garbage entries blank headers =
    Returns-bind _ _ (new_bit_map 1024 garbage) _ (new_bit_map-clear 1024 garbage) λ b (n, r, z).
      Returns-bind _ (IsSetTo 1 0 b) (mark (pos 0) b) _ (mark-IsSetTo 0 b r (omega arith)) λ c f.
        Returns-bind _ (IsSetTo 1 1 c) (mark (pos 1) c) _
          (mark-IsSetTo 1 c f.1 (omega (arith, f.0)))
          λ d g.
            let w = Reserved-marks b c d (n, r, z) f g in
            let (_, r', _, (m, e, l)) = w in
            Returns-bind _ _ (allocate 128 blank d) _
              (Returns-both _ _ (allocate 128 blank d)
                (allocate-Allocated 128 blank d r' (m, e, omega arith) (omega arith))
                (allocate-HasFree 128 2 blank d r' (m, e, omega arith) (omega arith)))
              λ (done, map_hdr, d') ((t, a), free). rw t (
                Returns-bind _ _ (allocate 200 blank d') _
                  (allocate-Allocated 200 blank d' a.has_room free (omega arith))
                  λ (done', dir_hdr, d'') (t', a'). rw t' (
                    format_result-Consistent map_hdr dir_hdr blank d d' d'' entries headers w a a'))
