-- ===== src/Filesys/Files/Tests.antt =====
-- Runs of the open files of filesys/openfile.cc.
use project.Prelude.{
  ℕ, ◌+◌, ◌-◌, ◌<◌, min, ◌≡◌, refl, List, [], ◌∷◌, pos, ok, Result, ◌>>=◌, Returns, arith,
}
use project.Userprog.BitMap.{BitMap, num_clear, word_at}
use project.Filesys.Headers.{FileHeader, sector_at, byte_to_sector, allocate}
use project.Filesys.System.{on_disk}
use project.Filesys.Files.{clipped, Bytes, Disk, read_at, read, write, write_at, seek}
use project.Filesys.Files.Reading.{Laid, Holding, read_at-Holding}
use project.Filesys.Files.Writing.{Apart, Rewritten, write_at-Rewritten, read_at-write_at}
use project.Filesys.Files.Layout.{allocate-Laid}

-- Three sectors, of which the last has 44 bytes of the file.
abbrev header : FileHeader
header = record { num_bytes = 300; num_sectors = 3; data_sectors = λ i. pos (10 + i) }

abbrev blank : Bytes
blank i = 0

abbrev disk : Disk
disk s i = i

-- What is written at 250 is clipped at 300.
abbrev clipped_run : Result (List ℕ)
clipped_run = do
  (n, d, f) ←
      write (seek 250 (record { hdr = header; seek_position = 0 })) disk blank (λ i. 1000 + i) 60
  (m, buf, g) ← read (seek 254 f) d blank blank 4
  ok (n ∷ f.seek_position ∷ m ∷ g.seek_position ∷ buf 0 ∷ buf 3 ∷ buf 4 ∷ [])

write_test : clipped_run ≡ ok (50 ∷ 300 ∷ 4 ∷ 258 ∷ 1004 ∷ 1007 ∷ 0 ∷ [])
unfolding write read seek read_at write_at clipped sector_at byte_to_sector on_disk
write_test = refl

header-Laid : Laid header
unfolding on_disk
header-Laid i p = (omega arith, ground arith)

header-Apart : Apart header
header-Apart i j p q e = ground arith

read_at-Holding_example :
    Returns
      (λ x. (x.0 ≡ min 60 (300 - 250)) × Holding header disk 250 x.0 5 blank x.1)
      (read_at header disk blank blank 5 60 250)
read_at-Holding_example = read_at-Holding header disk blank blank 5 60 250 header-Laid (omega arith)

write_at-Rewritten_example :
    Returns
      (λ x. (x.0 ≡ min 60 (300 - 250)) × Rewritten header (λ i. i) 250 x.0 disk x.1)
      (write_at header disk blank (λ i. i) 60 250)
write_at-Rewritten_example =
    write_at-Rewritten header disk blank (λ i. i) header-Laid header-Apart 60 250 (omega arith)

read_at-write_at_example :
    Returns
      (λ (n, into', m). (m ≡ n) × ((j : ℕ) → j < n → into' j ≡ j))
      (write_at header disk blank (λ i. i) 60 250 >>= λ (n, disk').
        read_at header disk' blank blank 0 60 250 >>= λ (m, into'). ok (n, into', m))
read_at-write_at_example =
    read_at-write_at header disk blank (λ i. i) header-Laid header-Apart blank 60 250 (omega arith)

abbrev free_map : BitMap
free_map = record { num_bits = 40; num_words = 2; map = 3 ∷ 2 ∷ [] }

free_map_clear : num_clear free_map ≡ ok 37
unfolding num_clear word_at
free_map_clear = refl

allocate-Laid_example : Returns (λ x. Laid x.1 × Apart x.1) (allocate 400 header free_map)
allocate-Laid_example =
    allocate-Laid 400 header free_map (omega arith) (omega arith) (37, free_map_clear, omega arith)
      (omega arith)
