-- ===== src/Filesys/System/Tests.antt =====
-- Runs of the file system of filesys/filesys.cc.
use project.Prelude.{
  replicate, ◌==◌, ==_iff, ℕ, ◌≡◌, refl, [], ◌∷◌, true, false, pos, Returns, arith, ◌+◌, leb,
  if◌then◌else◌,
}
use project.Userprog.BitMap.{BitMap}
use project.Userprog.BitMap.Laws.{used}
use project.Filesys.Directories.{Chars, DirectoryEntry, matches}
use project.Filesys.Directories.Laws.{Distinct, lookup}
use project.Filesys.Headers.{FileHeader}
use project.Filesys.Headers.Sectors.{taken}
use project.Prelude.Bits.{bit, all_checked, all_checked_sound}
use project.Filesys.System.{FileSystem, create, remove, format}
use project.Filesys.System.Claims.{EachFile, claims}
use project.Filesys.System.Consistency.{Consistent, CreatesOrNot}
use project.Filesys.System.Removal.{remove-Consistent}
use project.Filesys.System.Creation.{create-Consistent, open_named-create}
use project.Filesys.System.Format.{initially_reserved, format-Consistent}

abbrev blank : FileHeader
blank = record { num_bytes = 0; num_sectors = 0; data_sectors = λ i. pos 0 }

abbrev entries : ℕ → DirectoryEntry
entries i = record { in_use = true; sector = pos 7; name = 120 ∷ [] }

abbrev file : Chars
file = 97 ∷ 98 ∷ []

format-Consistent_example :
    Returns
      (λ fs. Consistent (initially_reserved fs.headers) fs)
      (format (λ i. i + 9) entries blank (λ s. blank))
format-Consistent_example = format-Consistent (λ i. i + 9) entries blank (λ s. blank)

-- The first seven sectors are in use.
abbrev seven : BitMap
seven = record { num_bits = 1024; num_words = 32; map = 127 ∷ replicate 31 0 }

-- The header of the file that `disk` has: its data are in sector 6.
abbrev header : FileHeader
header = record { num_bytes = 100; num_sectors = 1; data_sectors = λ i. pos 6 }

-- One file, whose header is in sector 5, and one free entry.
abbrev disk : FileSystem
disk = record {
  free_map_file = seven;
  directory_file =
      record { in_use = true; sector = pos 5; name = file }
      ∷ record { in_use = false; sector = pos 5; name = [] }
      ∷ [];
  headers = λ s. header;
}

abbrev first_five : ℕ → ℕ
first_five k = if leb 5 k then 0 else 1

counts :
    all_checked 1024
      (λ k. used seven k == first_five k + claims (λ s. header) disk.directory_file k)
    ≡ true
unfolding all_checked used claims taken bit
counts = refl

disk-Consistent : Consistent first_five disk
unfolding Distinct EachFile matches lookup
disk-Consistent = record {
  has_room = omega arith;
  disk_size = refl;
  distinct = ((λ u. refl), ((λ u. refl), tt));
  sound = (
    (λ u. ((5, refl, omega arith), (omega arith, λ j p q. (6, refl, omega arith)))),
    ((λ u. absurd (ground arith)), tt),
  );
  accounted = λ k l. (==_iff _ _).0 (
      all_checked_sound 1024
        (λ k. used seven k == first_five k + claims (λ s. header) disk.directory_file k) k counts
        l);
}

abbrev other_file : Chars
other_file = 99 ∷ []

create-Consistent_example :
    Returns (λ x. Consistent first_five x.1) (create other_file 300 blank disk)
create-Consistent_example =
    create-Consistent first_five other_file 300 blank disk (omega arith) disk-Consistent

open_named-create_example :
    Returns (CreatesOrNot other_file 300 disk) (create other_file 300 blank disk)
open_named-create_example =
    open_named-create first_five other_file 300 blank disk (omega arith) disk-Consistent

remove-Consistent_example : Returns (λ x. Consistent first_five x.1) (remove file disk)
remove-Consistent_example = remove-Consistent first_five file disk disk-Consistent
