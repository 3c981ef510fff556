-- ===== src/Filesys/System/Consistency.antt =====
-- filesys/filesys.cc: when the map of the free sectors, the directory and the headers agree.
use project.Prelude.{ℕ, ◌+◌, ◌≤◌, ◌<◌, ◌≡◌, Bool, true, false, ℤ, pos, lt→ltb, some, ok, ◌⊎◌, arith}
use project.Userprog.BitMap.{BitMap}
use project.Userprog.BitMap.Laws.{used, HasRoom}
use project.Filesys.Directories.{Chars}
use project.Filesys.Directories.Laws.{Distinct}
use project.Filesys.Headers.{FileHeader, num_direct}
use project.Filesys.Headers.Sectors.{InMap}
use project.Filesys.System.{FileSystem, OpenFile, open_named, disk_sectors, on_disk}
use project.Filesys.System.Claims.{claims, EachFile}

-- The sectors of a header's data are in the map, and they are no more than a header has room for.
abbrev pub SoundHeader : FileHeader → BitMap → Type 0
SoundHeader h b = (h.num_sectors ≤ num_direct) × InMap h.num_sectors 0 h b

-- Sector `s` is in the map and has such a header.
abbrev pub Sound : (ℤ → FileHeader) → BitMap → ℤ → Type 0
Sound hs b s = ((k : ℕ) × (s ≡ pos k) × (k < b.num_bits)) × SoundHeader (hs s) b

-- What holds between operations. `reserved` is how often the files of the map and of the directory claim each sector.
pub record Consistent (reserved : ℕ → ℕ) (fs : FileSystem) : Type 0 where
  pub has_room : HasRoom fs.free_map_file
  pub disk_size : fs.free_map_file.num_bits ≡ disk_sectors
  pub distinct : Distinct fs.directory_file
  pub sound : EachFile (Sound fs.headers fs.free_map_file) fs.directory_file
  pub accounted :
      (k : ℕ)
      → k < disk_sectors
      → used fs.free_map_file k ≡ reserved k + claims fs.headers fs.directory_file k

-- `Open` of the name finds a file of that size, at its first byte.
abbrev pub Opens : Chars → ℕ → FileSystem → Type 0
Opens name size fs =
    (f : OpenFile) × (open_named name fs ≡ ok (some f))
    × (f.hdr.num_bytes ≡ size)
    × (f.seek_position ≡ 0)

-- The file is there, or nothing has changed.
abbrev pub CreatesOrNot : Chars → ℕ → FileSystem → Bool × FileSystem → Type 0
CreatesOrNot name size fs x = ((x.0 ≡ true) × Opens name size x.1) ⊎ ((x.0 ≡ false) × (x.1 ≡ fs))

pub Sound-same_size :
    (hs : ℤ → FileHeader) (b c : BitMap)
    → c.num_bits ≡ b.num_bits
    → (s : ℤ) → Sound hs b s
    → Sound hs c s
Sound-same_size hs b c e s ((k, p, q), (r, m)) = (
  (k, p, omega (arith, e)),
  (r, λ j p' q'. let (a, f, g) = m j p' q' in (a, f, omega (arith, e))),
)

pub on_disk_lem : (k : ℕ) → k < disk_sectors → on_disk (pos k) ≡ true
unfolding on_disk
on_disk_lem k l = lt→ltb k 1024 l
