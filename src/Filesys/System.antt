-- ===== src/Filesys/System.antt =====
-- filesys/filesys.cc: creating, opening and removing files. The files of the map and of the directory
-- are what they hold, and a sector is the header that it holds.
use project.Prelude.{
  ℕ, Bool, true, false, not, ℤ, pos, negsuc, minus_one, eq_ℤ, ltb, Option, none, some,
  if◌then◌else◌, Result, ok, fault, assertion, check, ◌>>=◌, ◌>>◌,
}
use project.Userprog.BitMap
use project.Userprog.BitMap.{BitMap}
use project.Filesys.Directories
use project.Filesys.Directories.{Chars, Directory, DirectoryEntry, new_directory}
use project.Filesys.Headers.{FileHeader, allocate, deallocate}
pub mod Claims
pub mod Consistency
pub mod Removal
pub mod Creation
pub mod Format
mod Tests

-- `NumSectors`
abbrev pub disk_sectors : ℕ
disk_sectors = 1024

abbrev pub free_map_sector : ℤ
free_map_sector = pos 0

abbrev pub directory_sector : ℤ
directory_sector = pos 1

-- `NumSectors / BitsInByte`
abbrev pub free_map_file_size : ℕ
free_map_file_size = 128

abbrev pub num_dir_entries : ℕ
num_dir_entries = 10

-- `sizeof(DirectoryEntry) * NumDirEntries`
abbrev pub directory_file_size : ℕ
directory_file_size = 200

pub record FileSystem : Type 0 where
  pub free_map_file : BitMap
  pub directory_file : Directory
  pub headers : ℤ → FileHeader

pub record OpenFile : Type 0 where
  pub hdr : FileHeader
  pub seek_position : ℕ

-- The disk's check of a sector number.
unfoldable pub on_disk : ℤ → Bool
on_disk (pos sector) = ltb sector disk_sectors
on_disk (negsuc sector) = false

-- `FileHeader::FetchFrom`
unfoldable pub fetch_header : ℤ → FileSystem → Result FileHeader
unfolding on_disk
fetch_header sector fs = do check (on_disk sector) assertion; ok (fs.headers sector)

-- `FileHeader::WriteBack`
unfoldable pub write_header : ℤ → FileHeader → FileSystem → Result FileSystem
unfolding on_disk
write_header sector h fs = do
  check (on_disk sector) assertion
  ok (record fs { headers = λ s. if eq_ℤ s sector then h else fs.headers s })

-- `OpenFile::OpenFile`
unfoldable pub open_file : ℤ → FileSystem → Result OpenFile
unfolding fetch_header
open_file sector fs = do h ← fetch_header sector fs; ok (record { hdr = h; seek_position = 0 })

-- The last steps of `Create`, from the allocation of the file's sectors on.
unfoldable pub create_at :
    ℤ → ℕ → FileHeader → BitMap → Directory → FileSystem → Result (Bool × FileSystem)
unfolding write_header
create_at sector size blank free_map directory fs = do
  (done, hdr, free_map') ← allocate size blank free_map
  if not done then ok (false, fs) else (do
    fs' ← write_header sector hdr fs
    ok (true, record fs' { directory_file = directory; free_map_file = free_map' }))

-- `blank` is what the memory of `new FileHeader` holds.
unfoldable pub create : Chars → ℕ → FileHeader → FileSystem → Result (Bool × FileSystem)
unfolding create_at
create name initial_size blank fs = do
  found ← Directories.find name fs.directory_file
  if not (eq_ℤ found minus_one) then ok (false, fs) else (do
    (sector, free_map) ← BitMap.find fs.free_map_file
    let added = Directories.add name sector fs.directory_file
    if eq_ℤ sector minus_one
        then ok (false, fs)
        else if not added.0
        then ok (false, fs)
        else create_at sector initial_size blank free_map added.1 fs)

unfoldable pub open_named : Chars → FileSystem → Result (Option OpenFile)
unfolding open_file
open_named name fs = do
  sector ← Directories.find name fs.directory_file
  elim sector [ pos s ↦ (do file ← open_file (pos s) fs; ok (some file)) | negsuc s ↦ ok none ]

unfoldable pub remove : Chars → FileSystem → Result (Bool × FileSystem)
unfolding fetch_header
remove name fs = do
  sector ← Directories.find name fs.directory_file
  if eq_ℤ sector minus_one then ok (false, fs) else (do
    hdr ← fetch_header sector fs
    free_map ← deallocate hdr fs.free_map_file
    free_map' ← BitMap.clear sector free_map
    let directory = (Directories.remove name fs.directory_file).1
    ok (true, record fs { free_map_file = free_map'; directory_file = directory }))

-- The constructor, where it formats the disk; `garbage`, `entries`, `blank` and `headers` are what the memory and the disk
-- hold before.
unfoldable pub format :
    (ℕ → ℕ) → (ℕ → DirectoryEntry) → FileHeader → (ℤ → FileHeader) → Result FileSystem
unfolding write_header
format garbage entries blank headers = do
  b ← BitMap.new_bit_map disk_sectors garbage
  b ← BitMap.mark free_map_sector b
  b ← BitMap.mark directory_sector b
  (done, map_hdr, b) ← allocate free_map_file_size blank b
  check done assertion
  (done, dir_hdr, b) ← allocate directory_file_size blank b
  check done assertion
  let d = new_directory num_dir_entries entries
  fs ←
      write_header free_map_sector map_hdr
        (record { free_map_file = b; directory_file = d; headers = headers })
  write_header directory_sector dir_hdr fs
