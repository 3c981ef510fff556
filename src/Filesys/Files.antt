-- ===== src/Filesys/Files.antt =====
-- filesys/openfile.cc: reading and writing an open file. Sizes and positions are not negative; a
-- buffer and a sector are the bytes that they hold, by index.
use project.Prelude.{
  ℕ, zero, suc, ◌+◌, ◌-◌, ◌*◌, ◌/◌, Bool, true, false, not, ◌&&◌, ◌||◌, ℤ, eq_ℤ, ltb, leb, ◌==◌,
  if◌then◌else◌, Result, ok, fault, assertion, overflow, check, ◌>>=◌, ◌>>◌,
}
use project.Filesys.Headers.{FileHeader, sector_size, byte_to_sector}
use project.Filesys.System.{OpenFile, on_disk}
pub mod Reading
pub mod Writing
pub mod Layout
mod Tests

abbrev pub Bytes : Type 0
Bytes = ℕ → ℕ

abbrev pub Disk : Type 0
Disk = ℤ → Bytes

-- `bcopy(&src[from], &into[start], count)`
abbrev pub copy_bytes : ℕ → ℕ → Bytes → ℕ → Bytes → Bytes
copy_bytes from count src start into j =
    if leb start j && ltb j (start + count) then src (from + (j - start)) else into j

unfoldable pub read_sector : ℤ → Disk → Result Bytes
unfolding on_disk
read_sector sector disk = do check (on_disk sector) assertion; ok (disk sector)

unfoldable pub write_sector : ℤ → Bytes → Disk → Result Disk
unfolding on_disk
write_sector sector bytes disk = do
  check (on_disk sector) assertion
  ok (λ s. if eq_ℤ s sector then bytes else disk s)

-- The loop of `ReadAt`, with `n` rounds to go.
unfoldable pub read_from : ℕ → ℕ → ℕ → FileHeader → Disk → Bytes → Result Bytes
unfolding byte_to_sector read_sector
read_from zero i first_sector h disk buf = ok buf
read_from (suc n) i first_sector h disk buf = do
  sector ← byte_to_sector (i * sector_size) h
  bytes ← read_sector sector disk
  read_from n (i + 1) first_sector h disk
      (copy_bytes 0 sector_size bytes ((i - first_sector) * sector_size) buf)

-- `if ((position + numBytes) > fileLength) numBytes = fileLength - position`. The sum is an `int`; where it
-- overflows, which a caller of `Read` or `Write` can bring about, there is no saying what happens.
unfoldable pub clipped : ℕ → ℕ → ℕ → Result ℕ
clipped length num_bytes position = do
  check (ltb (position + num_bytes) 2147483648) overflow
  ok (if ltb length (position + num_bytes) then length - position else num_bytes)

-- `ReadAt(&into[start], numBytes, position)`: the count, and what the buffer holds then. `new char[]` holds `garbage`.
unfoldable pub read_at : FileHeader → Disk → Bytes → Bytes → ℕ → ℕ → ℕ → Result (ℕ × Bytes)
unfolding read_from clipped
read_at h disk garbage into start num_bytes position =
    if num_bytes == 0 || leb h.num_bytes position then ok (0, into) else (do
      n ← clipped h.num_bytes num_bytes position
      let first_sector = position / sector_size
      let last_sector = (position + n - 1) / sector_size
      buf ← read_from (1 + last_sector - first_sector) first_sector first_sector h disk garbage
      ok (n, copy_bytes (position - first_sector * sector_size) n buf start into))

-- The loop of `WriteAt`, with `n` rounds to go.
unfoldable pub write_from : ℕ → ℕ → ℕ → FileHeader → Bytes → Disk → Result Disk
unfolding byte_to_sector write_sector
write_from zero i first_sector h buf disk = ok disk
write_from (suc n) i first_sector h buf disk = do
  sector ← byte_to_sector (i * sector_size) h
  disk' ← write_sector sector (λ j. buf ((i - first_sector) * sector_size + j)) disk
  write_from n (i + 1) first_sector h buf disk'

-- The first sector is read if it is to be partly modified.
unfoldable pub read_first : FileHeader → Disk → Bytes → ℕ → Result Bytes
unfolding read_at
read_first h disk garbage position = do
  let first_sector = position / sector_size
  let first_aligned = position == first_sector * sector_size
  if not first_aligned
      then (do
        (_, buf) ← read_at h disk garbage garbage 0 sector_size (first_sector * sector_size)
        ok buf)
      else ok garbage

-- The last sector is read if it is to be partly modified and has not been read.
unfoldable pub read_last : FileHeader → Disk → Bytes → Bytes → ℕ → ℕ → Result Bytes
unfolding read_at
read_last h disk garbage buf position n = do
  let first_sector = position / sector_size
  let last_sector = (position + n - 1) / sector_size
  let first_aligned = position == first_sector * sector_size
  let last_aligned = (position + n) == (last_sector + 1) * sector_size
  if not last_aligned && (not (first_sector == last_sector) || first_aligned)
      then (do
        (_, buf') ←
            read_at h disk garbage buf ((last_sector - first_sector) * sector_size) sector_size
              (last_sector * sector_size)
        ok buf')
      else ok buf

-- `WriteAt`: the count, and the disk.
unfoldable pub write_at : FileHeader → Disk → Bytes → Bytes → ℕ → ℕ → Result (ℕ × Disk)
unfolding read_first read_last write_from clipped
write_at h disk garbage bytes num_bytes position =
    if num_bytes == 0 || leb h.num_bytes position then ok (0, disk) else (do
      n ← clipped h.num_bytes num_bytes position
      let first_sector = position / sector_size
      let last_sector = (position + n - 1) / sector_size
      buf ← read_first h disk garbage position
      buf ← read_last h disk garbage buf position n
      disk' ←
          write_from (1 + last_sector - first_sector) first_sector first_sector h
            (copy_bytes 0 n bytes (position - first_sector * sector_size) buf) disk
      ok (n, disk'))

unfoldable pub seek : ℕ → OpenFile → OpenFile
seek position f = record f { seek_position = position }

-- `Read(into, numBytes)`
unfoldable pub read : OpenFile → Disk → Bytes → Bytes → ℕ → Result (ℕ × Bytes × OpenFile)
unfolding read_at
read f disk garbage into num_bytes = do
  (result, into') ← read_at f.hdr disk garbage into 0 num_bytes f.seek_position
  ok (result, into', record f { seek_position = f.seek_position + result })

unfoldable pub write : OpenFile → Disk → Bytes → Bytes → ℕ → Result (ℕ × Disk × OpenFile)
unfolding write_at
write f disk garbage bytes num_bytes = do
  (result, disk') ← write_at f.hdr disk garbage bytes num_bytes f.seek_position
  ok (result, disk', record f { seek_position = f.seek_position + result })
