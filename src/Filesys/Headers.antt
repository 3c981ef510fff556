-- ===== src/Filesys/Headers.antt =====
-- filesys/filehdr.cc: the sectors of a file.
use project.Prelude.{
  ℕ, zero, suc, ◌+◌, ◌*◌, ◌/◌, Bool, true, false, ℤ, pos, negsuc, ltb, ◌==◌, if◌then◌else◌, Result,
  ok, fault, overrun, assertion, check, ◌>>=◌, ◌>>◌,
}
use project.Userprog.BitMap.{BitMap, div_round_up, clear, test, find, num_clear}
pub mod Sectors
mod Tests

-- `data_sectors` has `num_direct` entries.
pub record FileHeader : Type 0 where
  pub num_bytes : ℕ
  pub num_sectors : ℕ
  pub data_sectors : ℕ → ℤ

abbrev pub sector_size : ℕ
sector_size = 128

-- `(SectorSize - 2 * sizeof(int)) / sizeof(int)`
abbrev pub num_direct : ℕ
num_direct = 30

-- `dataSectors[i] = sector`
unfoldable pub put_sector : ℕ → ℤ → FileHeader → Result FileHeader
put_sector i sector h = do
  check (ltb i num_direct) overrun
  ok (record h { data_sectors = λ j. if i == j then sector else h.data_sectors j })

-- `dataSectors[i]`
unfoldable pub sector_at : ℕ → FileHeader → Result ℤ
sector_at i h = do check (ltb i num_direct) overrun; ok (h.data_sectors i)

-- The loop of `Allocate`, with `n` rounds to go.
unfoldable pub allocate_from : ℕ → ℕ → FileHeader → BitMap → Result (FileHeader × BitMap)
unfolding put_sector
allocate_from zero i h free_map = ok (h, free_map)
allocate_from (suc n) i h free_map = do
  (sector, free_map') ← find free_map
  h' ← put_sector i sector h
  allocate_from n (i + 1) h' free_map'

-- Whether there was room, the header and the map.
unfoldable pub allocate : ℕ → FileHeader → BitMap → Result (Bool × FileHeader × BitMap)
unfolding allocate_from
allocate file_size h free_map = do
  let h' = record h { num_bytes = file_size; num_sectors = div_round_up file_size sector_size }
  free ← num_clear free_map
  if ltb free h'.num_sectors then ok (false, h', free_map) else (do
    (h'', free_map') ← allocate_from h'.num_sectors 0 h' free_map
    ok (true, h'', free_map'))

-- The loop of `Deallocate`, with `n` rounds to go.
unfoldable pub deallocate_from : ℕ → ℕ → FileHeader → BitMap → Result BitMap
unfolding sector_at
deallocate_from zero i h free_map = ok free_map
deallocate_from (suc n) i h free_map = do
  sector ← sector_at i h
  marked ← test sector free_map
  check marked assertion
  free_map' ← clear sector free_map
  deallocate_from n (i + 1) h free_map'

unfoldable pub deallocate : FileHeader → BitMap → Result BitMap
unfolding deallocate_from
deallocate h free_map = deallocate_from h.num_sectors 0 h free_map

unfoldable pub byte_to_sector : ℕ → FileHeader → Result ℤ
unfolding sector_at
byte_to_sector offset h = sector_at (offset / sector_size) h
