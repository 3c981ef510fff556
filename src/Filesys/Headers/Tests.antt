-- ===== src/Filesys/Headers/Tests.antt =====
-- Runs of the file headers of filesys/filehdr.cc.
use project.Prelude.{
  ◌≡◌, refl, [], ◌∷◌, true, pos, ok, Returns, ◌>>=◌, ℕ, ◌<◌, arith, fault, overrun,
}
use project.Userprog.BitMap.{BitMap, word_at, test, find, num_clear, mark}
use project.Userprog.BitMap.Laws.{used}
use project.Filesys.Headers.{
  FileHeader, put_sector, sector_at, allocate, deallocate, byte_to_sector,
}
use project.Filesys.Headers.Sectors.{
  Allocated, sized, allocate-Allocated, deallocate-allocate, byte_to_sector-allocate,
}

-- 0, 1 and 33 are taken, of 40.
abbrev disk : BitMap
disk = record { num_bits = 40; num_words = 2; map = 3 ∷ 2 ∷ [] }

abbrev blank : FileHeader
blank = record { num_bytes = 0; num_sectors = 0; data_sectors = λ i. pos 0 }

disk_clear : num_clear disk ≡ ok 37
unfolding num_clear word_at
disk_clear = refl

-- Offset 300 is in the third sector that is clear.
offset_test : (allocate 400 blank disk >>= λ (done, h, c). byte_to_sector 300 h) ≡ ok (pos 4)
unfolding allocate byte_to_sector put_sector sector_at find word_at num_clear mark test
offset_test = refl

-- A file of 31 sectors writes past the end of the array.
overrun_test : (allocate 3969 blank disk) ≡ fault overrun
unfolding allocate put_sector find word_at num_clear mark test
overrun_test = refl

allocate-Allocated_example :
    Returns
      (λ x. (x.0 ≡ true) × Allocated 4 0 (sized 400 blank) disk x.1 x.2)
      (allocate 400 blank disk)
allocate-Allocated_example =
    allocate-Allocated 400 blank disk (omega arith) (37, disk_clear, omega arith) (omega arith)

deallocate-allocate_example :
    Returns
      (λ c. (k : ℕ) → used c k ≡ used disk k)
      (allocate 400 blank disk >>= λ (done, h', c). deallocate h' c)
deallocate-allocate_example =
    deallocate-allocate 400 blank disk (omega arith) (37, disk_clear, omega arith) (omega arith)

byte_to_sector-allocate_example :
    Returns
      (λ s. (k : ℕ) × (s ≡ pos k) × (k < disk.num_bits) × (used disk k ≡ 0))
      (allocate 400 blank disk >>= λ (done, h', c). byte_to_sector 300 h')
byte_to_sector-allocate_example =
    byte_to_sector-allocate 400 300 blank disk (omega arith) (37, disk_clear, omega arith)
      (omega arith) (omega arith)
