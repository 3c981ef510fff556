-- ===== src/Filesys/Files/Reading.antt =====
-- filesys/openfile.cc: `ReadAt` and the bytes of the file.
use project.Prelude.{
  ℕ, zero, suc, ◌+◌, ◌-◌, ◌*◌, ◌/◌, ◌%◌, ◌≤◌, ◌<◌, min, ◌≡◌, refl, ◌∙◌, true, ◌&&◌, ◌||◌, ltb, leb,
  ◌==◌, if◌then◌else◌, ok, inl, inr, arith, Bool-cases, Returns, Returns-bind, Returns-implies,
}
use project.Filesys.Headers.{FileHeader, num_direct, sector_size, sector_at, byte_to_sector}
use project.Filesys.System.{on_disk}
use project.Filesys.Files.{Bytes, Disk, copy_bytes, read_sector, read_from, clipped, read_at}

-- Byte `p` of the file.
abbrev pub file_byte : FileHeader → Disk → ℕ → ℕ
file_byte h disk p = disk (h.data_sectors (p / sector_size)) (p % sector_size)

-- The sectors of the file are in the header and on the disk.
abbrev pub Laid : FileHeader → Type 0
Laid h =
    (i : ℕ) → i * sector_size < h.num_bytes → (i < num_direct) × (on_disk (h.data_sectors i) ≡ true)

-- A file whose sectors are in the header has at most 30.
pub Laid-size : (h : FileHeader) → Laid h → h.num_bytes ≤ num_direct * sector_size
Laid-size h l = elim (Bool-cases (ltb (num_direct * sector_size) h.num_bytes)) [
  | inl over ↦ absurd (omega (arith, (l num_direct (ground arith)).0))
  | inr within ↦ ground arith
]

-- `n` bytes of the file from `p` on are in the buffer from `start` on, and the rest of it is as it was.
abbrev pub Holding : FileHeader → Disk → ℕ → ℕ → ℕ → Bytes → Bytes → Type 0
Holding h disk p n start into buf =
    (j : ℕ)
    → buf j
      ≡ (if leb start j && ltb j (start + n) then file_byte h disk (p + (j - start)) else into j)

pub sector_of :
    (i : ℕ) (h : FileHeader)
    → i < num_direct
    → byte_to_sector (i * sector_size) h ≡ ok (h.data_sectors i)
unfolding byte_to_sector sector_at
sector_of i h l =
    let e : i * 128 / 128 ≡ i = omega arith in
    let inside : ltb i 30 ≡ true = ground arith in rw (e, inside) refl

-- A sector is read into its place of the buffer.
read_from-Holding :
    (n i first_sector : ℕ) (h : FileHeader) (disk : Disk) (buf : Bytes)
    → Laid h
    → first_sector ≤ i
    → ((m : ℕ) → m < i + n → m * sector_size < h.num_bytes)
    → Returns
        (Holding h disk (i * sector_size) (n * sector_size) ((i - first_sector) * sector_size) buf)
        (read_from n i first_sector h disk buf)
unfolding read_from read_sector
read_from-Holding zero i first_sector h disk buf l p q = λ j. ground arith
read_from-Holding (suc n) i first_sector h disk buf l p q =
    let (a, b) = l i (q i (omega arith)) in
    rw (sector_of i h a, b)
      (Returns-implies
        (read_from n (i + 1) first_sector h disk (
          copy_bytes 0 sector_size (disk (h.data_sectors i)) ((i - first_sector) * sector_size)
            buf))
        (λ c e j. e j ∙ joined j)
        (read_from-Holding n (i + 1) first_sector h disk _ l (omega arith)
          (λ m r. q m (omega arith))))
  where
    joined :
        (j : ℕ)
        → (if leb ((i + 1 - first_sector) * sector_size) j
              && ltb j ((i + 1 - first_sector) * sector_size + n * sector_size)
            then file_byte h disk
                ((i + 1) * sector_size + (j - (i + 1 - first_sector) * sector_size))
            else copy_bytes 0 sector_size
                (disk (h.data_sectors i))
                ((i - first_sector) * sector_size)
                buf
                j)
          ≡ (if leb ((i - first_sector) * sector_size) j
                && ltb j ((i - first_sector) * sector_size + suc n * sector_size)
              then file_byte h disk (i * sector_size + (j - (i - first_sector) * sector_size))
              else buf j)
    joined j = elim (Bool-cases (leb ((i + 1 - first_sector) * sector_size) j)) [
      | inl later ↦
          let e : (i + 1) * sector_size + (j - (i + 1 - first_sector) * sector_size)
              ≡ i * sector_size + (j - (i - first_sector) * sector_size) =
            ground arith in
          rw e (ground arith)
      | inr here ↦ elim (Bool-cases (leb ((i - first_sector) * sector_size) j)) [
        | inl inside ↦
            let d : (i * sector_size + (j - (i - first_sector) * sector_size)) / sector_size ≡ i =
              ground arith in
            let r : (i * sector_size + (j - (i - first_sector) * sector_size)) % sector_size
                ≡ 0 + (j - (i - first_sector) * sector_size) =
              ground arith in
            rw (d, r) (ground arith)
        | inr before ↦ ground arith
      ]
    ]

-- A byte that has been read.
pub Holding-inside :
    (h : FileHeader) (disk : Disk) (p n start : ℕ) (into buf : Bytes)
    → Holding h disk p n start into buf
    → (j q : ℕ) → start ≤ j
    → j < start + n
    → p + (j - start) ≡ q
    → buf j ≡ file_byte h disk q
Holding-inside h disk p n start into buf e j q a b c =
    let inside : (leb start j && ltb j (start + n)) ≡ true = ground arith in
    e j ∙ rw (inside, c) refl

-- If the sectors of the file are in its header and on the disk, and the position and the count add up to an `int`, `ReadAt` returns: the count is what is asked for, or what is left of
-- the file from the position on if that is less, and that many bytes of the file from the position on are
-- in the buffer, of which nothing else has changed.
pub read_at-Holding :
    (h : FileHeader) (disk : Disk) (garbage into : Bytes) (start num_bytes position : ℕ)
    → Laid h
    → position + num_bytes < 2147483648
    → Returns
        (λ x.
          (x.0 ≡ min num_bytes (h.num_bytes - position))
          × Holding h disk position x.0 start into x.1)
        (read_at h disk garbage into start num_bytes position)
unfolding read_at clipped
read_at-Holding h disk garbage into start num_bytes position l small =
    elim (Bool-cases (num_bytes == 0 || leb h.num_bytes position)) [
      | inl none ↦ rw none (ground arith, λ j. ground arith)
      | inr some ↦
          let n : ℕ =
            if ltb h.num_bytes (position + num_bytes) then h.num_bytes - position else num_bytes in
          let fits : ltb (position + num_bytes) 2147483648 ≡ true = ground arith in
          let positive : 0 < n = ground arith in
          let inside : position + n ≤ h.num_bytes = ground arith in
          rw (some, fits)
            (Returns-bind {A = Bytes} _ _
              (read_from (1 + (position + n - 1) / sector_size - position / sector_size)
                (position / sector_size) (position / sector_size) h disk garbage)
              _
              (read_from-Holding (1 + (position + n - 1) / sector_size - position / sector_size)
                (position / sector_size) (position / sector_size) h disk garbage l (omega arith)
                (λ m r. omega (arith, positive, inside)))
              λ buf e. (
                ground arith,
                λ j. elim (Bool-cases (leb start j && ltb j (start + n))) [
                  | inl copied ↦
                      let k : ℕ = position - position / sector_size * sector_size + (j - start) in
                      rw copied (
                        Holding-inside h disk _ _ _ garbage buf e k (position + (j - start))
                          (omega arith) (ground (arith, positive)) (omega arith))
                  | inr other ↦ rw other refl
                ],
              ))
    ]
