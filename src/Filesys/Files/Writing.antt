-- ===== src/Filesys/Files/Writing.antt =====
-- filesys/openfile.cc: `WriteAt` and the bytes of the file.
use project.Prelude.{
  ℕ, zero, suc, ◌+◌, ◌-◌, ◌*◌, ◌/◌, ◌%◌, ◌≤◌, ◌<◌, min, ◌≡◌, ◌≢◌, refl, sym, ap, ◌∙◌, true, false,
  not, ◌&&◌, ◌||◌, ℤ, eq_ℤ, eq_ℤ_refl, eq_ℤ→eq, ltb, leb, ◌==◌, ==_iff, if◌then◌else◌, ok, ◌>>=◌,
  inl, inr, arith, Bool-cases, Returns, Returns-bind, Returns-implies,
}
use project.Filesys.Headers.{FileHeader, sector_size}
use project.Filesys.Files.{
  Bytes, Disk, copy_bytes, write_sector, write_from, clipped, read_at, read_first, read_last,
  write_at,
}
use project.Filesys.Files.Reading.{
  file_byte, Laid, Holding-inside, Laid-size, sector_of, read_at-Holding,
}

-- No two sectors of the file are the same.
abbrev pub Apart : FileHeader → Type 0
Apart h =
    (i j : ℕ)
    → i * sector_size < h.num_bytes
    → j * sector_size < h.num_bytes
    → h.data_sectors i ≡ h.data_sectors j
    → i ≡ j

-- The `n` sectors of the file from `i` on hold what their places of the buffer hold, and no other sector of the disk has changed.
abbrev pub Written : ℕ → ℕ → ℕ → FileHeader → Bytes → Disk → Disk → Type 0
Written n i first_sector h buf disk disk' =
    ((m o : ℕ)
      → i ≤ m
      → m < i + n
      → disk' (h.data_sectors m) o ≡ buf ((m - first_sector) * sector_size + o))
    × ((s : ℤ) → ((m : ℕ) → i ≤ m → m < i + n → h.data_sectors m ≢ s) → disk' s ≡ disk s)

-- Sector `s` holds `bytes` now.
abbrev put_bytes : ℤ → Bytes → Disk → Disk
put_bytes sector bytes disk s = if eq_ℤ s sector then bytes else disk s

Written-earlier :
    (n i first_sector : ℕ) (h : FileHeader) (buf : Bytes) (disk : Disk)
    → Apart h
    → ((m : ℕ) → m < i + suc n → m * sector_size < h.num_bytes)
    → (disk' : Disk)
    → Written n
        (i + 1)
        first_sector
        h
        buf
        (put_bytes (h.data_sectors i) (λ j. buf ((i - first_sector) * sector_size + j)) disk)
        disk'
    → Written (suc n) i first_sector h buf disk disk'
Written-earlier n i first_sector h buf disk apart q disk' (w, kept) = (
  (λ m o a b. elim (Bool-cases (i == m)) [
    | inl e ↦
        let same : i ≡ m = (==_iff i m).0 e in
        ap (λ k. disk' (h.data_sectors k) o) (sym same)
        ∙ ap (λ (f : Bytes). f o) here
        ∙ ap (λ k. buf ((k - first_sector) * sector_size + o)) same
    | inr e ↦ w m o (ground arith) (omega arith)
  ]),
  (λ s other.
      kept s (λ m a b. other m (omega arith) (omega arith))
      ∙ (elim (Bool-cases (eq_ℤ s (h.data_sectors i))) [
        | inl e ↦
            absurd (other i (omega arith) (omega arith) (sym (eq_ℤ→eq s (h.data_sectors i) e)))
        | inr e ↦ rw e refl
      ])),
)
  where
    here : disk' (h.data_sectors i) ≡ (λ j. buf ((i - first_sector) * sector_size + j))
    here =
        kept (h.data_sectors i)
          (λ m a b e. absurd (omega (arith, apart m i (q m (omega arith)) (q i (omega arith)) e)))
        ∙ rw (eq_ℤ_refl (h.data_sectors i)) refl

write_from-Written :
    (n i first_sector : ℕ) (h : FileHeader) (buf : Bytes) (disk : Disk)
    → Laid h
    → Apart h
    → ((m : ℕ) → m < i + n → m * sector_size < h.num_bytes)
    → Returns (Written n i first_sector h buf disk) (write_from n i first_sector h buf disk)
unfolding write_from write_sector
write_from-Written zero i first_sector h buf disk l a q =
    ((λ m o b c. absurd (omega arith)), λ s f. refl)
write_from-Written (suc n) i first_sector h buf disk l a q =
    let (p, b) = l i (q i (omega arith)) in
    rw (sector_of i h p, b)
      (Returns-implies (write_from n (i + 1) first_sector h buf _)
        (λ d w. Written-earlier n i first_sector h buf disk a q d w)
        (write_from-Written n (i + 1) first_sector h buf _ l a (λ m r. q m (omega arith))))

-- The bytes of the first and the last sector that are not to be written are in their places of the buffer.
abbrev Partial : FileHeader → Disk → ℕ → ℕ → Bytes → Type 0
Partial h disk position n buf =
    (p : ℕ)
    → position / sector_size * sector_size ≤ p
    → p < ((position + n - 1) / sector_size + 1) * sector_size
    → p < h.num_bytes
    → not (leb position p && ltb p (position + n)) ≡ true
    → buf (p - position / sector_size * sector_size) ≡ file_byte h disk p

-- A sector of the file is in its place of the buffer.
abbrev HasSector : FileHeader → Disk → ℕ → ℕ → Bytes → Type 0
HasSector h disk i start buf =
    (p : ℕ)
    → i * sector_size ≤ p
    → p < (i + 1) * sector_size
    → p < h.num_bytes
    → buf (p - i * sector_size + start) ≡ file_byte h disk p

read_at-HasSector :
    (h : FileHeader) (disk : Disk) (garbage into : Bytes) (start i : ℕ)
    → Laid h
    → i * sector_size ≤ h.num_bytes
    → Returns
        (λ x. HasSector h disk i start x.1 × ((j : ℕ) → j < start → x.1 j ≡ into j))
        (read_at h disk garbage into start sector_size (i * sector_size))
read_at-HasSector h disk garbage into start i l inside =
    Returns-implies {A = ℕ × Bytes}
      (read_at h disk garbage into start sector_size (i * sector_size))
      (λ x (c, e). (
        (λ p a b d.
            Holding-inside h disk (i * sector_size) x.0 start into x.1 e
              (p - i * sector_size + start) p (omega arith) (omega (arith, c)) (omega arith)),
        (λ j a.
            let out : (leb start j && ltb j (start + x.0)) ≡ false = ground arith in
            e j ∙ rw out refl),
      ))
      (read_at-Holding h disk garbage into start sector_size (i * sector_size) l
        (omega (arith, Laid-size h l)))

module _ (h : FileHeader) (disk : Disk) (garbage : Bytes) (position : ℕ) (l : Laid h) where
  -- The first sector is there if it is to be partly modified.
  HasFirst : Bytes → Type 0
  HasFirst buf =
      (position == position / sector_size * sector_size) ≡ false
      → HasSector h disk (position / sector_size) 0 buf

  read_first-HasFirst :
      position ≤ h.num_bytes → Returns HasFirst (read_first h disk garbage position)
  unfolding read_first HasFirst
  read_first-HasFirst within =
      elim (Bool-cases (position == position / sector_size * sector_size)) [
        | inl aligned ↦ rw aligned (λ e. absurd (ground arith))
        | inr unaligned ↦ rw unaligned (
            Returns-bind {A = ℕ × Bytes} _ _
              (read_at h disk garbage garbage 0 sector_size (position / sector_size * sector_size))
              _
              (read_at-HasSector h disk garbage garbage 0 (position / sector_size) l (omega arith))
              λ x (s, kept) e. s)
      ]

  module _ (n : ℕ) (buf : Bytes) (positive : 0 < n) (inside : position + n ≤ h.num_bytes)
      (f : HasFirst buf) where
    -- A byte of the first sector.
    from_first :
        (p : ℕ)
        → position / sector_size * sector_size ≤ p
        → p < (position / sector_size + 1) * sector_size
        → p < h.num_bytes
        → (position == position / sector_size * sector_size) ≡ false
        → buf (p - position / sector_size * sector_size) ≡ file_byte h disk p
    unfolding HasFirst
    from_first p a b c u = ap buf (omega arith) ∙ f u p a b c

    read_last-Partial :
        Returns (Partial h disk position n) (read_last h disk garbage buf position n)
    unfolding read_last HasFirst
    read_last-Partial =
        elim (Bool-cases (
          not ((position + n) == ((position + n - 1) / sector_size + 1) * sector_size)
          && (not (position / sector_size == (position + n - 1) / sector_size)
              || (position == position / sector_size * sector_size)))) [
                | inl needed ↦ rw needed (
                    Returns-bind {A = ℕ × Bytes} _ _
                      (read_at h disk garbage buf
                        (((position + n - 1) / sector_size - position / sector_size) * sector_size)
                        sector_size ((position + n - 1) / sector_size * sector_size))
                      _
                      (read_at-HasSector h disk garbage buf
                        (((position + n - 1) / sector_size - position / sector_size) * sector_size)
                        ((position + n - 1) / sector_size) l (omega (arith, positive, inside)))
                      λ x (s, kept) p a b c d. elim (Bool-cases (leb (position + n) p)) [
                        | inl after ↦
                            ap x.1 (ground (arith, positive)) ∙ s p (ground (arith, positive)) b c
                        | inr before ↦
                            kept (p - position / sector_size * sector_size)
                              (ground (arith, positive))
                            ∙ from_first p a (ground (arith, positive)) c (ground (arith, positive))
                      ])
                | inr not_needed ↦ rw not_needed λ p a b c d.
                    from_first p a (ground (arith, positive)) c (ground (arith, positive))
              ]

-- The bytes of the file after `WriteAt`: the new ones in their place, and the others as they were.
abbrev pub Rewritten : FileHeader → Bytes → ℕ → ℕ → Disk → Disk → Type 0
Rewritten h bytes position n disk disk' =
    (p : ℕ)
    → p < h.num_bytes
    → file_byte h disk' p ≡ (
        if leb position p && ltb p (position + n) then bytes (p - position) else file_byte h disk p)

module _ (h : FileHeader) (disk : Disk) (garbage bytes : Bytes) (l : Laid h) (apart : Apart h) where
  module _ (position n : ℕ) (positive : 0 < n) (buf : Bytes)
      (part : Partial h disk position n buf) where
    -- What the buffer holds in the end in the place of byte `p`.
    merged :
        (p : ℕ)
        → p < h.num_bytes
        → (leb (position / sector_size) (p / sector_size)
            && leb (p / sector_size) ((position + n - 1) / sector_size))
          ≡ true
        → copy_bytes 0 n bytes
            (position - position / sector_size * sector_size)
            buf
            ((p / sector_size - position / sector_size) * sector_size + p % sector_size)
          ≡ (if leb position p && ltb p (position + n)
              then bytes (p - position)
              else file_byte h disk p)
    merged p c there =
        let start : ℕ = position - position / sector_size * sector_size in
        let at : ℕ = p - position / sector_size * sector_size in
        let e : (p / sector_size - position / sector_size) * sector_size + p % sector_size ≡ at =
          ground arith in
        ap (copy_bytes 0 n bytes start buf) e
        ∙ (elim (Bool-cases (leb position p && ltb p (position + n))) [
          | inl new ↦
              let inside : (leb start at && ltb at (start + n)) ≡ true = ground arith in
              let f : 0 + (at - start) ≡ p - position = ground arith in rw (new, inside, f) refl
          | inr old ↦
              let outside : (leb start at && ltb at (start + n)) ≡ false = ground arith in
              rw (old, outside) (part p (ground arith) (ground arith) c (ground arith))
        ])

  Rewritten-Written :
      (position n : ℕ)
      → 0 < n
      → position + n ≤ h.num_bytes
      → (buf : Bytes) → Partial h disk position n buf
      → (disk' : Disk)
      → Written
          (1 + (position + n - 1) / sector_size - position / sector_size)
          (position / sector_size)
          (position / sector_size)
          h
          (copy_bytes 0 n bytes (position - position / sector_size * sector_size) buf)
          disk
          disk'
      → Rewritten h bytes position n disk disk'
  Rewritten-Written position n positive inside buf part disk' (w, kept) p c =
      elim (Bool-cases (
        leb (position / sector_size) (p / sector_size)
        && leb (p / sector_size) ((position + n - 1) / sector_size))) [
          | inl there ↦
              w (p / sector_size) (p % sector_size) (ground arith) (ground arith)
              ∙ merged position n positive buf part p c there
          | inr elsewhere ↦
              let out : (leb position p && ltb p (position + n)) ≡ false =
                ground (arith, positive) in
              rw out (
                ap (λ (f : Bytes). f (p % sector_size))
                  (kept (h.data_sectors (p / sector_size)) (λ m a b e. absurd (
                    ground (
                      arith,
                      apart m (p / sector_size) (omega (arith, positive, inside)) (omega arith) e,
                    )))))
        ]

  -- If the sectors of the file are in its header and on the disk, no two are the same, and the position and the count add up to an `int`, `WriteAt` returns: the
  -- count is what is asked for, or what is left of the file from the position on if that is less, that many bytes
  -- of the file from the position on are the new ones, and all its others are as they were.
  pub write_at-Rewritten :
      (num_bytes position : ℕ)
      → position + num_bytes < 2147483648
      → Returns
          (λ x.
            (x.0 ≡ min num_bytes (h.num_bytes - position))
            × Rewritten h bytes position x.0 disk x.1)
          (write_at h disk garbage bytes num_bytes position)
  unfolding write_at clipped
  write_at-Rewritten num_bytes position small =
      elim (Bool-cases (num_bytes == 0 || leb h.num_bytes position)) [
        | inl none ↦ rw none (ground arith, λ p c. ground arith)
        | inr some ↦
            let n : ℕ =
              if ltb h.num_bytes (position + num_bytes)
              then h.num_bytes - position
              else num_bytes in
            let fits : ltb (position + num_bytes) 2147483648 ≡ true = ground arith in
            let positive : 0 < n = ground arith in
            let inside : position + n ≤ h.num_bytes = ground arith in
            let count = 1 + (position + n - 1) / sector_size - position / sector_size in
            rw (some, fits)
              (Returns-bind {A = Bytes} _ _ (read_first h disk garbage position) _
                (read_first-HasFirst h disk garbage position l (omega arith))
                λ b f.
                  Returns-bind {A = Bytes} _ _ (read_last h disk garbage b position n) _
                    (read_last-Partial h disk garbage position l n b positive inside f)
                    λ buf part.
                      Returns-bind {A = Disk}
                        (λ x.
                          (x.0 ≡ min num_bytes (h.num_bytes - position))
                          × Rewritten h bytes position x.0 disk x.1)
                        _ _ (λ x. ok (n, x))
                        (write_from-Written count (position / sector_size) (position / sector_size)
                          h
                          (copy_bytes 0 n bytes (position - position / sector_size * sector_size)
                            buf)
                          disk l apart (λ m r. omega (arith, positive, inside)))
                        λ disk' w. (
                          ground arith,
                          Rewritten-Written position n positive inside buf part disk' w,
                        ))
      ]

  -- A round trip: under the same conditions, what `ReadAt` reads after `WriteAt` of as many bytes at the same position is what was
  -- written, and both return the same count.
  pub read_at-write_at :
      (into : Bytes) (num_bytes position : ℕ)
      → position + num_bytes < 2147483648
      → Returns
          (λ (n, into', m). (m ≡ n) × ((j : ℕ) → j < n → into' j ≡ bytes j))
          (write_at h disk garbage bytes num_bytes position >>= λ (n, disk').
            read_at h disk' garbage into 0 num_bytes position >>= λ (m, into'). ok (n, into', m))
  read_at-write_at into num_bytes position small =
      Returns-bind {A = ℕ × Disk} _ _ (write_at h disk garbage bytes num_bytes position) _
        (write_at-Rewritten num_bytes position small)
        λ (n, disk') (c, e).
          Returns-bind {A = ℕ × Bytes} _ _ (read_at h disk' garbage into 0 num_bytes position) _
            (read_at-Holding h disk' garbage into 0 num_bytes position l small)
            λ (m, into') (c', r). (
              c' ∙ sym c,
              λ j a.
                  let new : (leb position (position + j) && ltb (position + j) (position + n))
                      ≡ true =
                    ground arith in
                  let same : position + j - position ≡ j = omega arith in
                  Holding-inside h disk' position m 0 into into' r j (position + j) (omega arith)
                    (omega (arith, c, c')) (omega arith)
                  ∙ e (position + j) (omega (arith, c))
                  ∙ rw (new, same) refl,
            )
