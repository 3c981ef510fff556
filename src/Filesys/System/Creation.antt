-- ===== src/Filesys/System/Creation.antt =====
-- filesys/filesys.cc: creating a file.
use project.Prelude.{
  ℕ, ◌+◌, ◌≤◌, ◌<◌, ◌≡◌, refl, sym, ap, subst, ◌∙◌, true, false, pos, eq_ℤ, eq_ℤ_refl, ltb, ltb→lt,
  none, some, if◌then◌else◌, ok, inl, inr, arith, Bool-cases, Option-cases, Returns, Returns-bind,
  Returns-implies, Returns-both,
}
use project.Userprog.BitMap.{BitMap, div_round_up, find, num_clear}
use project.Userprog.BitMap.Laws.{used, IsSetTo}
use project.Userprog.BitMap.Search.{find-Found, num_clear-find}
use project.Filesys.Directories.{Chars, fill_first}
use project.Filesys.Directories.Laws.{
  lookup, lookup-fill_first, find_lem, add_lem, Distinct-fill_first,
}
use project.Filesys.Directories.Names.{same_name_self}
use project.Filesys.Headers.{FileHeader, num_direct, sector_size, allocate}
use project.Filesys.Headers.Sectors.{
  taken, InMap, Allocated, sized, allocate-Allocated, allocate-full,
}
use project.Filesys.System.{
  FileSystem, open_named, disk_sectors, fetch_header, write_header, create_at, create,
}
use project.Filesys.System.Claims.{
  data_claims, claims, put_header, claims-put_header, claims-fill_first, EachFile-lookup,
  EachFile-fill_first, EachFile-implies, EachFile-unclaimed,
}
use project.Filesys.System.Consistency.{
  SoundHeader, Sound, Consistent, Opens, CreatesOrNot, Sound-same_size, on_disk_lem,
}

module _ (reserved : ℕ → ℕ) (name : Chars) (size : ℕ) (blank : FileHeader) (fs : FileSystem)
    (c : Consistent reserved fs) where
  -- The new header, the map and the directory.
  create_result : ℕ → FileHeader → BitMap → FileSystem
  create_result k h b = record {
    free_map_file = b;
    directory_file = (fill_first name (pos k) fs.directory_file).1;
    headers = put_header (pos k) h fs.headers;
  }

  create_result-Consistent :
      (k : ℕ) (b d : BitMap) (h : FileHeader)
      → lookup name fs.directory_file ≡ none
      → (fill_first name (pos k) fs.directory_file).0 ≡ true
      → k < fs.free_map_file.num_bits
      → used fs.free_map_file k ≡ 0
      → IsSetTo 1 k fs.free_map_file b
      → div_round_up size sector_size ≤ num_direct
      → Allocated (div_round_up size sector_size) 0 (sized size blank) b h d
      → Consistent reserved (create_result k h d)
  unfolding create_result
  create_result-Consistent k b d h l added p z g small a =
      let hs = put_header (pos k) h fs.headers in
      let here : hs (pos k) ≡ h = rw (eq_ℤ_refl (pos k)) refl in
      let same_bits : d.num_bits ≡ fs.free_map_file.num_bits = a.same_size ∙ g.0 in
      let in_map : InMap h.num_sectors 0 h d =
        subst (λ n. InMap n 0 h d) (sym a.num_sectors_same) a.in_map in
      let bit : (j : ℕ)
          → used b j ≡ used fs.free_map_file j + (if eq_ℤ (pos k) (pos j) then 1 else 0) =
        λ j. ground (arith, g.2 j, z) in
      let unclaimed : claims fs.headers fs.directory_file k ≡ 0 =
        omega (arith, c.accounted k (omega (arith, c.disk_size))) in
      record {
        has_room = a.has_room;
        disk_size = same_bits ∙ c.disk_size;
        distinct = Distinct-fill_first name (pos k) fs.directory_file l c.distinct;
        sound =
            EachFile-fill_first (Sound hs d) name (pos k) fs.directory_file
              (
                (k, refl, omega (arith, same_bits)),
                subst (λ x. SoundHeader x d) (sym here)
                    (omega (arith, a.num_sectors_same, small), in_map),
              )
              (EachFile-implies
                (λ s. (eq_ℤ s (pos k) ≡ false) × Sound fs.headers fs.free_map_file s) (Sound hs d)
                fs.directory_file
                (λ s (ne, so).
                  let there : hs s ≡ fs.headers s = rw ne refl in
                  let (q, r) = Sound-same_size fs.headers fs.free_map_file d same_bits s so in
                  (q, subst (λ x. SoundHeader x d) (sym there) r))
                (EachFile-unclaimed fs.headers (Sound fs.headers fs.free_map_file) fs.directory_file
                  k unclaimed c.sound));
        accounted = λ j r. omega (
          arith,
          a.bits j,
          bit j,
          c.accounted j r,
          claims-fill_first hs name (pos k) fs.directory_file j added,
          claims-put_header fs.headers fs.directory_file k j h unclaimed,
          ap (λ x. data_claims x j) here,
          ap (λ n. taken n 0 h j) a.num_sectors_same,
        );
      }

  create_result-Opens :
      (k : ℕ) (d : BitMap) (h : FileHeader)
      → lookup name fs.directory_file ≡ none
      → (fill_first name (pos k) fs.directory_file).0 ≡ true
      → k < disk_sectors
      → h.num_bytes ≡ size
      → Opens name size (create_result k h d)
  unfolding create_result open_named fetch_header
  create_result-Opens k d h l added p e =
      let found : lookup name (fill_first name (pos k) fs.directory_file).1 ≡ some (pos k) =
        lookup-fill_first name name (pos k) fs.directory_file l added
        ∙ rw (same_name_self 9 name) refl in
      (
        record { hdr = put_header (pos k) h fs.headers (pos k); seek_position = 0 },
        rw (find_lem name (fill_first name (pos k) fs.directory_file).1, found, on_disk_lem k p)
            refl,
        ap (λ (x : FileHeader). x.num_bytes) here ∙ e,
        refl,
      )
    where
      here : put_header (pos k) h fs.headers (pos k) ≡ h
      here = rw (eq_ℤ_refl (pos k)) refl

  create_at-Consistent :
      (k : ℕ) (b : BitMap)
      → lookup name fs.directory_file ≡ none
      → (fill_first name (pos k) fs.directory_file).0 ≡ true
      → k < fs.free_map_file.num_bits
      → used fs.free_map_file k ≡ 0
      → IsSetTo 1 k fs.free_map_file b
      → div_round_up size sector_size ≤ num_direct
      → (m : ℕ) → num_clear b ≡ ok m
      → Returns
          (λ x. Consistent reserved x.1 × CreatesOrNot name size fs x)
          (create_at (pos k) size blank b (fill_first name (pos k) fs.directory_file).1 fs)
  unfolding create_at write_header create_result
  create_at-Consistent k b l added p z g small m e =
      elim (Bool-cases (ltb m (div_round_up size sector_size))) [
        | inl short ↦ rw (allocate-full size blank b m e (ltb→lt _ _ short)) (c, inr (refl, refl))
        | inr enough ↦
            Returns-bind _
              (λ x.
                (x.0 ≡ true)
                × Allocated (div_round_up size sector_size) 0 (sized size blank) b x.1 x.2)
              (allocate size blank b) _
              (allocate-Allocated size blank b g.1 (m, e, ground (arith, enough)) small)
              λ (done, h, d) (t, a).
                rw (t, on_disk_lem k (omega (arith, c.disk_size)))
                  (
                    create_result-Consistent k b d h l added p z g small a,
                    inl (
                      refl,
                      create_result-Opens k d h l added (omega (arith, c.disk_size))
                          a.num_bytes_same,
                    ),
                  )
      ]

module _ (reserved : ℕ → ℕ) where
  create_lem :
      (name : Chars) (size : ℕ) (blank : FileHeader) (fs : FileSystem)
      → div_round_up size sector_size ≤ num_direct
      → Consistent reserved fs
      → Returns
          (λ x. Consistent reserved x.1 × CreatesOrNot name size fs x)
          (create name size blank fs)
  unfolding create
  create_lem name size blank fs small c = elim (Option-cases (lookup name fs.directory_file)) [
    | inl l ↦
        rw (find_lem name fs.directory_file, l)
          (Returns-bind _ _ (find fs.free_map_file) _
            (Returns-both _ _ (find fs.free_map_file) (find-Found fs.free_map_file c.has_room)
              (num_clear-find fs.free_map_file c.has_room))
            λ (sector, b) (f, (m, n, _, _)). elim f [
              | inl (e, _, _) ↦ rw e (c, inr (refl, refl))
              | inr (k, e, _, p, z, _, g) ↦
                  elim (Bool-cases (fill_first name (pos k) fs.directory_file).0) [
                    | inl h ↦
                        rw (e, add_lem name (pos k) fs.directory_file, l, h)
                          (create_at-Consistent reserved name size blank fs c k b l h p z g small m
                            n)
                    | inr h ↦
                        rw (e, add_lem name (pos k) fs.directory_file, l, h) (c, inr (refl, refl))
                  ]
            ])
    | inr (s, l) ↦
        let ((k, e, p), so) =
          EachFile-lookup (Sound fs.headers fs.free_map_file) name fs.directory_file s c.sound l in
        rw (find_lem name fs.directory_file, l, e) (c, inr (refl, refl))
  ]

  -- `Create` of a file of at most `num_direct` sectors, in a file system whose map counts each sector once for each
  -- file that claims it, returns, and that is so again: the new file's sectors are no other file's.
  pub create-Consistent :
      (name : Chars) (size : ℕ) (blank : FileHeader) (fs : FileSystem)
      → div_round_up size sector_size ≤ num_direct
      → Consistent reserved fs
      → Returns (λ x. Consistent reserved x.1) (create name size blank fs)
  create-Consistent name size blank fs small c =
      Returns-implies (create name size blank fs) (λ x h. h.0)
        (create_lem name size blank fs small c)

  -- In such a file system `Create` of a file of at most `num_direct` sectors returns true and `Open` then
  -- finds a file of that size, at its first byte, or it returns false and nothing has changed.
  pub open_named-create :
      (name : Chars) (size : ℕ) (blank : FileHeader) (fs : FileSystem)
      → div_round_up size sector_size ≤ num_direct
      → Consistent reserved fs
      → Returns (CreatesOrNot name size fs) (create name size blank fs)
  open_named-create name size blank fs small c =
      Returns-implies (create name size blank fs) (λ x h. h.1)
        (create_lem name size blank fs small c)
