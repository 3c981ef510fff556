-- ===== src/Filesys/System/Removal.antt =====
-- filesys/filesys.cc: removing a file.
use project.Prelude.{
  ℕ, ◌≤◌, ◌<◌, ◌≡◌, refl, ap, ◌∙◌, ℤ, pos, ltb, none, some, ok, inl, inr, arith, Bool-cases,
  Option-cases, Returns, Returns-bind, Returns-implies,
}
use project.Userprog.BitMap.{BitMap, clear}
use project.Userprog.BitMap.Laws.{used, used-le-one, IsSetTo, clear-IsSetTo}
use project.Filesys.Directories.{Chars}
use project.Filesys.Directories.Laws.{
  lookup, lookup-without, without, find_lem, remove_lem, Distinct-without,
}
use project.Filesys.Directories.Names.{same_name_self}
use project.Filesys.Headers.{deallocate}
use project.Filesys.Headers.Sectors.{taken-InMap, Freed, deallocate_from-Freed}
use project.Filesys.System.{FileSystem, open_named, disk_sectors, fetch_header, remove}
use project.Filesys.System.Claims.{
  data_claims, claims-without, EachFile-lookup, EachFile-without, EachFile-implies,
}
use project.Filesys.System.Consistency.{Sound, Consistent, Sound-same_size, on_disk_lem}

not_found :
    (name : Chars) (fs : FileSystem)
    → lookup name fs.directory_file ≡ none
    → open_named name fs ≡ ok none
unfolding open_named
not_found name fs l = rw (find_lem name fs.directory_file, l) refl

module _ (reserved : ℕ → ℕ) (name : Chars) (fs : FileSystem) (c : Consistent reserved fs) where
  -- The map without the sectors of the file, and the directory without its entry.
  remove_result : ℤ → BitMap → FileSystem
  remove_result s b = record fs {
    free_map_file = b;
    directory_file = without name fs.directory_file;
  }

  remove_result-Consistent :
      (k : ℕ) (b d : BitMap)
      → lookup name fs.directory_file ≡ some (pos k)
      → Freed (fs.headers (pos k)).num_sectors 0 (fs.headers (pos k)) fs.free_map_file b
      → IsSetTo 0 k b d
      → Consistent reserved (remove_result (pos k) d)
  unfolding remove_result
  remove_result-Consistent k b d l f g = record {
    has_room = g.1;
    disk_size = g.0 ∙ f.0 ∙ c.disk_size;
    distinct = Distinct-without name fs.directory_file c.distinct;
    sound =
        EachFile-implies (Sound fs.headers fs.free_map_file) (Sound fs.headers d)
          (without name fs.directory_file)
          (Sound-same_size fs.headers fs.free_map_file d (g.0 ∙ f.0))
          (EachFile-without (Sound fs.headers fs.free_map_file) name fs.directory_file c.sound);
    accounted = λ j r. ground (
      arith,
      g.2 j,
      f.2 j,
      c.accounted j r,
      used-le-one fs.free_map_file j,
      claims-without fs.headers name fs.directory_file (pos k) j l,
    );
  }

  remove_found :
      (k : ℕ)
      → lookup name fs.directory_file ≡ some (pos k)
      → Returns (λ x. Consistent reserved x.1 × (open_named name x.1 ≡ ok none)) (remove name fs)
  unfolding remove fetch_header deallocate remove_result
  remove_found k l =
      let ((k', e, p), (q, m)) =
        EachFile-lookup (Sound fs.headers fs.free_map_file) name fs.directory_file (pos k) c.sound
          l in
      let inside : k < fs.free_map_file.num_bits = ground arith in
      let claimed : (j : ℕ) → data_claims (fs.headers (pos k)) j ≤ used fs.free_map_file j = λ j.
        elim (Bool-cases (ltb j disk_sectors)) [
          | inl r ↦
              ground
                (arith, c.accounted j, claims-without fs.headers name fs.directory_file (pos k) j l)
          | inr r ↦ ground (
            arith,
            taken-InMap (fs.headers (pos k)).num_sectors 0 (fs.headers (pos k)) fs.free_map_file m
                j,
            c.disk_size,
          )
        ] in
      rw
        (
          find_lem name fs.directory_file,
          l,
          remove_lem name fs.directory_file,
          l,
          on_disk_lem k (omega (arith, c.disk_size)),
        )
        (Returns-bind _
          (Freed (fs.headers (pos k)).num_sectors 0 (fs.headers (pos k)) fs.free_map_file) _ _
          (deallocate_from-Freed (fs.headers (pos k)).num_sectors 0 (fs.headers (pos k))
            fs.free_map_file c.has_room (omega arith) m claimed)
          λ b f.
            Returns-bind _ (IsSetTo 0 k b) (clear (pos k) b) _
              (clear-IsSetTo k b f.1 (omega (arith, f.0)))
              λ d g. (
                remove_result-Consistent k b d l f g,
                not_found name (remove_result (pos k) d) (
                    lookup-without name name fs.directory_file c.distinct
                    ∙ rw (same_name_self 9 name) refl),
              ))

module _ (reserved : ℕ → ℕ) where
  remove_lem_both :
      (name : Chars) (fs : FileSystem)
      → Consistent reserved fs
      → Returns (λ x. Consistent reserved x.1 × (open_named name x.1 ≡ ok none)) (remove name fs)
  unfolding remove
  remove_lem_both name fs c = elim (Option-cases (lookup name fs.directory_file)) [
    | inl l ↦ rw (find_lem name fs.directory_file, l) (c, not_found name fs l)
    | inr (s, l) ↦
        let ((k, e, p), so) =
          EachFile-lookup (Sound fs.headers fs.free_map_file) name fs.directory_file s c.sound l in
        remove_found reserved name fs c k (l ∙ ap some e)
  ]

  -- `Remove` in a file system whose map counts each sector once for each file that claims it returns, and that is
  -- so again.
  pub remove-Consistent :
      (name : Chars) (fs : FileSystem)
      → Consistent reserved fs
      → Returns (λ x. Consistent reserved x.1) (remove name fs)
  remove-Consistent name fs c =
      Returns-implies (remove name fs) (λ x h. h.0) (remove_lem_both name fs c)

  -- After `Remove` in such a file system, `Open` of the name finds no file.
  pub open_named-remove :
      (name : Chars) (fs : FileSystem)
      → Consistent reserved fs
      → Returns (λ x. open_named name x.1 ≡ ok none) (remove name fs)
  open_named-remove name fs c =
      Returns-implies (remove name fs) (λ x h. h.1) (remove_lem_both name fs c)
