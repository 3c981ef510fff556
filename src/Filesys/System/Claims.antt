-- ===== src/Filesys/System/Claims.antt =====
-- filesys/filesys.cc: which files claim a sector, through the directory and the headers.
use project.Prelude.{
  ℕ, ◌+◌, ◌≡◌, refl, sym, ap, subst, ◌∙◌, [], ◌∷◌, true, false, ℤ, pos, eq_ℤ, some, if◌then◌else◌,
  inl, inr, arith, Bool-cases,
}
use project.Filesys.Directories.{Chars, Directory, DirectoryEntry, new_entry, matches, fill_first}
use project.Filesys.Directories.Laws.{
  lookup, without, matches-parts, fill_first_full, fill_first_used, fill_first_unused,
}
use project.Filesys.Headers.{FileHeader}
use project.Filesys.Headers.Sectors.{taken}

-- How often a header claims sector `k` for its data.
abbrev pub data_claims : FileHeader → ℕ → ℕ
data_claims h k = taken h.num_sectors 0 h k

-- How often the file whose header is in `sector` claims sector `k`, its header's sector included.
abbrev pub file_claims : (ℤ → FileHeader) → ℤ → ℕ → ℕ
file_claims hs sector k = (if eq_ℤ sector (pos k) then 1 else 0) + data_claims (hs sector) k

-- How often the files of a directory claim sector `k`.
unfoldable pub claims : (ℤ → FileHeader) → Directory → ℕ → ℕ
claims hs [] k = 0
claims hs (e ∷ d) k = (if e.in_use then file_claims hs e.sector k else 0) + claims hs d k

-- Sector `k` of the disk gets a header.
abbrev pub put_header : ℤ → FileHeader → (ℤ → FileHeader) → ℤ → FileHeader
put_header sector h hs s = if eq_ℤ s sector then h else hs s

pub claims-put_header :
    (hs : ℤ → FileHeader) (d : Directory) (k j : ℕ) (h : FileHeader)
    → claims hs d k ≡ 0
    → claims (put_header (pos k) h hs) d j ≡ claims hs d j
unfolding claims
claims-put_header hs [] k j h z = refl
claims-put_header hs (e ∷ d) k j h z = elim (Bool-cases e.in_use) [
  | inl u ↦
      let other : eq_ℤ e.sector (pos k) ≡ false = ground arith in
      rw other (omega (arith, claims-put_header hs d k j h (ground arith)))
  | inr u ↦ ground (arith, claims-put_header hs d k j h (ground arith))
]

-- A file is added to the first free entry.
fill_first-found :
    (name : Chars) (s : ℤ) (e : DirectoryEntry) (d : Directory)
    → e.in_use ≡ true
    → (fill_first name s (e ∷ d)).0 ≡ true
    → (fill_first name s d).0 ≡ true
unfolding fill_first
fill_first-found name s e d u h = ground arith

fill_first-none : (name : Chars) (s : ℤ) → (fill_first name s []).0 ≡ false
unfolding fill_first
fill_first-none name s = refl

claims-new_entry :
    (hs : ℤ → FileHeader) (name : Chars) (s : ℤ) (e : DirectoryEntry) (d : Directory) (j : ℕ)
    → claims hs (new_entry name s e ∷ d) j ≡ file_claims hs s j + claims hs d j
unfolding claims new_entry
claims-new_entry hs name s e d j = refl

pub claims-fill_first :
    (hs : ℤ → FileHeader) (name : Chars) (s : ℤ) (d : Directory) (j : ℕ)
    → (fill_first name s d).0 ≡ true
    → claims hs (fill_first name s d).1 j ≡ claims hs d j + file_claims hs s j
unfolding claims
claims-fill_first hs name s [] j h = absurd (ground (arith, fill_first-none name s))
claims-fill_first hs name s (e ∷ d) j h = elim (Bool-cases e.in_use) [
  | inl u ↦
      ap (λ t. claims hs t j) (fill_first_used name s e d u)
      ∙ omega (arith, claims-fill_first hs name s d j (fill_first-found name s e d u h))
  | inr u ↦
      ap (λ t. claims hs t j) (fill_first_unused name s e d u)
      ∙ ground (arith, claims-new_entry hs name s e d j)
]

pub claims-without :
    (hs : ℤ → FileHeader) (name : Chars) (d : Directory) (s : ℤ) (j : ℕ)
    → lookup name d ≡ some s
    → claims hs (without name d) j + file_claims hs s j ≡ claims hs d j
unfolding claims lookup without
claims-without hs name [] s j l = absurd (ground arith)
claims-without hs name (e ∷ d) s j l = elim (Bool-cases (matches name e)) [
  | inl m ↦
      let same : e.sector ≡ s = ground arith in
      rw (m, same, (matches-parts name e m).0) (omega arith)
  | inr m ↦ rw m (omega (arith, claims-without hs name d s j (ground arith)))
]

-- Every file in use of the directory satisfies `P`, at the sector of its header.
unfoldable pub EachFile : (ℤ → Type 0) → Directory → Type 0
EachFile P [] = Unit
EachFile P (e ∷ d) = (e.in_use ≡ true → P e.sector) × EachFile P d

module _ (P : ℤ → Type 0) where
  pub EachFile-lookup :
      (name : Chars) (d : Directory) (s : ℤ) → EachFile P d → lookup name d ≡ some s → P s
  unfolding EachFile lookup
  EachFile-lookup name [] s a l = absurd (ground arith)
  EachFile-lookup name (e ∷ d) s (a, rs) l = elim (Bool-cases (matches name e)) [
    | inl m ↦ let same : e.sector ≡ s = ground arith in subst P same (a (matches-parts name e m).0)
    | inr m ↦ EachFile-lookup name d s rs (ground arith)
  ]

  pub EachFile-without : (name : Chars) (d : Directory) → EachFile P d → EachFile P (without name d)
  unfolding EachFile without
  EachFile-without name [] a = tt
  EachFile-without name (e ∷ d) (a, rs) = elim (Bool-cases (matches name e)) [
    | inl m ↦ rw m ((λ u. absurd (ground arith)), rs)
    | inr m ↦ rw m (a, EachFile-without name d rs)
  ]

  EachFile-new_entry :
      (name : Chars) (s : ℤ) (e : DirectoryEntry) (d : Directory)
      → P s
      → EachFile P d
      → EachFile P (new_entry name s e ∷ d)
  unfolding EachFile new_entry
  EachFile-new_entry name s e d p rs = ((λ u. p), rs)

  pub EachFile-fill_first :
      (name : Chars) (s : ℤ) (d : Directory)
      → P s
      → EachFile P d
      → EachFile P (fill_first name s d).1
  unfolding EachFile
  EachFile-fill_first name s [] p a =
      subst (EachFile P) (sym (fill_first_full name s [] (fill_first-none name s))) tt
  EachFile-fill_first name s (e ∷ d) p (a, rs) = elim (Bool-cases e.in_use) [
    | inl u ↦
        subst (EachFile P) (sym (fill_first_used name s e d u))
          (a, EachFile-fill_first name s d p rs)
    | inr u ↦
        subst (EachFile P) (sym (fill_first_unused name s e d u))
          (EachFile-new_entry name s e d p rs)
  ]

module _ (P Q : ℤ → Type 0) where
  pub EachFile-implies : (d : Directory) → ((s : ℤ) → P s → Q s) → EachFile P d → EachFile Q d
  unfolding EachFile
  EachFile-implies [] f a = tt
  EachFile-implies (e ∷ d) f (a, rs) = ((λ u. f e.sector (a u)), EachFile-implies d f rs)

-- Of files none of which claims sector `k`, no header is there.
pub EachFile-unclaimed :
    (hs : ℤ → FileHeader) (P : ℤ → Type 0) (d : Directory) (k : ℕ)
    → claims hs d k ≡ 0
    → EachFile P d
    → EachFile (λ s. (eq_ℤ s (pos k) ≡ false) × P s) d
unfolding claims EachFile
EachFile-unclaimed hs P [] k z a = tt
EachFile-unclaimed hs P (e ∷ d) k z (a, rs) =
    ((λ u. (ground arith, a u)), EachFile-unclaimed hs P d k (omega arith) rs)
