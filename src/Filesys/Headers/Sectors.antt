-- ===== src/Filesys/Headers/Sectors.antt =====
-- filesys/filehdr.cc: the sectors that a file takes and gives back.
use project.Prelude.{
  ℕ, zero, suc, ◌+◌, ◌/◌, ◌≤◌, ◌<◌, ◌≡◌, refl, ap, sym, subst, ◌∙◌, inl, inr, true, false, ℤ, pos,
  minus_one, eq_ℤ, false, ==_iff, ltb, ◌==◌, if◌then◌else◌, ok, ◌>>=◌, Bool-cases, arith, Returns,
  Returns-bind, Returns-implies, Returns-both,
}
use project.Userprog.BitMap.{BitMap, div_round_up, clear, find, num_clear}
use project.Userprog.BitMap.Laws.{used, used-le-one, HasRoom, IsSetTo, clear-IsSetTo, test_lem}
use project.Userprog.BitMap.Search.{Found, find-Found, num_clear-find}
use project.Filesys.Headers.{
  FileHeader, sector_size, num_direct, put_sector, sector_at, allocate_from, allocate,
  deallocate_from, deallocate, byte_to_sector,
}

-- How many of the `n` entries from `i` on are sector `k`.
unfoldable pub taken : ℕ → ℕ → FileHeader → ℕ → ℕ
taken zero i h k = 0
taken (suc n) i h k = (if eq_ℤ (h.data_sectors i) (pos k) then 1 else 0) + taken n (i + 1) h k

-- The `n` entries from `i` on are sectors of the map.
abbrev pub InMap : ℕ → ℕ → FileHeader → BitMap → Type 0
InMap n i h b =
    (j : ℕ) → i ≤ j → j < i + n → (k : ℕ) × (h.data_sectors j ≡ pos k) × (k < b.num_bits)

-- Sectors of the map are all that it takes.
pub taken-InMap :
    (n i : ℕ) (h : FileHeader) (b : BitMap)
    → InMap n i h b
    → (k : ℕ) → b.num_bits ≤ k
    → taken n i h k ≡ 0
unfolding taken
taken-InMap zero i h b m k p = refl
taken-InMap (suc n) i h b m k p =
    let (j, e, q) = m i (omega arith) (omega arith) in
    rw e
      (ground (arith, taken-InMap n (i + 1) h b (λ j p' q'. m j (omega arith) (omega arith)) k p))

-- What giving `n` sectors to a header does: they were free, they differ, and they are in use now; no
-- other bit of the map and none of the first `i` entries has changed.
pub record Allocated (n i : ℕ) (h : FileHeader) (b : BitMap) (h' : FileHeader) (b' : BitMap)
    : Type 0 where
  pub bits : (k : ℕ) → used b' k ≡ used b k + taken n i h' k
  pub in_map : InMap n i h' b'
  pub same_size : b'.num_bits ≡ b.num_bits
  pub has_room : HasRoom b'
  pub earlier : (j : ℕ) → j < i → h'.data_sectors j ≡ h.data_sectors j
  pub num_bytes_same : h'.num_bytes ≡ h.num_bytes
  pub num_sectors_same : h'.num_sectors ≡ h.num_sectors

-- There is room for `n` more.
abbrev pub HasFree : ℕ → BitMap → Type 0
HasFree n b = (m : ℕ) × (num_clear b ≡ ok m) × (n ≤ m)

-- What `Find` does where a number is free.
abbrev pub Gives : ℕ → BitMap → ℤ × BitMap → Type 0
Gives n b x =
    (k : ℕ) × (x.0 ≡ pos k) × (k < b.num_bits) × (used b k ≡ 0) × IsSetTo 1 k b x.1 × HasFree n x.1

find-Gives : (n : ℕ) (b : BitMap) → HasRoom b → HasFree (suc n) b → Returns (Gives n b) (find b)
find-Gives n b r (m, e, l) =
    Returns-implies (find b) (λ x (f, c). gives x f c)
      (Returns-both (Found 0 b) _ (find b) (find-Found b r) (num_clear-find b r))
  where
    ok-eq : (a c : ℕ) → ok a ≡ ok c → a ≡ c
    ok-eq a c h = cc

    gives :
        (x : ℤ × BitMap)
        → Found 0 b x
        → (m' : ℕ) × (num_clear x.1 ≡ ok m')
          × (num_clear b ≡ ok (if eq_ℤ x.0 minus_one then m' else m' + 1))
          × (x.0 ≡ minus_one → m' ≡ 0)
        → Gives n b x
    gives x (inl (f, g, all)) (m', e', d, z) =
        absurd
          (ground (arith, ok-eq m (if eq_ℤ x.0 minus_one then m' else m' + 1) (sym e ∙ d), z f, f))
    gives x (inr (k, f, p, q, u, all, t)) (m', e', d, z) = (
      k,
      f,
      q,
      u,
      t,
      (m', e', ground (arith, ok-eq m (if eq_ℤ x.0 minus_one then m' else m' + 1) (sym e ∙ d), f)),
    )

-- Entry `i` becomes `sector`.
abbrev pub put_entry : ℕ → ℤ → FileHeader → FileHeader
put_entry i sector h = record h { data_sectors = λ j. if i == j then sector else h.data_sectors j }

put_sector_lem :
    (i : ℕ) (sector : ℤ) (h : FileHeader)
    → i < num_direct
    → put_sector i sector h ≡ ok (put_entry i sector h)
unfolding put_sector
put_sector_lem i sector h l = let e : ltb i 30 ≡ true = ground arith in rw e refl

-- One sector more, before those of the later rounds.
Allocated-earlier :
    (n i k : ℕ) (h : FileHeader) (b c : BitMap)
    → IsSetTo 1 k b c
    → used b k ≡ 0
    → k < b.num_bits
    → (h' : FileHeader) (b' : BitMap) → Allocated n (i + 1) (put_entry i (pos k) h) c h' b'
    → Allocated (suc n) i h b h' b'
unfolding taken
Allocated-earlier n i k h b c s z l h' b' a = record {
  bits = λ j. rw entry (ground (arith, a.bits j, s.2 j));
  in_map = λ j p q. elim (Bool-cases (i == j)) [
    | inl e ↦
        let same : i ≡ j = (==_iff i j).0 e in
        (k, ap h'.data_sectors (sym same) ∙ entry, omega (arith, a.same_size, s.0))
    | inr e ↦ a.in_map j (ground arith) (omega arith)
  ];
  same_size = a.same_size ∙ s.0;
  has_room = a.has_room;
  earlier =
      λ j p. a.earlier j (omega arith) ∙ (let e : (i == j) ≡ false = ground arith in rw e refl);
  num_bytes_same = a.num_bytes_same;
  num_sectors_same = a.num_sectors_same;
}
  where
    entry : h'.data_sectors i ≡ pos k
    entry = a.earlier i (omega arith) ∙ (let e : (i == i) ≡ true = ground arith in rw e refl)

allocate_from-Allocated :
    (n i : ℕ) (h : FileHeader) (b : BitMap)
    → HasRoom b
    → HasFree n b
    → i + n ≤ num_direct
    → Returns (λ x. Allocated n i h b x.0 x.1) (allocate_from n i h b)
unfolding allocate_from taken
allocate_from-Allocated zero i h b r f l = record {
  bits = λ k. omega arith;
  in_map = λ j p q. absurd (omega arith);
  same_size = refl;
  has_room = r;
  earlier = λ j p. refl;
  num_bytes_same = refl;
  num_sectors_same = refl;
}
allocate_from-Allocated (suc n) i h b r f l =
    Returns-bind (λ x. Allocated (suc n) i h b x.0 x.1) (Gives n b) (find b) _ (find-Gives n b r f)
      λ (sector, c) (k, e, p, z, s, free).
        rw (e, put_sector_lem i (pos k) h (omega arith))
          (Returns-implies (allocate_from n (i + 1) (put_entry i (pos k) h) c)
            (λ x a. Allocated-earlier n i k h b c s z p x.0 x.1 a)
            (allocate_from-Allocated n (i + 1) (put_entry i (pos k) h) c s.1 free (omega arith)))

-- What is left is enough for `m` more.
allocate_from-HasFree :
    (n m i : ℕ) (h : FileHeader) (b : BitMap)
    → HasRoom b
    → HasFree (n + m) b
    → i + n ≤ num_direct
    → Returns (λ x. HasFree m x.1) (allocate_from n i h b)
unfolding allocate_from
allocate_from-HasFree zero m i h b r (c, e, l) d = (c, e, omega arith)
allocate_from-HasFree (suc n) m i h b r (c, e, l) d =
    Returns-bind (λ x. HasFree m x.1) (Gives (n + m) b) (find b) _
      (find-Gives (n + m) b r (c, e, omega arith))
      λ (sector, c) (k, e, p, z, s, free).
        rw (e, put_sector_lem i (pos k) h (omega arith))
          (allocate_from-HasFree n m (i + 1) (put_entry i (pos k) h) c s.1 free (omega arith))

-- The header with its two sizes set.
abbrev pub sized : ℕ → FileHeader → FileHeader
sized size h = record h { num_bytes = size; num_sectors = div_round_up size sector_size }

-- `Allocate` for a file of at most `num_direct` sectors, if there is a word for each bit of the map and as many sectors
-- are clear as the file needs, returns true, with the size in the header and as many sectors of the map
-- as that size needs: each of them was free and is in use now, no two are the same, and no other bit of the
-- map has changed.
pub allocate-Allocated :
    (size : ℕ) (h : FileHeader) (b : BitMap)
    → HasRoom b
    → HasFree (div_round_up size sector_size) b
    → div_round_up size sector_size ≤ num_direct
    → Returns
        (λ x. (x.0 ≡ true) × Allocated (div_round_up size sector_size) 0 (sized size h) b x.1 x.2)
        (allocate size h b)
unfolding allocate
allocate-Allocated size h b r (m, e, l) d =
    let enough : ltb m (div_round_up size sector_size) ≡ false = ground arith in
    rw (e, enough)
      (Returns-bind _ (λ x. Allocated (div_round_up size sector_size) 0 (sized size h) b x.0 x.1)
        (allocate_from (div_round_up size sector_size) 0 (sized size h) b) _
        (allocate_from-Allocated (div_round_up size sector_size) 0 (sized size h) b r (m, e, l)
          (omega arith))
        λ (h'', c) a. (refl, a))

pub allocate-HasFree :
    (size m : ℕ) (h : FileHeader) (b : BitMap)
    → HasRoom b
    → HasFree (div_round_up size sector_size + m) b
    → div_round_up size sector_size ≤ num_direct
    → Returns (λ x. HasFree m x.2) (allocate size h b)
unfolding allocate
allocate-HasFree size m h b r (c, e, l) d =
    let enough : ltb c (div_round_up size sector_size) ≡ false = ground arith in
    rw (e, enough)
      (Returns-bind _ (λ x. HasFree m x.1)
        (allocate_from (div_round_up size sector_size) 0 (sized size h) b) _
        (allocate_from-HasFree (div_round_up size sector_size) m 0 (sized size h) b r
          (c, e, omega arith) (omega arith))
        λ x f. f)

-- If fewer sectors are clear than the file needs, `Allocate` returns false, and the map is as it was.
pub allocate-full :
    (size : ℕ) (h : FileHeader) (b : BitMap) (m : ℕ)
    → num_clear b ≡ ok m
    → m < div_round_up size sector_size
    → allocate size h b ≡ ok (false, sized size h, b)
unfolding allocate
allocate-full size h b m e l =
    let short : ltb m (div_round_up size sector_size) ≡ true = ground arith in rw (e, short) refl

-- The sectors of the header are given back: their bits are clear, and the others stay.
abbrev pub Freed : ℕ → ℕ → FileHeader → BitMap → BitMap → Type 0
Freed n i h b c =
    (c.num_bits ≡ b.num_bits) × HasRoom c × ((k : ℕ) → used c k + taken n i h k ≡ used b k)

pub deallocate_from-Freed :
    (n i : ℕ) (h : FileHeader) (b : BitMap)
    → HasRoom b
    → i + n ≤ num_direct
    → InMap n i h b
    → ((k : ℕ) → taken n i h k ≤ used b k)
    → Returns (Freed n i h b) (deallocate_from n i h b)
unfolding deallocate_from taken sector_at
deallocate_from-Freed zero i h b r l m t = (refl, r, λ k. omega arith)
deallocate_from-Freed (suc n) i h b r l m t =
    let (k, e, p) = m i (omega arith) (omega arith) in
    let inside : ltb i 30 ≡ true = ground arith in
    let in_use : (used b k == 1) ≡ true = ground (arith, e, t k, used-le-one b k) in
    rw (inside, e, test_lem k b r p, in_use)
      (Returns-bind (Freed (suc n) i h b) (IsSetTo 0 k b) (clear (pos k) b)
        (deallocate_from n (i + 1) h) (clear-IsSetTo k b r p)
        λ c s.
          Returns-implies (deallocate_from n (i + 1) h c)
            (λ d f.
              (f.0 ∙ s.0, f.1, λ j. rw e (ground (arith, f.2 j, s.2 j, t k, used-le-one b k, e))))
            (deallocate_from-Freed n (i + 1) h c s.1 (omega arith)
              (λ j p' q'.
                let (a, e', p'') = m j (omega arith) (omega arith) in (a, e', omega (arith, s.0)))
              λ j. ground (arith, e, s.2 j, t j, t k, used-le-one b k)))

-- `Deallocate` undoes `Allocate`: for a file of at most `num_direct` sectors, if there is a word for each bit of the map and as many
-- sectors are clear as the file needs, both return, and then every bit of the map is as it was.
pub deallocate-allocate :
    (size : ℕ) (h : FileHeader) (b : BitMap)
    → HasRoom b
    → HasFree (div_round_up size sector_size) b
    → div_round_up size sector_size ≤ num_direct
    → Returns
        (λ c. (k : ℕ) → used c k ≡ used b k)
        (allocate size h b >>= λ (done, h', c). deallocate h' c)
unfolding deallocate
deallocate-allocate size h b r f d =
    Returns-bind _
      (λ x. (x.0 ≡ true) × Allocated (div_round_up size sector_size) 0 (sized size h) b x.1 x.2)
      (allocate size h b) _ (allocate-Allocated size h b r f d)
      λ (done, h', c) (e, a).
        subst (λ n. Returns (λ c. (k : ℕ) → used c k ≡ used b k) (deallocate_from n 0 h' c))
          (sym a.num_sectors_same)
          (Returns-implies (deallocate_from (div_round_up size sector_size) 0 h' c)
            (λ x g k. omega (arith, g.2 k, a.bits k))
            (deallocate_from-Freed (div_round_up size sector_size) 0 h' c a.has_room (omega arith)
              a.in_map λ k. omega (arith, a.bits k)))

pub taken-entry :
    (n i j k : ℕ) (h : FileHeader)
    → i ≤ j
    → j < i + n
    → h.data_sectors j ≡ pos k
    → 1 ≤ taken n i h k
unfolding taken
taken-entry zero i j k h p q e = absurd (omega arith)
taken-entry (suc n) i j k h p q e = elim (Bool-cases (i == j)) [
  | inl same ↦
      let here : h.data_sectors i ≡ pos k = ap h.data_sectors ((==_iff i j).0 same) ∙ e in
      rw here (ground arith)
  | inr other ↦ omega (arith, taken-entry n (i + 1) j k h (ground arith) (omega arith) e)
]

-- For a file of at most `num_direct` sectors, if there is a word for each bit of the map and as many sectors are
-- clear as the file needs, `ByteToSector` of each offset below the size that `Allocate` was given returns a
-- sector of the map that was clear before.
pub byte_to_sector-allocate :
    (size offset : ℕ) (h : FileHeader) (b : BitMap)
    → HasRoom b
    → HasFree (div_round_up size sector_size) b
    → div_round_up size sector_size ≤ num_direct
    → offset < size
    → Returns
        (λ s. (k : ℕ) × (s ≡ pos k) × (k < b.num_bits) × (used b k ≡ 0))
        (allocate size h b >>= λ (done, h', c). byte_to_sector offset h')
unfolding byte_to_sector sector_at
byte_to_sector-allocate size offset h b r f d l =
    Returns-bind _
      (λ x. (x.0 ≡ true) × Allocated (div_round_up size sector_size) 0 (sized size h) b x.1 x.2)
      (allocate size h b) _ (allocate-Allocated size h b r f d)
      λ (done, h', c) (e, a).
        let p : offset / sector_size < div_round_up size sector_size = ground arith in
        let (k, e, q) = a.in_map (offset / sector_size) (omega arith) (omega arith) in
        let inside : ltb (offset / 128) 30 ≡ true = ground arith in
        rw inside (
          k,
          e,
          omega (arith, a.same_size),
          omega (
            arith,
            a.bits k,
            used-le-one c k,
            taken-entry (div_round_up size sector_size) 0 (offset / sector_size) k h' (omega arith)
                (omega arith) e,
          ),
        )
