-- ===== src/Userprog/Processes/Settlement.antt =====
-- userprog/exception.cc: the table of processes and the spaces of the processes.
use project.Prelude.{
  ℕ, ◌≡◌, refl, sym, ap, subst, ◌∙◌, List, [], ◌∷◌, ◌++◌, false, ◌==◌, ==_iff, ok, inl, inr,
  Bool-cases, arith,
}
use project.Userprog.Paging.State.{AddrSpace}
use project.Userprog.Processes.{Process, update_process, find_process, erase_process}
use project.Userprog.Processes.Stacks.{Fits, Fits-same}

-- The address spaces, and the stacks of each that sleeping threads have taken.
abbrev pub Holdings : Type 0
Holdings = ℕ → AddrSpace × List ℕ

-- No process has the space.
unfoldable pub Fresh : ℕ → List Process → Type 0
Fresh space [] = Unit
Fresh space (p ∷ ps) = ((space == p.space) ≡ false) × Fresh space ps

-- Each process fits its address space, and no two have the same one.
unfoldable pub Settled : Holdings → List Process → Type 0
unfolding Fresh
Settled sp [] = Unit
Settled sp (p ∷ ps) = Fits p (sp p.space) × Fresh p.space ps × Settled sp ps

-- Only `a` differs.
abbrev pub OnlyAt : {A : Type 0} → ℕ → (ℕ → A) → (ℕ → A) → Type 0
OnlyAt a sp sp' = (b : ℕ) → (a == b) ≡ false → sp' b ≡ sp b

pub Settled-elsewhere :
    (a : ℕ) (sp sp' : Holdings) (ps : List Process)
    → OnlyAt a sp sp'
    → Fresh a ps
    → Settled sp ps
    → Settled sp' ps
unfolding Settled Fresh
Settled-elsewhere a sp sp' [] o f s = tt
Settled-elsewhere a sp sp' (p ∷ ps) o (n, f) (fits, g, s) =
    (subst (Fits p) (sym (o p.space n)) fits, g, Settled-elsewhere a sp sp' ps o f s)

module _ (a : ℕ) (f : Process → Process) (keeps : (p : Process) → (f p).space ≡ p.space) where
  Fresh-update :
      (space : ℕ) (ps : List Process) → Fresh space ps → Fresh space (update_process a f ps)
  unfolding Fresh update_process
  Fresh-update space [] h = tt
  Fresh-update space (p ∷ ps) (n, h) = elim (Bool-cases (a == p.space)) [
    | inl e ↦ rw e (ap (λ s. space == s) (keeps p) ∙ n, h)
    | inr e ↦ rw e (n, Fresh-update space ps h)
  ]

  pub Settled-update :
      (sp sp' : Holdings) (ps : List Process)
      → OnlyAt a sp sp'
      → ((p : Process)
          → find_process a ps ≡ ok p
          → p.space ≡ a
          → Fits p (sp a)
          → Fits (f p) (sp' a))
      → Settled sp ps
      → Settled sp' (update_process a f ps)
  unfolding Settled Fresh update_process find_process
  Settled-update sp sp' [] o g s = tt
  Settled-update sp sp' (p ∷ ps) o g (fits, fresh, s) = elim (Bool-cases (a == p.space)) [
    | inl e ↦
        let same : a ≡ p.space = (==_iff a p.space).0 e in
        let found : find_process a (p ∷ ps) ≡ ok p = rw e refl in
        rw e (
          subst (λ x. Fits (f p) (sp' x)) (same ∙ sym (keeps p))
              (g p found (sym same) (subst (λ x. Fits p (sp x)) (sym same) fits)),
          subst (λ x. Fresh x ps) (sym (keeps p)) fresh,
          Settled-elsewhere a sp sp' ps o (subst (λ x. Fresh x ps) (sym same) fresh) s,
        )
    | inr e ↦ rw e (
      subst (Fits p) (sym (o p.space e)) fits,
      Fresh-update p.space ps fresh,
      Settled-update sp sp' ps o (λ q h. g q (rw e h)) s,
    )
  ]

Fresh-erase : (space a : ℕ) (ps : List Process) → Fresh space ps → Fresh space (erase_process a ps)
unfolding Fresh erase_process
Fresh-erase space a [] h = tt
Fresh-erase space a (p ∷ ps) (n, h) = elim (Bool-cases (a == p.space)) [
  | inl e ↦ rw e h
  | inr e ↦ rw e (n, Fresh-erase space a ps h)
]

-- The pages of the spaces may differ, but not how many there are, nor the queues, nor what has been taken.
pub Settled-same :
    (sp sp' : Holdings) (ps : List Process)
    → ((b : ℕ)
        → ((sp' b).0.num_pages ≡ (sp b).0.num_pages)
          × ((sp' b).0.num_page_queue ≡ (sp b).0.num_page_queue)
          × ((sp' b).1 ≡ (sp b).1))
    → Settled sp ps
    → Settled sp' ps
unfolding Settled
Settled-same sp sp' [] o s = tt
Settled-same sp sp' (p ∷ ps) o (fits, g, s) =
    let (n, q, t) = o p.space in
    (
      subst (λ w. Fits p ((sp' p.space).0, w)) (sym t)
          (Fits-same p (sp p.space).0 (sp' p.space).0 (sp p.space).1 n q fits),
      g,
      Settled-same sp sp' ps o s,
    )

-- The table is as it was, and what fitted one space fits it still.
pub Settled-change :
    (a : ℕ) (sp sp' : Holdings) (ps : List Process)
    → OnlyAt a sp sp'
    → ((p : Process) → Fits p (sp a) → Fits p (sp' a))
    → Settled sp ps
    → Settled sp' ps
unfolding Settled
Settled-change a sp sp' [] o g s = tt
Settled-change a sp sp' (p ∷ ps) o g (fits, fresh, s) = (
  (elim (Bool-cases (a == p.space)) [
    | inl e ↦
        let same : a ≡ p.space = (==_iff a p.space).0 e in
        subst (λ x. Fits p (sp' x)) same (g p (subst (λ x. Fits p (sp x)) (sym same) fits))
    | inr e ↦ subst (Fits p) (sym (o p.space e)) fits
  ]),
  fresh,
  Settled-change a sp sp' ps o g s,
)

pub Settled-erase :
    (a : ℕ) (sp sp' : Holdings) (ps : List Process)
    → OnlyAt a sp sp'
    → Settled sp ps
    → Settled sp' (erase_process a ps)
unfolding Settled Fresh erase_process
Settled-erase a sp sp' [] o s = tt
Settled-erase a sp sp' (p ∷ ps) o (fits, fresh, s) = elim (Bool-cases (a == p.space)) [
  | inl e ↦ rw e (
      Settled-elsewhere a sp sp' ps o (subst (λ x. Fresh x ps) (sym ((==_iff a p.space).0 e)) fresh)
        s)
  | inr e ↦ rw e (
    subst (Fits p) (sym (o p.space e)) fits,
    Fresh-erase p.space a ps fresh,
    Settled-erase a sp sp' ps o s,
  )
]

pub Settled-append :
    (sp : Holdings) (ps : List Process) (p : Process)
    → Fresh p.space ps
    → Fits p (sp p.space)
    → Settled sp ps
    → Settled sp (ps ++ (p ∷ []))
unfolding Settled Fresh
Settled-append sp [] p f fits s = (fits, tt, tt)
Settled-append sp (q ∷ ps) p (n, f) fits (fits', g, s) =
    (fits', later ps g, Settled-append sp ps p f fits s)
  where
    later : (ps : List Process) → Fresh q.space ps → Fresh q.space (ps ++ (p ∷ []))
    later [] g = (ground (arith, n), tt)
    later (r ∷ ps) (m, g) = (m, later ps g)
