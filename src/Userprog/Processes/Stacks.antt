-- ===== src/Userprog/Processes/Stacks.antt =====
-- userprog/exception.cc: the stacks of the threads of a process, and the bytes that they have.
use project.Prelude.{
  ℕ, suc, ◌+◌, ◌-◌, ◌*◌, ◌%◌, ◌^◌, ◌≤◌, ◌<◌, ◌≡◌, refl, ap, List, [], ◌∷◌, ◌++◌, map, leb, ltb,
  ◌&&◌, if◌then◌else◌, ◌==◌, length, length-append, inl, inr, Bool-cases, arith, Holds,
  Holds-implies,
}
use project.Userprog.Paging.State.{AddrSpace, page_size}
use project.Userprog.Processes.{Process, find_stack, erase_stack, leave_process, push_stack}

-- Where the stack starts that `getNumPages` is asked for.
abbrev pub start_of : ℕ → ℕ
start_of n = (n * page_size + 2 ^ 32 - 16) % 2 ^ 32

abbrev pub starts : List (ℕ × ℕ) → List ℕ
starts v = map (λ x. x.1) v

-- The stack that starts at address `s` ends at `s + 16`, and has 1024 bytes. A byte is given by its address
-- plus 1024, so that those before address 0 have a number too.
abbrev has_byte : ℕ → ℕ → ℕ
has_byte x s = if leb (s + 16) x && ltb x (s + 1040) then 1 else 0

-- How many of the stacks have byte `x`.
unfoldable pub covers : ℕ → List ℕ → ℕ
covers x [] = 0
covers x (s ∷ l) = has_byte x s + covers x l

-- How many stacks have byte `x`: of those in use, those that sleeping threads have taken, and those in the
-- queue.
abbrev covered : ℕ → Process → AddrSpace × List ℕ → ℕ
covered x p a =
    covers x (starts p.thread_stacks) + covers x a.1 + covers x (map start_of a.0.num_page_queue)

-- A process fits its address space, of which `a.1` are the stacks that sleeping threads have taken: no byte is
-- in two stacks, each byte of a stack is inside the space, and each of its threads has a stack, has taken
-- one, or is to get one.
abbrev pub Fits : Process → AddrSpace × List ℕ → Type 0
Fits p a =
    ((x : ℕ)
      → (covered x p a ≤ 1)
        × (0 < covered x p a → (1024 ≤ x) × (x < a.0.num_pages * page_size + 1024)))
    × (p.num_threads ≡ length p.thread_stacks + length a.1 + length a.0.num_page_queue)

-- Sums that agree for every byte give the same.
Fits-by :
    (p q : Process) (a b : AddrSpace × List ℕ)
    → ((x : ℕ) → covered x q b ≤ covered x p a)
    → b.0.num_pages ≡ a.0.num_pages
    → q.num_threads ≡ length q.thread_stacks + length b.1 + length b.0.num_page_queue
    → Fits p a
    → Fits q b
Fits-by p q a b less n c (f, k) = (λ x. byte x, c)
  where
    byte :
        (x : ℕ)
        → (covered x q b ≤ 1)
          × (0 < covered x q b → (1024 ≤ x) × (x < b.0.num_pages * page_size + 1024))
    byte x =
        let (one, inside) = f x in
        (
          omega (arith, less x, one),
          λ h. let (low, high) = inside (omega (arith, less x, h)) in (low, omega (arith, n, high)),
        )

covers-push :
    (x thread s : ℕ) (v : List (ℕ × ℕ))
    → covers x (starts (v ++ ((thread, s) ∷ []))) ≡ covers x (starts v) + covers x (s ∷ [])
unfolding covers
covers-push x thread s [] = omega arith
covers-push x thread s ((t, r) ∷ v) = omega (arith, covers-push x thread s v)

covers-queue :
    (x n : ℕ) (queue : List ℕ)
    → covers x (map start_of (queue ++ (n ∷ [])))
      ≡ covers x (map start_of queue) + covers x (start_of n ∷ [])
unfolding covers
covers-queue x n [] = omega arith
covers-queue x n (m ∷ queue) = omega (arith, covers-queue x n queue)

covers-erase :
    (x thread : ℕ) (v : List (ℕ × ℕ))
    → covers x (starts (erase_stack thread v)) ≤ covers x (starts v)
unfolding covers erase_stack
covers-erase x thread [] = omega arith
covers-erase x thread ((t, s) ∷ v) = elim (Bool-cases (thread == t)) [
  | inl e ↦ rw e (omega arith)
  | inr e ↦ rw e (omega (arith, covers-erase x thread v))
]

pub length-erase_stack :
    (thread : ℕ) (v : List (ℕ × ℕ))
    → Holds (λ s. length v ≡ length (erase_stack thread v) + 1) (find_stack thread v)
unfolding erase_stack find_stack
length-erase_stack thread [] = tt
length-erase_stack thread ((t, x) ∷ v) = elim (Bool-cases (thread == t)) [
  | inl e ↦ rw e (omega arith)
  | inr e ↦
      rw e (
        Holds-implies (find_stack thread v) (λ s h. omega (arith, h)) (length-erase_stack thread v))
]

-- The bytes of a new stack, which ends where the space does.
new_stack :
    (x n : ℕ)
    → 8 ≤ n
    → n * page_size < 2 ^ 32
    → covers x (start_of n ∷ [])
      ≡ (if leb (n * page_size) x && ltb x (n * page_size + 1024) then 1 else 0)
unfolding covers
new_stack x n low high =
    let e : start_of n + 16 ≡ n * page_size = omega arith in
    let f : start_of n + 1040 ≡ n * page_size + 1024 = omega arith in rw (e, f) (omega arith)

-- Another thread has been counted, and a stack made for it.
pub Fits-fork :
    (p : Process) (a b : AddrSpace) (w : List ℕ)
    → (a.num_pages + 8) * page_size < 2 ^ 32
    → b.num_pages ≡ a.num_pages + 8
    → b.num_page_queue ≡ a.num_page_queue ++ ((a.num_pages + 8) ∷ [])
    → Fits p (a, w)
    → Fits (record p { num_threads = p.num_threads + 1 }) (b, w)
Fits-fork p a b w small n q (f, c) = (
  λ x. byte x,
  omega (arith, c, ap length q, length-append a.num_page_queue ((a.num_pages + 8) ∷ [])),
)
  where
    byte :
        (x : ℕ)
        → (covered x p (b, w) ≤ 1)
          × (0 < covered x p (b, w) → (1024 ≤ x) × (x < b.num_pages * page_size + 1024))
    byte x =
        let (one, inside) = f x in
        let e = ap (λ l. covers x (map start_of l)) q in
        let g = covers-queue x (a.num_pages + 8) a.num_page_queue in
        let h = new_stack x (a.num_pages + 8) (omega arith) small in
        elim (Bool-cases
          (leb ((a.num_pages + 8) * page_size) x && ltb x ((a.num_pages + 8) * page_size + 1024))) [
            | inl new ↦ ground (arith, e, g, h, n)
            | inr elsewhere ↦ ground (arith, e, g, h, n)
          ]

-- A thread takes the stack that is first in the queue.
pub Fits-take :
    (n : ℕ) (rest : List ℕ) (p : Process) (a b : AddrSpace) (w : List ℕ)
    → a.num_page_queue ≡ n ∷ rest
    → b.num_pages ≡ a.num_pages
    → b.num_page_queue ≡ rest
    → Fits p (a, w)
    → Fits p (b, start_of n ∷ w)
unfolding covers
Fits-take n rest p a b w q e r (f, c) =
    Fits-by p p (a, w) (b, start_of n ∷ w)
      (λ x.
        omega (arith, ap (λ l. covers x (map start_of l)) q, ap (λ l. covers x (map start_of l)) r))
      e (omega (arith, c, ap length q, ap length r)) (f, c)

-- A stack that a thread has taken is entered in the table.
pub Fits-enter :
    (thread s : ℕ) (p : Process) (a : AddrSpace) (w w' : List ℕ)
    → ((x : ℕ) → covers x w ≡ covers x (s ∷ w'))
    → length w ≡ suc (length w')
    → Fits p (a, w)
    → Fits (push_stack thread s p) (a, w')
unfolding covers
Fits-enter thread s p a w w' e l (f, c) =
    Fits-by p (push_stack thread s p) (a, w) (a, w')
      (λ x. omega (arith, e x, covers-push x thread s p.thread_stacks)) refl
      (omega (arith, c, l, length-append p.thread_stacks ((thread, s) ∷ []))) (f, c)

-- Both at once.
pub Fits-push :
    (thread n : ℕ) (rest : List ℕ) (p : Process) (a b : AddrSpace) (w : List ℕ)
    → a.num_page_queue ≡ n ∷ rest
    → b.num_pages ≡ a.num_pages
    → b.num_page_queue ≡ rest
    → Fits p (a, w)
    → Fits (push_stack thread (start_of n) p) (b, w)
Fits-push thread n rest p a b w q e r h =
    Fits-enter thread (start_of n) p b (start_of n ∷ w) w (λ x. refl) refl
      (Fits-take n rest p a b w q e r h)

-- A thread leaves: its stack is no longer in use.
pub Fits-leave :
    (thread : ℕ) (p : Process) (a b : AddrSpace) (w : List ℕ)
    → b.num_pages ≡ a.num_pages
    → b.num_page_queue ≡ a.num_page_queue
    → length p.thread_stacks ≡ length (erase_stack thread p.thread_stacks) + 1
    → Fits p (a, w)
    → Fits (leave_process thread p) (b, w)
Fits-leave thread p a b w n q l (f, c) =
    Fits-by p (leave_process thread p) (a, w) (b, w)
      (λ x.
        omega (arith, covers-erase x thread p.thread_stacks, ap (λ m. covers x (map start_of m)) q))
      n (omega (arith, c, l, ap length q)) (f, c)

pub Fits-same :
    (p : Process) (a b : AddrSpace) (w : List ℕ)
    → b.num_pages ≡ a.num_pages
    → b.num_page_queue ≡ a.num_page_queue
    → Fits p (a, w)
    → Fits p (b, w)
Fits-same p a b w n q (f, c) =
    Fits-by p p (a, w) (b, w) (λ x. omega (arith, ap (λ m. covers x (map start_of m)) q)) n
      (omega (arith, c, ap length q)) (f, c)

-- A new process, with its stack in the queue.
pub Fits-new :
    (p : Process) (a : AddrSpace)
    → p.thread_stacks ≡ []
    → p.num_threads ≡ 1
    → a.num_page_queue ≡ a.num_pages ∷ []
    → 8 ≤ a.num_pages
    → a.num_pages * page_size < 2 ^ 32
    → Fits p (a, [])
unfolding covers
Fits-new p a v t q low high = (λ x. byte x, omega (arith, t, ap length v, ap length q))
  where
    byte :
        (x : ℕ)
        → (covered x p (a, []) ≤ 1)
          × (0 < covered x p (a, []) → (1024 ≤ x) × (x < a.num_pages * page_size + 1024))
    byte x =
        let e = ap (λ l. covers x (map start_of l)) q in
        let f = ap (λ l. covers x (starts l)) v in
        let g = new_stack x a.num_pages low high in
        elim (Bool-cases
          (leb (a.num_pages * page_size) x && ltb x (a.num_pages * page_size + 1024))) [
            | inl new ↦ ground (arith, e, f, g)
            | inr elsewhere ↦ ground (arith, e, f, g)
          ]
