-- ===== src/Threads/Locks/Invariant.antt =====
-- threads/synch.cc: what holds of a lock and of the threads that use it, whatever steps they make.
use project.Prelude.{
  ℕ, ◌+◌, ◌≤◌, ◌≡◌, refl, ap, sym, subst, ◌∙◌, inl, inr, List, [], ◌∷◌, ◌++◌, Option, none, some,
  true, false, ◌==◌, ==_iff, if◌then◌else◌, Bool-cases, arith,
}
use project.Threads.Locks.{Lock, new_lock, is_held_by, acquire, pass_on, release}
use project.Threads.Locks.Worlds.{
  Status, outside, asleep, inside, World, update, enter, wake, leave, entering, leaving, Reachable,
  start, after, occurrences, is_asleep, is_inside,
}

-- The thread inside is the owner, each thread that sleeps is once in the queue, and a free lock has
-- neither owner nor queue.
pub record Inv (w : World) : Type 0 where
  pub owner_inside : (t : ℕ) → is_inside (w.status t) ≡ is_held_by t w.lock.owner
  pub queue_asleep : (t : ℕ) → occurrences t w.lock.wait_queue ≡ is_asleep (w.status t)
  pub free_owner : w.lock.busy ≡ false → w.lock.owner ≡ none
  pub free_queue : w.lock.busy ≡ false → w.lock.wait_queue ≡ []
  pub busy_owner : w.lock.busy ≡ true → (t : ℕ) × (w.lock.owner ≡ some t)

occurrences-append :
    (t u : ℕ) (q : List ℕ)
    → occurrences t (q ++ (u ∷ [])) ≡ occurrences t q + (if u == t then 1 else 0)
unfolding occurrences
occurrences-append t u [] = omega arith
occurrences-append t u (x ∷ q) = omega (arith, occurrences-append t u q)

-- The world after one thread has changed its status and the lock its state.
abbrev changed : ℕ → Status → Lock → World → World
changed t x l w = record { lock = l; status = update t x w.status }

acquire-busy :
    (t : ℕ) (l : Lock)
    → is_held_by t l.owner ≡ false
    → l.busy ≡ true
    → acquire t l ≡ (false, record l { wait_queue = l.wait_queue ++ (t ∷ []) })
unfolding acquire
acquire-busy t l h b = rw (h, b) refl

acquire-free :
    (t : ℕ) (l : Lock)
    → is_held_by t l.owner ≡ false
    → l.busy ≡ false
    → acquire t l ≡ (true, record l { busy = true; owner = some t })
unfolding acquire
acquire-free t l h b = rw (h, b) refl

sleeps-Inv :
    (t : ℕ) (w : World)
    → w.status t ≡ outside
    → is_held_by t w.lock.owner ≡ false
    → w.lock.busy ≡ true
    → Inv w
    → Inv (changed t asleep (record w.lock { wait_queue = w.lock.wait_queue ++ (t ∷ []) }) w)
sleeps-Inv t w o h b v = record {
  owner_inside = λ u. elim (Bool-cases (t == u)) [
    | inl same ↦
        let e : t ≡ u = ground (arith, same) in
        rw same (sym (subst (λ x. is_held_by x w.lock.owner ≡ false) e h))
    | inr other ↦ rw other (v.owner_inside u)
  ];
  queue_asleep = λ u. elim (Bool-cases (t == u)) [
    | inl same ↦
        let e : t ≡ u = ground (arith, same) in
        rw (occurrences-append u t w.lock.wait_queue, same)
          (omega (
            arith,
            subst (λ x. occurrences x w.lock.wait_queue ≡ 0) e (v.queue_asleep t ∙ ap is_asleep o),
          ))
    | inr other ↦
        rw (occurrences-append u t w.lock.wait_queue, other) (omega (arith, v.queue_asleep u))
  ];
  free_owner = λ f. v.free_owner f;
  free_queue = λ f. absurd (ground (arith, f, b));
  busy_owner = λ f. v.busy_owner f;
}

takes-Inv :
    (t : ℕ) (w : World)
    → w.status t ≡ outside
    → w.lock.busy ≡ false
    → Inv w
    → Inv (changed t inside (record w.lock { busy = true; owner = some t }) w)
unfolding is_held_by
takes-Inv t w o b v = record {
  owner_inside = λ u. elim (Bool-cases (t == u)) [
    | inl same ↦ rw same refl
    | inr other ↦ rw other (v.owner_inside u ∙ ap (is_held_by u) (v.free_owner b))
  ];
  queue_asleep = λ u. elim (Bool-cases (t == u)) [
    | inl same ↦
        let e : t ≡ u = ground (arith, same) in
        rw same
          (subst (λ x. occurrences x w.lock.wait_queue ≡ 0) e (v.queue_asleep t ∙ ap is_asleep o))
    | inr other ↦ rw other (v.queue_asleep u)
  ];
  free_owner = λ f. absurd (ground (arith, f));
  free_queue = λ f. absurd (ground (arith, f));
  busy_owner = λ f. (t, refl);
}

enter-Inv : (t : ℕ) (w : World) → w.status t ≡ outside → Inv w → Inv (enter t w)
unfolding enter
enter-Inv t w o v = elim (Bool-cases w.lock.busy) [
  | inl b ↦ rw (acquire-busy t w.lock not_held b) (sleeps-Inv t w o not_held b v)
  | inr b ↦ rw (acquire-free t w.lock not_held b) (takes-Inv t w o b v)
]
  where
    not_held : is_held_by t w.lock.owner ≡ false
    not_held = sym (v.owner_inside t) ∙ ap is_inside o

held-owner : (t : ℕ) (o : Option ℕ) → is_held_by t o ≡ true → o ≡ some t
unfolding is_held_by
held-owner t none h = absurd (ground (arith, h))
held-owner t (some u) h = ap some ((==_iff u t).0 h)

is_asleep-le-one : (x : Status) → is_asleep x ≤ 1
is_asleep-le-one outside = omega arith
is_asleep-le-one asleep = omega arith
is_asleep-le-one inside = omega arith

module _ (t : ℕ) (w : World) (i : w.status t ≡ inside) (v : Inv w) where
  held : is_held_by t w.lock.owner ≡ true
  held = sym (v.owner_inside t) ∙ ap is_inside i

  owned : w.lock.owner ≡ some t
  owned = held-owner t w.lock.owner held

  -- Only `t` is inside.
  pub only : (u : ℕ) → is_inside (w.status u) ≡ (t == u)
  unfolding is_held_by
  only u = v.owner_inside u ∙ ap (is_held_by u) owned

  frees-Inv :
      w.lock.wait_queue ≡ []
      → Inv (changed t outside (record w.lock { busy = false; owner = none }) w)
  unfolding is_held_by occurrences
  frees-Inv q = record {
    owner_inside = λ u. elim (Bool-cases (t == u)) [
      | inl same ↦ rw same refl
      | inr other ↦ rw other (only u ∙ other)
    ];
    queue_asleep = λ u. elim (Bool-cases (t == u)) [
      | inl same ↦ rw same (ap (occurrences u) q)
      | inr other ↦ rw other (v.queue_asleep u)
    ];
    free_owner = λ f. refl;
    free_queue = λ f. q;
    busy_owner = λ f. absurd (ground (arith, f));
  }

  passes-Inv :
      (x : ℕ) (xs : List ℕ)
      → w.lock.wait_queue ≡ x ∷ xs
      → Inv (record {
        lock = record w.lock { wait_queue = xs; owner = some x };
        status = update x inside (update t outside w.status);
      })
  unfolding is_held_by occurrences
  passes-Inv x xs q = record {
    owner_inside = λ u. elim (Bool-cases (x == u)) [
      | inl next ↦ rw next refl
      | inr later ↦ rw later (elim (Bool-cases (t == u)) [
        | inl same ↦ rw same refl
        | inr other ↦ rw other (only u ∙ other)
      ])
    ];
    queue_asleep = λ u.
        let before : occurrences u w.lock.wait_queue
            ≡ (if x == u then 1 else 0) + occurrences u xs =
          ap (occurrences u) q in
        elim (Bool-cases (x == u)) [
          | inl next ↦
              rw next
                (ground (arith, next, before, v.queue_asleep u, is_asleep-le-one (w.status u)))
          | inr later ↦ rw later (elim (Bool-cases (t == u)) [
            | inl same ↦
                let e : t ≡ u = ground (arith, same) in
                rw same (
                  ground (
                    arith,
                    later,
                    before,
                    v.queue_asleep u,
                    ap is_asleep (subst (λ y. w.status y ≡ inside) e i),
                  ))
            | inr other ↦ rw other (ground (arith, later, before, v.queue_asleep u))
          ])
        ];
    free_owner = λ f. absurd (busy f);
    free_queue = λ f. absurd (busy f);
    busy_owner = λ f. (x, refl);
  }
    where
      busy : (w.lock.busy ≡ false) → ⊥
      busy f = ground (arith, sym owned ∙ v.free_owner f)

  leave-Inv : Inv (leave t w)
  unfolding leave release
  leave-Inv = rw held (by_queue w.lock.wait_queue refl)
    where
      by_queue :
          (q : List ℕ)
          → w.lock.wait_queue ≡ q
          → Inv (record {
            lock = (pass_on q w.lock).1;
            status = wake (pass_on q w.lock).0 (update t outside w.status);
          })
      by_queue [] e = frees-Inv e
      by_queue (x ∷ xs) e = passes-Inv x xs e

start-Inv : Inv (record { lock = new_lock; status = λ t. outside })
unfolding is_held_by occurrences
start-Inv = record {
  owner_inside = λ t. refl;
  queue_asleep = λ t. refl;
  free_owner = λ f. refl;
  free_queue = λ f. refl;
  busy_owner = λ f. absurd (ground (arith, f));
}

pub Reachable-Inv : {w : World} → Reachable w → Inv w
Reachable-Inv start = start-Inv
Reachable-Inv (after {w = w} r (entering t o)) = enter-Inv t w o (Reachable-Inv r)
Reachable-Inv (after {w = w} r (leaving t i)) = leave-Inv t w i (Reachable-Inv r)
