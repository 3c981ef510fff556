-- ===== src/Network/Server/Invariant/OfConditions.antt =====
-- The operations on condition variables keep the invariant.
use project.Prelude.{
  ℕ, ◌+◌, ◌-◌, ◌≡◌, refl, true, false, List, [], ◌∷◌, ◌++◌, length-append, ℤ, minus_one, Holds,
  ◌>>=◌, ok, arith, some, none, inl, inr, Result-cases, slot, slot-AllLive, set_slot,
  set_slot-AllLive, delete_slot-AllLive, push-AllLive, slot-set_slot, set_slot-set_slot,
}
use project.Network.Server.State.{Server, ServerLock, ServerCv, put_cv, put_lock}
use project.Network.Server.Locks.{remove}
use project.Network.Server.Conditions.{
  find_cv, create_cv, move_waiter, reap_cv, signal, broadcast, wait, destroy_cv,
}
use project.Network.Server.Broadcast.{emptied, joined, move_waiters_lem}
use project.Network.Server.Requests.{Request, kept_reply}
use project.Network.Server.Handlers.{join_cv}
use project.Network.Server.Invariant.Defs.{Inv, LockInv, CvInv}
use project.Network.Server.Invariant.OfLocks.{remove-length, put_lock-Inv, hand_over-Inv}

pub put_cv-Inv :
    (i : ℤ) (c : ServerCv) (s : Server)
    → Inv s
    → CvInv c
    → Inv (record s { cvs = set_slot i (some c) s.cvs })
put_cv-Inv i c s v h = record {
  locks = v.locks;
  cvs = set_slot-AllLive CvInv i c s.cvs v.cvs h;
  mvs = v.mvs;
}

pub delete_cv-Inv : (i : ℤ) (s : Server) → Inv s → Inv (record s { cvs = set_slot i none s.cvs })
delete_cv-Inv i s v = record {
  locks = v.locks;
  cvs = delete_slot-AllLive CvInv i s.cvs v.cvs;
  mvs = v.mvs;
}

pub create_cv-Inv : (name : List ℕ) (s : Server) → Inv s → Holds (λ x. Inv x.1) (create_cv name s)
unfolding create_cv
create_cv-Inv name s v = elim (Result-cases (find_cv name 0 s.cvs)) [
  | inl (none, e) ↦
      rw (e, create_cv)
        record {
          locks = v.locks;
          cvs = push-AllLive CvInv _ s.cvs v.cvs (record { counted = refl; doomed = λ h. cc });
          mvs = v.mvs;
        }
  | inl (some i, e) ↦ rw (e, create_cv) v
  | inr (f, e) ↦ ground arith
]

-- Both objects that a signal changes.
put_both-Inv :
    (cond lock : ℤ) (c : ServerCv) (l : ServerLock) (s : Server)
    → Inv s
    → CvInv c
    → LockInv l
    → Inv (put_cv cond c (put_lock lock l s))
put_both-Inv cond lock c l s v hc hl = put_cv-Inv cond c _ (put_lock-Inv lock l s v hl) hc

delete_both-Inv :
    (cond lock : ℤ) (c : ServerCv) (l : ServerLock) (s : Server)
    → Inv s
    → LockInv l
    → Inv (record s {
      cvs = set_slot cond none (set_slot cond (some c) s.cvs);
      locks = set_slot lock (some l) s.locks;
    })
delete_both-Inv cond lock c l s v hl =
    rw (set_slot-set_slot cond s.cvs none (some c))
      (delete_cv-Inv cond _ (put_lock-Inv lock l s v hl))

-- The lock at `lock` is held by somebody.
module _ (cond lock : ℤ) (s : Server) (v : Inv s) (l : ServerLock) (el : slot lock s.locks ≡ ok l)
    (busy : l.available ≡ false) where
  -- A signal to a variable that has waiters.
  move_one-Inv :
      (c : ServerCv) → slot cond s.cvs ≡ ok c → Holds Inv (move_waiter cond lock s >>= reap_cv cond)
  unfolding move_waiter reap_cv
  move_one-Inv c ec = elim (Result-cases (remove c.wait_queue)) [
    | inl (x, ex) ↦
        let c' : ServerCv = record c { num_waiters = c.num_waiters - 1; wait_queue = x.1 } in
        let l' : ServerLock = record l {
          num_waiters = l.num_waiters + 1;
          wait_queue = l.wait_queue ++ x.0 ∷ [];
        } in
        ground (
          arith,
          slot-AllLive CvInv cond s.cvs v.cvs,
          slot-AllLive LockInv lock s.locks v.locks,
          remove-length c.wait_queue,
          length-append l.wait_queue (x.0 ∷ []),
          slot-set_slot cond s.cvs c',
          put_both-Inv cond lock c' l' s v,
          delete_both-Inv cond lock c' l' s v,
        )
    | inr (f, ex) ↦ ground arith
  ]

  pub signal-Inv : Holds Inv (signal cond lock s)
  unfolding signal
  signal-Inv = elim (Result-cases (slot cond s.cvs)) [
    | inl (c, ec) ↦ ground (arith, move_one-Inv c ec, delete_cv-Inv cond s v)
    | inr (f, ec) ↦ ground arith
  ]

  pub broadcast-Inv : Holds Inv (broadcast cond lock s)
  unfolding broadcast
  broadcast-Inv = elim (Result-cases (slot cond s.cvs)) [
    | inl (c, ec) ↦
        let l' : ServerLock = joined l c.wait_queue in
        ground (
          arith,
          slot-AllLive CvInv cond s.cvs v.cvs,
          slot-AllLive LockInv lock s.locks v.locks,
          length-append l.wait_queue c.wait_queue,
          move_waiters_lem c.wait_queue cond lock s c l ec el refl,
          put_both-Inv cond lock (emptied c) l' s v,
          delete_both-Inv cond lock (emptied c) l' s v,
        )
    | inr (f, ec) ↦ ground arith
  ]

  pub wait-Inv : Holds Inv (wait cond lock s)
  unfolding wait
  wait-Inv = elim (Result-cases (slot cond s.cvs)) [
    | inl (c, ec) ↦
        let c' : ServerCv = record c { server_lock_index = lock } in
        ground (
          arith,
          slot-AllLive CvInv cond s.cvs v.cvs,
          slot-AllLive LockInv lock s.locks v.locks,
          put_cv-Inv cond c' s v,
          put_both-Inv cond lock c' (record l { owner = minus_one; available = true }) s v,
          hand_over-Inv lock l (put_cv cond c' s),
        )
    | inr (f, ec) ↦ ground arith
  ]

pub destroy_cv-Inv : (i : ℤ) (s : Server) → Inv s → Holds Inv (destroy_cv i s)
unfolding destroy_cv
destroy_cv-Inv i s v = elim (Result-cases (slot i s.cvs)) [
  | inl (c, e) ↦ ground (
    arith,
    slot-AllLive CvInv i s.cvs v.cvs,
    put_cv-Inv i (record c { to_be_deleted = true }) s v,
    delete_cv-Inv i s v,
  )
  | inr (f, e) ↦ ground arith
]

pub join_cv-Inv : (i : ℤ) (r : Request) (s : Server) → Inv s → Holds Inv (join_cv i r s)
unfolding join_cv
join_cv-Inv i r s v = elim (Result-cases (slot i s.cvs)) [
  | inl (c, e) ↦ ground (
    arith,
    slot-AllLive CvInv i s.cvs v.cvs,
    length-append c.wait_queue (kept_reply r ∷ []),
    put_cv-Inv i
        (record c {
          num_waiters = c.num_waiters + 1;
          wait_queue = c.wait_queue ++ kept_reply r ∷ [];
        })
        s v,
  )
  | inr (f, e) ↦ ground arith
]
