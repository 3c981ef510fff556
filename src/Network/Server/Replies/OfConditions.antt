-- ===== src/Network/Server/Replies/OfConditions.antt =====
-- The operations on condition variables lose no reply and add none.
use project.Prelude.{
  ◌+◌, ◌-◌, ◌≡◌, refl, true, [], ◌∷◌, ◌++◌, ℤ, pos, minus_one, Holds, ◌>>=◌, ok, arith, some, none,
  inl, inr, Result-cases, slot, slot-AllLive, slot-set_slot, set_slot-total, set_slot-set_slot,
}
use project.Network.Server.State.{Server, ServerLock, ServerCv, put_lock, put_cv, delete_cv}
use project.Network.Server.Locks.{remove}
use project.Network.Server.Conditions.{move_waiter, reap_cv, signal, broadcast, wait, destroy_cv}
use project.Network.Server.Broadcast.{emptied, joined, move_waiters_lem}
use project.Network.Server.Requests.{Request, kept_reply}
use project.Network.Server.Handlers.{join_cv}
use project.Network.Server.Invariant.{Inv, CvInv, remove-length}
use project.Network.Server.Replies.Defs.{
  hit, on_lock, on_cv, replies, queued-append, queued-one, remove-queued, queued-none,
}
use project.Network.Server.Replies.OfLocks.{put_lock-replies, hand_over-replies}

module _ (machine box : ℤ) where
  put_cv-replies :
      (i : ℤ) (c d : ServerCv) (s : Server)
      → slot i s.cvs ≡ ok c
      → replies machine box (put_cv i d s) + on_cv machine box c
        ≡ replies machine box s + on_cv machine box d
  unfolding replies
  put_cv-replies i c d s e = ground (arith, set_slot-total (on_cv machine box) (some d) i s.cvs)

  delete_cv-replies :
      (i : ℤ) (c : ServerCv) (s : Server)
      → slot i s.cvs ≡ ok c
      → on_cv machine box c ≡ 0
      → replies machine box (delete_cv i s) ≡ replies machine box s
  unfolding replies
  delete_cv-replies i c s e h = ground (arith, set_slot-total (on_cv machine box) none i s.cvs)

  -- What a signal moves from the queue of the variable to that of the lock.
  put_both-replies :
      (cond lock : ℤ) (c d : ServerCv) (k l : ServerLock) (s : Server)
      → slot cond s.cvs ≡ ok c
      → slot lock s.locks ≡ ok k
      → on_cv machine box d + on_lock machine box l ≡ on_cv machine box c + on_lock machine box k
      → replies machine box (put_cv cond d (put_lock lock l s)) ≡ replies machine box s
  put_both-replies cond lock c d k l s ec el h = omega (
    arith,
    put_lock-replies machine box lock k l s el,
    put_cv-replies cond c d (put_lock lock l s) ec,
  )

  -- The same, and the variable is deleted with an empty queue.
  delete_both-replies :
      (cond lock : ℤ) (c d : ServerCv) (k l : ServerLock) (s : Server)
      → slot cond s.cvs ≡ ok c
      → slot lock s.locks ≡ ok k
      → on_lock machine box l ≡ on_cv machine box c + on_lock machine box k
      → replies machine box (delete_cv cond (put_cv cond d (put_lock lock l s)))
        ≡ replies machine box s
  unfolding replies
  delete_both-replies cond lock c d k l s ec el h =
      rw (set_slot-set_slot cond s.cvs none (some d)) (
        ground (
          arith,
          set_slot-total (on_lock machine box) (some l) lock s.locks,
          set_slot-total (on_cv machine box) none cond s.cvs,
        ))

  pub destroy_cv-replies :
      (i : ℤ) (s : Server)
      → Inv s
      → Holds (λ t. replies machine box t ≡ replies machine box s) (destroy_cv i s)
  unfolding destroy_cv
  destroy_cv-replies i s v = elim (Result-cases (slot i s.cvs)) [
    | inl (c, e) ↦ ground (
      arith,
      slot-AllLive CvInv i s.cvs v.cvs,
      put_cv-replies i c (record c { to_be_deleted = true }) s e,
      delete_cv-replies i c s e,
      queued-none machine box c.wait_queue,
    )
    | inr (f, e) ↦ ground arith
  ]

  pub join_cv-replies :
      (i : ℤ) (r : Request) (s : Server)
      → Holds
          (λ t.
            replies machine box t
            ≡ replies machine box s + hit machine box (pos r.from_machine) (pos r.from_box))
          (join_cv i r s)
  unfolding join_cv
  join_cv-replies i r s = elim (Result-cases (slot i s.cvs)) [
    | inl (c, e) ↦ ground (
      arith,
      queued-append machine box c.wait_queue (kept_reply r ∷ []),
      queued-one machine box (kept_reply r),
      put_cv-replies i c
          (record c {
            num_waiters = c.num_waiters + 1;
            wait_queue = c.wait_queue ++ kept_reply r ∷ [];
          })
          s e,
    )
    | inr (f, e) ↦ ground arith
  ]

  module _ (cond lock : ℤ) (s : Server) (v : Inv s) (l : ServerLock)
      (el : slot lock s.locks ≡ ok l) where
    move_one-replies :
        (c : ServerCv)
        → slot cond s.cvs ≡ ok c
        → Holds
            (λ t. replies machine box t ≡ replies machine box s)
            (move_waiter cond lock s >>= reap_cv cond)
    unfolding move_waiter reap_cv
    move_one-replies c ec = elim (Result-cases (remove c.wait_queue)) [
      | inl (x, ex) ↦
          let c' : ServerCv = record c { num_waiters = c.num_waiters - 1; wait_queue = x.1 } in
          let l' : ServerLock = record l {
            num_waiters = l.num_waiters + 1;
            wait_queue = l.wait_queue ++ x.0 ∷ [];
          } in
          ground (
            arith,
            slot-AllLive CvInv cond s.cvs v.cvs,
            remove-length c.wait_queue,
            remove-queued machine box c.wait_queue,
            queued-none machine box x.1,
            queued-append machine box l.wait_queue (x.0 ∷ []),
            queued-one machine box x.0,
            slot-set_slot cond s.cvs c',
            put_both-replies cond lock c c' l l' s ec el,
            delete_both-replies cond lock c c' l l' s ec el,
          )
      | inr (f, ex) ↦ ground arith
    ]

    pub signal-replies :
        Holds (λ t. replies machine box t ≡ replies machine box s) (signal cond lock s)
    unfolding signal
    signal-replies = elim (Result-cases (slot cond s.cvs)) [
      | inl (c, ec) ↦ ground (
        arith,
        slot-AllLive CvInv cond s.cvs v.cvs,
        move_one-replies c ec,
        delete_cv-replies cond c s ec,
        queued-none machine box c.wait_queue,
      )
      | inr (f, ec) ↦ ground arith
    ]

    pub broadcast-replies :
        Holds (λ t. replies machine box t ≡ replies machine box s) (broadcast cond lock s)
    unfolding broadcast
    broadcast-replies = elim (Result-cases (slot cond s.cvs)) [
      | inl (c, ec) ↦
          let l' : ServerLock = joined l c.wait_queue in
          ground (
            arith,
            slot-AllLive CvInv cond s.cvs v.cvs,
            queued-append machine box l.wait_queue c.wait_queue,
            queued-none machine box [],
            move_waiters_lem c.wait_queue cond lock s c l ec el refl,
            put_both-replies cond lock c (emptied c) l l' s ec el,
            delete_both-replies cond lock c (emptied c) l l' s ec el,
          )
      | inr (f, ec) ↦ ground arith
    ]

    pub wait-replies : Holds (λ t. replies machine box t ≡ replies machine box s) (wait cond lock s)
    unfolding wait
    wait-replies = elim (Result-cases (slot cond s.cvs)) [
      | inl (c, ec) ↦
          let c' : ServerCv = record c { server_lock_index = lock } in
          let free : ServerLock = record l { owner = minus_one; available = true } in
          ground (
            arith,
            put_cv-replies cond c c' s ec,
            put_lock-replies machine box lock l free (put_cv cond c' s) el,
            hand_over-replies machine box lock l (put_cv cond c' s) el,
          )
      | inr (f, ec) ↦ ground arith
    ]
