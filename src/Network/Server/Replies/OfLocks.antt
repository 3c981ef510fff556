-- ===== src/Network/Server/Replies/OfLocks.antt =====
-- The operations on locks lose no reply and add none.
use project.Prelude.{
  ◌+◌, ◌-◌, ◌≡◌, true, false, [], ◌∷◌, ◌++◌, ℤ, pos, minus_one, Holds, ok, arith, some, none, inl,
  inr, Result-cases, slot, slot-AllLive, slot-set_slot, set_slot-total,
}
use project.Network.Server.State.{Server, ServerLock, put_lock, delete_lock}
use project.Network.Server.Locks.{destroy_lock, release, hand_over, remove}
use project.Network.Server.Requests.{Request, arg, kept_reply, ack}
use project.Network.Server.Handlers.{on_acquire}
use project.Network.Server.Invariant.{Inv, LockInv}
use project.Network.Server.Replies.Defs.{
  hit, on_lock, replies, queued-append, queued-one, remove-queued, send_reply-replies, queued-none,
  reply-replies,
}

module _ (machine box : ℤ) where
  -- A lock whose queue is as long in replies as before.
  pub put_lock-replies :
      (i : ℤ) (k l : ServerLock) (s : Server)
      → slot i s.locks ≡ ok k
      → replies machine box (put_lock i l s) + on_lock machine box k
        ≡ replies machine box s + on_lock machine box l
  unfolding replies
  put_lock-replies i k l s e =
      ground (arith, set_slot-total (on_lock machine box) (some l) i s.locks)

  pub delete_lock-replies :
      (i : ℤ) (k : ServerLock) (s : Server)
      → slot i s.locks ≡ ok k
      → on_lock machine box k ≡ 0
      → replies machine box (delete_lock i s) ≡ replies machine box s
  unfolding replies
  delete_lock-replies i k s e h =
      ground (arith, set_slot-total (on_lock machine box) none i s.locks)

  pub destroy_lock-replies :
      (i : ℤ) (s : Server)
      → Inv s
      → Holds (λ t. replies machine box t ≡ replies machine box s) (destroy_lock i s)
  unfolding destroy_lock
  destroy_lock-replies i s v = elim (Result-cases (slot i s.locks)) [
    | inl (l, e) ↦ ground (
      arith,
      slot-AllLive LockInv i s.locks v.locks,
      put_lock-replies i l (record l { to_be_deleted = true }) s e,
      delete_lock-replies i l s e,
      queued-none machine box l.wait_queue,
    )
    | inr (f, e) ↦ ground arith
  ]

  -- The head of the queue is sent.
  pub hand_over-replies :
      (i : ℤ) (l : ServerLock) (s : Server)
      → slot i s.locks ≡ ok l
      → Holds (λ t. replies machine box t ≡ replies machine box s) (hand_over i l s)
  unfolding hand_over
  hand_over-replies i l s e = elim (Result-cases (remove l.wait_queue)) [
    | inl (x, ex) ↦
        let l' : ServerLock = record l {
          num_waiters = l.num_waiters - 1;
          wait_queue = x.1;
          owner = x.0.id_to_send_to;
        } in
        ground (
          arith,
          remove-queued machine box l.wait_queue,
          put_lock-replies i l l' s e,
          send_reply-replies machine box x.0 (put_lock i l' s),
        )
    | inr (f, ex) ↦ ground arith
  ]

  pub release-replies :
      (i : ℤ) (s : Server)
      → Inv s
      → Holds (λ t. replies machine box t ≡ replies machine box s) (release i s)
  unfolding release
  release-replies i s v = elim (Result-cases (slot i s.locks)) [
    | inl (l, e) ↦ ground (
      arith,
      slot-AllLive LockInv i s.locks v.locks,
      put_lock-replies i l (record l { owner = minus_one; available = true }) s e,
      delete_lock-replies i l s e,
      queued-none machine box l.wait_queue,
      hand_over-replies i l s e,
    )
    | inr (f, e) ↦ ground arith
  ]

  -- The client gets its reply at once, or joins the queue.
  pub on_acquire-replies :
      (r : Request) (s : Server)
      → Holds
          (λ t.
            replies machine box t
            ≡ replies machine box s + hit machine box (pos r.from_machine) (pos r.from_box))
          (on_acquire r s)
  unfolding on_acquire
  on_acquire-replies r s = elim (Result-cases (slot (arg r 1) s.locks)) [
    | inl (l, e) ↦
        let taken : ServerLock = record l { available = false } in
        let owned : ServerLock = record taken { owner = pos r.from_machine } in
        let waiting : ServerLock = record l {
          num_waiters = l.num_waiters + 1;
          wait_queue = l.wait_queue ++ kept_reply r ∷ [];
        } in
        ground (
          arith,
          slot-set_slot (arg r 1) s.locks taken,
          put_lock-replies (arg r 1) l taken s e,
          put_lock-replies (arg r 1) taken owned (put_lock (arg r 1) taken s),
          put_lock-replies (arg r 1) l waiting s e,
          queued-append machine box l.wait_queue (kept_reply r ∷ []),
          queued-one machine box (kept_reply r),
          reply-replies machine box r (ack ∷ []) s,
          reply-replies machine box r (ack ∷ [])
              (put_lock (arg r 1) owned (put_lock (arg r 1) taken s)),
        )
    | inr (f, e) ↦ ground (arith, reply-replies machine box r (ack ∷ []) s)
  ]
