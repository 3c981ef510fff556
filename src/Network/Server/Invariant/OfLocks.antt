-- ===== src/Network/Server/Invariant/OfLocks.antt =====
-- The operations on locks keep the invariant.
use project.Prelude.{
  ℕ, suc, ◌+◌, ◌-◌, ◌≡◌, refl, true, false, List, [], ◌∷◌, ◌++◌, length, length-append, ℤ,
  minus_one, AllLive, Holds, Result, ok, fault, arith, Option, some, none, Bool-cases, inl, inr,
  Result-cases, slot, slot-AllLive, set_slot-AllLive, delete_slot-AllLive, push-AllLive,
  slot-set_slot, pos,
}
use project.Network.Server.State.{put_lock, Server, ServerLock, ReplyMsg}
use project.Network.Server.Locks.{create_lock, destroy_lock, release, hand_over, remove}
use project.Network.Server.Requests.{Request, arg, kept_reply, reply, ack}
use project.Network.Server.Handlers.{on_acquire}
use project.Network.Server.Invariant.Defs.{Inv, LockInv, send_reply-Inv, reply-Inv}

pub create_lock-Inv : (name : List ℕ) (s : Server) → Inv s → Inv (create_lock name s).1
unfolding create_lock
create_lock-Inv name s v = record {
  locks =
      push-AllLive LockInv _ s.locks v.locks
        (record { counted = refl; free = λ h. refl; idle = λ h. refl });
  cvs = v.cvs;
  mvs = v.mvs;
}

-- The invariant after a lock has got a new state, or is gone.
pub put_lock-Inv :
    (i : ℤ) (l : ServerLock) (s : Server)
    → Inv s
    → LockInv l
    → Inv (record s { locks = project.Prelude.set_slot i (some l) s.locks })
put_lock-Inv i l s v h = record {
  locks = set_slot-AllLive LockInv i l s.locks v.locks h;
  cvs = v.cvs;
  mvs = v.mvs;
}

pub delete_lock-Inv :
    (i : ℤ) (s : Server)
    → Inv s
    → Inv (record s { locks = project.Prelude.set_slot i none s.locks })
delete_lock-Inv i s v = record {
  locks = delete_slot-AllLive LockInv i s.locks v.locks;
  cvs = v.cvs;
  mvs = v.mvs;
}

pub destroy_lock-Inv : (i : ℤ) (s : Server) → Inv s → Holds Inv (destroy_lock i s)
unfolding destroy_lock
destroy_lock-Inv i s v = elim (Result-cases (slot i s.locks)) [
  | inl (l, e) ↦ ground (
    arith,
    slot-AllLive LockInv i s.locks v.locks,
    put_lock-Inv i (record l { to_be_deleted = true }) s v,
    delete_lock-Inv i s v,
  )
  | inr (f, e) ↦ ground arith
]

pub remove-length : (q : List ReplyMsg) → Holds (λ x. length q ≡ suc (length x.1)) (remove q)
unfolding remove
remove-length [] = tt
remove-length (m ∷ ms) = refl

pub hand_over-Inv :
    (i : ℤ) (l : ServerLock) (s : Server)
    → Inv s
    → LockInv l
    → l.available ≡ false
    → Holds Inv (hand_over i l s)
unfolding hand_over
hand_over-Inv i l s v h b = elim (Result-cases (remove l.wait_queue)) [
  | inl (x, e) ↦
      let l' : ServerLock = record l {
        num_waiters = l.num_waiters - 1;
        wait_queue = x.1;
        owner = x.0.id_to_send_to;
      } in
      let h' : LockInv l' = ground (arith, remove-length l.wait_queue) in
      ground (arith, send_reply-Inv x.0 (put_lock i l' s) (put_lock-Inv i l' s v h'))
  | inr (f, e) ↦ ground arith
]

pub release-Inv : (i : ℤ) (s : Server) → Inv s → Holds Inv (release i s)
unfolding release
release-Inv i s v = elim (Result-cases (slot i s.locks)) [
  | inl (l, e) ↦ ground (
    arith,
    slot-AllLive LockInv i s.locks v.locks,
    put_lock-Inv i (record l { owner = minus_one; available = true }) s v,
    delete_lock-Inv i s v,
    hand_over-Inv i l s v,
  )
  | inr (f, e) ↦ ground arith
]

-- The lock after `Acquire` has taken it, and after the handler has put in the owner.
granted-Inv :
    (r : Request) (l : ServerLock) (s : Server)
    → Inv s
    → slot (arg r 1) s.locks ≡ ok l
    → let taken : ServerLock = record l { available = false } in
      let s' : Server = put_lock (arg r 1) taken s in
      Holds Inv
        (reply r (ack ∷ []) (put_lock (arg r 1) (record taken { owner = pos r.from_machine }) s'))
granted-Inv r l s v e =
    let taken : ServerLock = record l { available = false } in
    let owned : ServerLock = record taken { owner = pos r.from_machine } in
    let h : LockInv l = ground (arith, slot-AllLive LockInv (arg r 1) s.locks v.locks) in
    let h' : LockInv taken = record { counted = h.counted; free = λ e. cc; idle = λ e. cc } in
    reply-Inv r (ack ∷ []) _ (
      put_lock-Inv (arg r 1) owned _ (put_lock-Inv (arg r 1) taken s v h')
        (record { counted = h.counted; free = λ e. cc; idle = λ e. cc }))

-- What `Acquire` answers decides between the two changes of the lock.
pub on_acquire-Inv : (r : Request) (s : Server) → Inv s → Holds Inv (on_acquire r s)
unfolding on_acquire
on_acquire-Inv r s v = elim (Result-cases (slot (arg r 1) s.locks)) [
  | inl (l, e) ↦ ground (
    arith,
    slot-AllLive LockInv (arg r 1) s.locks v.locks,
    slot-set_slot (arg r 1) s.locks (record l { available = false }),
    reply-Inv r (ack ∷ []) s v,
    put_lock-Inv (arg r 1)
        (record l {
          num_waiters = l.num_waiters + 1;
          wait_queue = l.wait_queue ++ kept_reply r ∷ [];
        })
        s v,
    length-append l.wait_queue (kept_reply r ∷ []),
    granted-Inv r l s v e,
  )
  | inr (f, e) ↦ ground (arith, reply-Inv r (ack ∷ []) s v)
]
