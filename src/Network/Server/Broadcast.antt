-- ===== src/Network/Server/Broadcast.antt =====
-- network/nettest.cc:298-321: what the loop of `Broadcast` comes to.
use project.Prelude.{
  ◌+◌, ◌-◌, ◌≡◌, refl, ap, ◌∙◌, true, eq_ℤ, eq_ℤ_refl, slot-in_table, in_table, if◌then◌else◌, List,
  [], ◌∷◌, ◌++◌, append_assoc, append-nil, length, ℤ, ok, arith, slot, some, slot-set_slot,
  set_slot-set_slot, set_slot_self,
}
use project.Network.Server.State.{
  Server, ServerLock, ServerCv, ReplyMsg, put_cv, put_lock, delete_cv,
}
use project.Network.Server.Locks.{remove}
use project.Network.Server.Conditions.{move_waiter, move_waiters, broadcast}

-- The variable without its waiters, and the lock with them behind its own.
abbrev pub emptied : ServerCv → ServerCv
emptied c = record c { num_waiters = 0; wait_queue = [] }

abbrev pub joined : ServerLock → List ReplyMsg → ServerLock
joined l ms = record l { num_waiters = l.num_waiters + length ms; wait_queue = l.wait_queue ++ ms }

move_waiter-cons :
    (cond lock : ℤ) (s : Server) (c : ServerCv) (l : ServerLock) (m : ReplyMsg) (ms : List ReplyMsg)
    → slot cond s.cvs ≡ ok c
    → slot lock s.locks ≡ ok l
    → c.wait_queue ≡ m ∷ ms
    → move_waiter cond lock s
      ≡ ok (
          put_cv cond
            (record c { num_waiters = c.num_waiters - 1; wait_queue = ms })
            (put_lock lock
              (record l { num_waiters = l.num_waiters + 1; wait_queue = l.wait_queue ++ m ∷ [] })
              s))
unfolding move_waiter remove
move_waiter-cons cond lock s c l m ms ec el eq = ground arith

-- The loop empties the queue of the variable, in order, onto that of the lock.
pub move_waiters_lem :
    (ms : List ReplyMsg) (cond lock : ℤ) (s : Server) (c : ServerCv) (l : ServerLock)
    → slot cond s.cvs ≡ ok c
    → slot lock s.locks ≡ ok l
    → c.wait_queue ≡ ms
    → c.num_waiters ≡ length ms
    → move_waiters (length ms) cond lock s
      ≡ ok (put_cv cond (emptied c) (put_lock lock (joined l ms) s))
unfolding move_waiters
move_waiters_lem [] cond lock s c l ec el eq en =
    ground (arith, set_slot_self cond s.cvs, set_slot_self lock s.locks, append-nil l.wait_queue)
move_waiters_lem (m ∷ ms) cond lock s c l ec el eq en =
    let c' : ServerCv = record c { num_waiters = c.num_waiters - 1; wait_queue = ms } in
    let l' : ServerLock = record l {
      num_waiters = l.num_waiters + 1;
      wait_queue = l.wait_queue ++ m ∷ [];
    } in
    let s' : Server = put_cv cond c' (put_lock lock l' s) in
    rw (move_waiter-cons cond lock s c l m ms ec el eq) (
      ground (
        arith,
        move_waiters_lem ms cond lock s' c' l',
        slot-set_slot cond s.cvs c',
        slot-set_slot lock s.locks l',
        set_slot-set_slot cond s.cvs (some (emptied c)) (some c'),
        set_slot-set_slot lock s.locks (some (joined l (m ∷ ms))) (some l'),
        append_assoc l.wait_queue (m ∷ []) ms,
      ))

-- A broadcast on a variable, with the lock that its waiters gave, moves all its waiters behind those of
-- the lock, in order, and deletes the variable if this was to be; none of them is answered yet.
pub broadcast-joined :
    (cond lock : ℤ) (s : Server) (c : ServerCv) (l : ServerLock)
    → slot cond s.cvs ≡ ok c
    → slot lock s.locks ≡ ok l
    → c.server_lock_index ≡ lock
    → c.num_waiters ≡ length c.wait_queue
    → broadcast cond lock s
      ≡ ok (
          let t : Server = put_cv cond (emptied c) (put_lock lock (joined l c.wait_queue) s) in
          if c.to_be_deleted then delete_cv cond t else t)
unfolding broadcast
broadcast-joined cond lock s c l ec el ei en =
    let t : Server = put_cv cond (emptied c) (put_lock lock (joined l c.wait_queue) s) in
    let moved : move_waiters c.num_waiters cond lock s ≡ ok t =
      rw en (move_waiters_lem c.wait_queue cond lock s c l ec el refl en) in
    rw (in_cvs, ec, the_lock, moved) refl
  where
    in_cvs : in_table cond s.cvs ≡ true
    in_cvs = ground (arith, slot-in_table cond s.cvs, ec)

    the_lock : eq_ℤ c.server_lock_index lock ≡ true
    the_lock = ap (λ i. eq_ℤ i lock) ei ∙ eq_ℤ_refl lock
