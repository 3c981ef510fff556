-- ===== src/Network/Server/Locking.antt =====
-- network/nettest.cc: who holds a lock, and in which order the clients get it.
use project.Prelude.{
  ℕ, ◌+◌, ◌-◌, ◌<◌, ◌≡◌, ◌≢◌, refl, true, false, List, [], ◌∷◌, ◌++◌, ℤ, pos, minus_one, ok, ◌>>=◌,
  arith, some, slot, eq_ℤ, slot-set_slot, set_slot-set_slot, Holds, Returns, slot-set_slot_ne,
  if◌then◌else◌, inl, inr, Holds-bind, slot-AllLive, Holds-implies, subst, sym, take, Bool-cases,
  length-eq-zero, slot-in_table, eq_ℤ_refl, eq_ℤ→eq,
}
use project.Network.Server.State.{Server, ServerLock, ReplyMsg, put_lock, send, send_reply}
use project.Network.Server.Locks.{remove}
use project.Network.Server.Requests.{Request, arg, kept_reply, ack, reply}
use project.Network.Server.Invariant.{Inv, LockInv}
use project.Network.Server.Handlers.{on_acquire, on_release}

-- A client that asks for a lock which somebody holds gets no reply: it joins the end of the queue, and
-- the owner stays.
pub on_acquire-busy :
    (r : Request) (s : Server) (l : ServerLock)
    → slot (arg r 1) s.locks ≡ ok l
    → l.available ≡ false
    → on_acquire r s
      ≡ ok (
          put_lock
            (arg r 1)
            (record l {
              num_waiters = l.num_waiters + 1;
              wait_queue = l.wait_queue ++ kept_reply r ∷ [];
            })
            s)
unfolding on_acquire
on_acquire-busy r s l e busy = ground (arith, slot-in_table (arg r 1) s.locks)

-- A client that asks for a free lock becomes its owner, and gets its reply.
pub on_acquire-free :
    (r : Request) (s : Server) (l : ServerLock)
    → slot (arg r 1) s.locks ≡ ok l
    → l.available ≡ true
    → on_acquire r s
      ≡ reply r
          (ack ∷ [])
          (put_lock (arg r 1) (record l { available = false; owner = pos r.from_machine }) s)
unfolding on_acquire
on_acquire-free r s l e free =
    let taken : ServerLock = record l { available = false } in
    ground (
      arith,
      slot-in_table (arg r 1) s.locks,
      slot-set_slot (arg r 1) s.locks taken,
      set_slot-set_slot (arg r 1) s.locks (some (record taken { owner = pos r.from_machine }))
          (some taken),
    )

-- The owner's release gives the lock to the client that has waited longest, and keeps it taken.
pub on_release-waiters :
    (r : Request) (s : Server) (l : ServerLock) (m : ReplyMsg) (ms : List ReplyMsg)
    → slot (arg r 1) s.locks ≡ ok l
    → l.owner ≡ pos r.from_machine
    → l.wait_queue ≡ m ∷ ms
    → 0 < l.num_waiters
    → on_release r s ≡ (
        send_reply m (
          put_lock
            (arg r 1)
            (record l { num_waiters = l.num_waiters - 1; wait_queue = ms; owner = m.id_to_send_to })
            s)
        >>= reply r (ack ∷ []))
unfolding on_release remove
on_release-waiters r s l m ms e own q w = ground (arith, slot-in_table (arg r 1) s.locks)

-- A release by another machine changes no lock: the client only gets its reply.
pub on_release-stranger :
    (r : Request) (s : Server) (l : ServerLock)
    → slot (arg r 1) s.locks ≡ ok l
    → l.owner ≢ pos r.from_machine
    → on_release r s ≡ reply r (ack ∷ []) s
unfolding on_release
on_release-stranger r s l e other = ground (arith, slot-in_table (arg r 1) s.locks)

-- The owner's release with nobody waiting.
on_release-alone :
    (r : Request) (s : Server) (l : ServerLock)
    → slot (arg r 1) s.locks ≡ ok l
    → l.owner ≡ pos r.from_machine
    → l.num_waiters ≡ 0
    → l.to_be_deleted ≡ false
    → on_release r s
      ≡ reply r (ack ∷ []) (put_lock (arg r 1) (record l { owner = minus_one; available = true }) s)
unfolding on_release
on_release-alone r s l e own w d =
    ground (arith, slot-in_table (arg r 1) s.locks, eq_ℤ_refl (pos r.from_machine))

-- What a lock promises: nobody holds it, or a machine does and clients wait in order.
pub data LockView : Type 0 where
  free : LockView
  held : ℤ → List ReplyMsg → LockView

pub view : ServerLock → LockView
view l = if l.available then free else held l.owner l.wait_queue

pub acquired : Request → LockView → LockView
acquired r free = held (pos r.from_machine) []
acquired r (held owner ms) = held owner (ms ++ kept_reply r ∷ [])

pub passed_on : List ReplyMsg → LockView
passed_on [] = free
passed_on (m ∷ ms) = held m.id_to_send_to ms

pub released : Request → LockView → LockView
unfolding passed_on
released r free = free
released r (held owner ms) = if eq_ℤ owner (pos r.from_machine) then passed_on ms else held owner ms

-- The table after a request: the lock is there and has the view, and the other slots are as they were.
abbrev pub Becomes : ℤ → LockView → Server → Server → Type 0
Becomes i v s t =
    Returns (λ l. view l ≡ v) (slot i t.locks) × ((j : ℤ) → i ≢ j → slot j t.locks ≡ slot j s.locks)

put_lock-Becomes :
    (i : ℤ) (k l : ServerLock) (v : LockView) (s : Server)
    → slot i s.locks ≡ ok k
    → view l ≡ v
    → Becomes i v s (put_lock i l s)
put_lock-Becomes i k l v s e h =
    (ground (arith, slot-set_slot i s.locks l), λ j ne. slot-set_slot_ne i j (some l) s.locks ne)

send-locks : (m b : ℤ) (p : List ℕ) (s : Server) → Holds (λ t. t.locks ≡ s.locks) (send m b p s)
unfolding send
send-locks m b p s = ground arith

reply-Becomes :
    (i : ℤ) (v : LockView) (s t : Server) (r : Request) (p : List ℕ)
    → Becomes i v s t
    → Holds (Becomes i v s) (reply r p t)
unfolding reply
reply-Becomes i v s t r p b =
    Holds-implies (send (pos r.from_machine) (pos r.from_box) p t)
      (λ u e.
        subst
          (λ ls.
            Returns (λ l. view l ≡ v) (slot i ls) × ((j : ℤ) → i ≢ j → slot j ls ≡ slot j s.locks))
          (sym e) b)
      (send-locks (pos r.from_machine) (pos r.from_box) p t)

send_reply-Becomes :
    (i : ℤ) (v : LockView) (s t : Server) (m : ReplyMsg)
    → Becomes i v s t
    → Holds (Becomes i v s) (send_reply m t)
unfolding send_reply
send_reply-Becomes i v s t m b =
    Holds-implies (send m.id_to_send_to m.box_to_send_to (take m.msg_length m.response_msg) t)
      (λ u e.
        subst
          (λ ls.
            Returns (λ l. view l ≡ v) (slot i ls) × ((j : ℤ) → i ≢ j → slot j ls ≡ slot j s.locks))
          (sym e) b)
      (send-locks m.id_to_send_to m.box_to_send_to (take m.msg_length m.response_msg) t)

-- The handler of `Acquire` does to a lock what the abstract lock promises, and leaves the others
-- alone: a free lock goes to the machine that asks, a held one keeps its owner and the client comes
-- last in its queue.
pub on_acquire-refines :
    (r : Request) (s : Server) (l : ServerLock)
    → Inv s
    → slot (arg r 1) s.locks ≡ ok l
    → Holds (Becomes (arg r 1) (acquired r (view l)) s) (on_acquire r s)
unfolding acquired view
on_acquire-refines r s l v e = elim (Bool-cases l.available) [
  | inl idle ↦
      let owned : ServerLock = record l { available = false; owner = pos r.from_machine } in
      let alone : l.wait_queue ≡ [] = length-eq-zero l.wait_queue (ground (arith, inv)) in
      rw (on_acquire-free r s l e idle) (
        reply-Becomes (arg r 1) _ s _ r (ack ∷ [])
          (put_lock-Becomes (arg r 1) l owned _ s e (ground arith)))
  | inr busy ↦
      rw (on_acquire-busy r s l e busy) (put_lock-Becomes (arg r 1) l _ _ s e (ground arith))
]
  where
    inv : Holds LockInv (slot (arg r 1) s.locks)
    inv = slot-AllLive LockInv (arg r 1) s.locks v.locks

-- The handler of `Release` does to a lock that nobody has destroyed what the abstract lock promises,
-- and leaves the others alone: the owner's machine passes it on to the client that has waited longest,
-- or frees it, and a request of another machine changes nothing.
pub on_release-refines :
    (r : Request) (s : Server) (l : ServerLock)
    → Inv s
    → slot (arg r 1) s.locks ≡ ok l
    → l.to_be_deleted ≡ false
    → Holds (Becomes (arg r 1) (released r (view l)) s) (on_release r s)
unfolding released view passed_on
on_release-refines r s l v e d = elim (Bool-cases (eq_ℤ l.owner (pos r.from_machine))) [
  | inl mine ↦ by_queue l.wait_queue refl (eq_ℤ→eq _ _ mine)
  | inr other ↦
      rw (on_release-stranger r s l e (λ q. ground (arith, eq_ℤ_refl (pos r.from_machine))))
        (reply-Becomes (arg r 1) _ s s r (ack ∷ []) (ground (arith, e), λ j ne. refl))
]
  where
    inv : Holds LockInv (slot (arg r 1) s.locks)
    inv = slot-AllLive LockInv (arg r 1) s.locks v.locks

    by_queue :
        (q : List ReplyMsg)
        → l.wait_queue ≡ q
        → l.owner ≡ pos r.from_machine
        → Holds (Becomes (arg r 1) (released r (view l)) s) (on_release r s)
    by_queue [] eq own =
        let freed : ServerLock = record l { owner = minus_one; available = true } in
        rw (on_release-alone r s l e own (ground (arith, inv)) d) (
          reply-Becomes (arg r 1) _ s _ r (ack ∷ []) (
            put_lock-Becomes (arg r 1) l freed _ s e
              (ground (arith, inv, eq_ℤ_refl (pos r.from_machine)))))
    by_queue (m ∷ ms) eq own =
        let passed : ServerLock = record l {
          num_waiters = l.num_waiters - 1;
          wait_queue = ms;
          owner = m.id_to_send_to;
        } in
        rw (on_release-waiters r s l m ms e own eq (ground (arith, inv))) (
          Holds-bind _ (Becomes (arg r 1) (released r (view l)) s) _ (reply r (ack ∷ []))
            (send_reply-Becomes (arg r 1) _ s _ m (
              put_lock-Becomes (arg r 1) l passed _ s e
                (ground (arith, inv, eq_ℤ_refl (pos r.from_machine)))))
            (λ u b. reply-Becomes (arg r 1) _ s u r (ack ∷ []) b))
