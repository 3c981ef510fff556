-- ===== src/Network/Server/Invariant/OfRequests.antt =====
-- Each request, and so each run of the server, keeps the invariant.
use project.Prelude.{
  ℕ, zero, suc, ◌+◌, ◌≡◌, Bool, true, false, List, [], ◌∷◌, length, ℤ, pos, negsuc, of_char, Holds,
  Holds-bind, Holds-each, overrun, to_char, Result, ok, ◌>>=◌, arith, inl, inr, Result-cases, slot,
  slot-AllLive, if◌then◌else◌, ◌==◌, Bool-cases, leb, check, assertion,
}
use project.Network.Server.State.{max_mail_size, Server, ServerLock, PendingRequest, send}
use project.Network.Server.Locks.{get_lock_from_table, create_lock}
use project.Network.Server.Conditions.{create_cv, wait}
use project.Network.Server.Variables.{create_mv, get_mv}
use project.Network.Server.Requests.{
  Request, arg, byte, read_name, reply, owns, ack, mv_ack, buffer_size,
}
use project.Network.Server.Handlers.{
  ask_servers, forward_create, on_create_lock, on_release, on_destroy_lock, on_create_cv, on_signal,
  on_broadcast, goes_with, on_wait, on_destroy_cv, read_size, on_create_mv, on_set_mv, on_get_mv,
  on_destroy_mv, on_server_create, on_server_answer, pending_at, put_pending,
  update_pending_request_table, finish_create, dispatch, step, run, join_cv,
}
use project.Network.Server.Invariant.Defs.{Inv, LockInv, send-Inv, reply-Inv}
use project.Network.Server.Invariant.OfLocks.{
  create_lock-Inv, destroy_lock-Inv, release-Inv, on_acquire-Inv,
}
use project.Network.Server.Invariant.OfConditions.{
  create_cv-Inv, signal-Inv, broadcast-Inv, wait-Inv, destroy_cv-Inv, join_cv-Inv,
}
use project.Network.Server.Invariant.OfVariables.{create_mv-Inv, set_mv-Inv, destroy_mv-Inv}

ask_servers-Inv : (n i : ℕ) (p : List ℕ) (s : Server) → Inv s → Holds Inv (ask_servers n i p s)
unfolding ask_servers
ask_servers-Inv zero i p s v = v
ask_servers-Inv (suc n) i p s v =
    Holds-bind Inv Inv (if i == s.server_id then ok s else send (pos i) (pos 0) p s)
      (ask_servers n (i + 1) p) (ground (arith, send-Inv (pos i) (pos 0) p s v))
      (λ t h. ask_servers-Inv n (i + 1) p t h)

forward_create-Inv :
    (r : Request) (name : List ℕ) (s : Server) → Inv s → Holds Inv (forward_create r name s)
unfolding forward_create
forward_create-Inv r name s v =
    Holds-each Inv (check (leb (5 + length name) buffer_size) overrun) _ λ _ _.
      ask_servers-Inv s.num_servers 0 _ _ (record { locks = v.locks; cvs = v.cvs; mvs = v.mvs })

on_create_lock-Inv : (r : Request) (s : Server) → Inv s → Holds Inv (on_create_lock r s)
unfolding on_create_lock
on_create_lock-Inv r s v = Holds-each Inv (read_name r 2 (arg r 1)) _ λ name _.
    Holds-each Inv (get_lock_from_table name s) _ λ index _. ground (
      arith,
      reply-Inv r (to_char index ∷ []) s v,
      forward_create-Inv r name s v,
      reply-Inv r (to_char (create_lock name s).0 ∷ []) (create_lock name s).1
          (create_lock-Inv name s v),
    )

-- A lock that the client owns is held.
pub owns-busy :
    (i : ℤ) (r : Request) (s : Server)
    → Inv s
    → owns i r s ≡ ok true
    → (l : ServerLock) × (slot i s.locks ≡ ok l) × (l.available ≡ false)
unfolding owns
owns-busy i r s v h = elim (Result-cases (slot i s.locks)) [
  | inl (l, e) ↦ (l, e, ground (arith, slot-AllLive LockInv i s.locks v.locks))
  | inr (f, e) ↦ ground arith
]

-- What the handlers that always answer have in common.
answered-Inv :
    (r : Request) (p : List ℕ) (m : Result Server) → Holds Inv m → Holds Inv (m >>= reply r p)
answered-Inv r p m h = Holds-bind Inv Inv m _ h (reply-Inv r p)

on_release-Inv : (r : Request) (s : Server) → Inv s → Holds Inv (on_release r s)
unfolding on_release
on_release-Inv r s v =
    Holds-each Inv (owns (arg r 1) r s) _
      λ mine _. answered-Inv r (ack ∷ []) _ (ground (arith, release-Inv (arg r 1) s v))

on_signal-Inv : (r : Request) (s : Server) → Inv s → Holds Inv (on_signal r s)
unfolding on_signal
on_signal-Inv r s v = Holds-each Inv (owns (arg r 2) r s) _ (elim [
  | true ↦ λ h.
      let (l, e, b) = owns-busy (arg r 2) r s v h in
      answered-Inv r (ack ∷ []) _ (signal-Inv (arg r 1) (arg r 2) s v l e b)
  | false ↦ λ h. reply-Inv r (ack ∷ []) s v
])

on_broadcast-Inv : (r : Request) (s : Server) → Inv s → Holds Inv (on_broadcast r s)
unfolding on_broadcast
on_broadcast-Inv r s v = Holds-each Inv (owns (arg r 2) r s) _ (elim [
  | true ↦ λ h.
      let (l, e, b) = owns-busy (arg r 2) r s v h in
      answered-Inv r (ack ∷ []) _ (broadcast-Inv (arg r 1) (arg r 2) s v l e b)
  | false ↦ λ h. reply-Inv r (ack ∷ []) s v
])

fits-Inv :
    (r : Request) (s : Server)
    → Inv s
    → (mine fits : Bool) → owns (arg r 2) r s ≡ ok mine
    → (if mine then goes_with (arg r 1) (arg r 2) s else ok false) ≡ ok fits
    → Holds Inv (
        if fits then (wait (arg r 1) (arg r 2) s >>= join_cv (arg r 1) r) else reply r (ack ∷ []) s)
fits-Inv r s v mine false h k = reply-Inv r (ack ∷ []) s v
fits-Inv r s v false true h k = absurd (ground arith)
fits-Inv r s v true true h k =
    let (l, e, b) = owns-busy (arg r 2) r s v h in
    Holds-bind Inv Inv (wait (arg r 1) (arg r 2) s) (join_cv (arg r 1) r)
      (wait-Inv (arg r 1) (arg r 2) s v l e b) (join_cv-Inv (arg r 1) r)

on_wait-Inv : (r : Request) (s : Server) → Inv s → Holds Inv (on_wait r s)
unfolding on_wait
on_wait-Inv r s v = Holds-each Inv (owns (arg r 2) r s) _ λ mine h.
    Holds-each Inv (if mine then goes_with (arg r 1) (arg r 2) s else ok false) _
      λ fits k. fits-Inv r s v mine fits h k

on_create_cv-Inv : (r : Request) (s : Server) → Inv s → Holds Inv (on_create_cv r s)
unfolding on_create_cv
on_create_cv-Inv r s v = Holds-each Inv (read_name r 2 (arg r 1)) _ λ name _.
    Holds-bind Inv (λ x. Inv x.1) (create_cv name s) _ (create_cv-Inv name s v)
      λ x h. reply-Inv r (to_char x.0 ∷ []) x.1 h

on_create_mv-Inv : (r : Request) (s : Server) → Inv s → Holds Inv (on_create_mv r s)
unfolding on_create_mv
on_create_mv-Inv r s v = Holds-each Inv (read_name r 2 (arg r 1)) _ λ name _.
    Holds-each Inv (read_size r (arg r 1)) _ λ n _.
      Holds-bind Inv (λ x. Inv x.1) (create_mv name n s) _ (create_mv-Inv name n s v)
        λ x h. reply-Inv r (to_char x.0 ∷ []) x.1 h

on_get_mv-Inv : (r : Request) (s : Server) → Inv s → Holds Inv (on_get_mv r s)
unfolding on_get_mv
on_get_mv-Inv r s v =
    Holds-each Inv (get_mv (arg r 1) (arg r 2) s) _ λ x _. reply-Inv r (to_char x ∷ []) s v

on_server_create-Inv : (r : Request) (s : Server) → Inv s → Holds Inv (on_server_create r s)
unfolding on_server_create
on_server_create-Inv r s v = Holds-each Inv (read_name r 5 (arg r 3)) _ λ name _.
    Holds-each Inv (get_lock_from_table name s) _ λ index _. ground (
      arith,
      reply-Inv r (14 ∷ 0 ∷ to_char (arg r 4) ∷ []) s v,
      Holds-bind Inv Inv _ (send (arg r 1) (arg r 2) (to_char index ∷ []))
          (reply-Inv r (14 ∷ 1 ∷ to_char (arg r 4) ∷ []) s v)
          (send-Inv (arg r 1) (arg r 2) (to_char index ∷ [])),
    )

put_pending-Inv : (i : ℤ) (p : PendingRequest) (s : Server) → Inv s → Inv (put_pending i p s)
unfolding put_pending
put_pending-Inv (pos i) p s v = record { locks = v.locks; cvs = v.cvs; mvs = v.mvs }
put_pending-Inv (negsuc i) p s v = v

finish_create-Inv : (i : ℤ) (s : Server) → Inv s → Holds Inv (finish_create i s)
unfolding finish_create
finish_create-Inv i s v = Holds-each Inv (pending_at i s) _ λ p _.
    send-Inv p.client_id p.client_mail (to_char (create_lock p.name s).0 ∷ [])
      (create_lock p.name s).1 (create_lock-Inv p.name s v)

update-Inv : (i : ℤ) (s : Server) → Inv s → Holds (λ x. Inv x.1) (update_pending_request_table i s)
unfolding update_pending_request_table
update-Inv i s v = Holds-each (λ x. Inv x.1) (pending_at i s) _ λ p _. put_pending-Inv i _ s v

on_server_answer-Inv :
    (g : ℕ) (r : Request) (s : Server) → Inv s → Holds Inv (on_server_answer g r s)
unfolding on_server_answer
on_server_answer-Inv g r s v = elim (Bool-cases (byte r 1 == 0)) [
  | inl e ↦ rw e (
      Holds-bind Inv (λ x. Inv x.1) (update_pending_request_table (of_char g) s) _
        (update-Inv (of_char g) s v) (λ x h. ground (arith, finish_create-Inv (of_char g) x.1 h)))
  | inr e ↦ rw e v
]

on_destroy_lock-Inv : (r : Request) (s : Server) → Inv s → Holds Inv (on_destroy_lock r s)
unfolding on_destroy_lock
on_destroy_lock-Inv r s v = answered-Inv r (ack ∷ []) _ (destroy_lock-Inv (arg r 1) s v)

on_destroy_cv-Inv : (r : Request) (s : Server) → Inv s → Holds Inv (on_destroy_cv r s)
unfolding on_destroy_cv
on_destroy_cv-Inv r s v = answered-Inv r (ack ∷ []) _ (destroy_cv-Inv (arg r 1) s v)

on_set_mv-Inv : (r : Request) (s : Server) → Inv s → Holds Inv (on_set_mv r s)
unfolding on_set_mv
on_set_mv-Inv r s v = answered-Inv r (mv_ack ∷ []) _ (set_mv-Inv (arg r 1) (arg r 2) (arg r 3) s v)

on_destroy_mv-Inv : (r : Request) (s : Server) → Inv s → Holds Inv (on_destroy_mv r s)
unfolding on_destroy_mv
on_destroy_mv-Inv r s v = answered-Inv r (mv_ack ∷ []) _ (destroy_mv-Inv (arg r 1) s v)

dispatch-Inv : (code g : ℕ) (r : Request) (s : Server) → Inv s → Holds Inv (dispatch code g r s)
unfolding dispatch
dispatch-Inv code g r s v = ground (
  arith,
  on_create_lock-Inv r s v,
  on_acquire-Inv r s v,
  on_release-Inv r s v,
  on_destroy_lock-Inv r s v,
  on_create_cv-Inv r s v,
  on_signal-Inv r s v,
  on_broadcast-Inv r s v,
  on_wait-Inv r s v,
  on_destroy_cv-Inv r s v,
  on_create_mv-Inv r s v,
  on_set_mv-Inv r s v,
  on_get_mv-Inv r s v,
  on_destroy_mv-Inv r s v,
  on_server_create-Inv r s v,
  on_server_answer-Inv g r s v,
)

-- Whatever request comes in, a round that returns leaves every lock, condition variable and monitor
-- variable well formed: a free lock has neither owner nor waiters, the counters of waiters are the
-- lengths of the queues, a variable that is to be deleted has waiters, and an array has its length.
pub step-Inv : (g : ℕ) (r : Request) (s : Server) → Inv s → Holds Inv (step g r s)
unfolding step
step-Inv g r s v =
    Holds-each Inv (check (leb (length r.bytes) max_mail_size) assertion) _
      λ _ _. dispatch-Inv (byte r 0) g r s v

-- The same after any sequence of requests, if every round returns: what the tables start with, they keep.
pub run-Inv : (rs : List (ℕ × Request)) (s : Server) → Inv s → Holds Inv (run rs s)
unfolding run
run-Inv [] s v = v
run-Inv ((g, r) ∷ rs) s v =
    Holds-bind Inv Inv (step g r s) (run rs) (step-Inv g r s v) (λ t h. run-Inv rs t h)
