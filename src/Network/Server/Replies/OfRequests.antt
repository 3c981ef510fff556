-- ===== src/Network/Server/Replies/OfRequests.antt =====
-- Each request of a client is answered exactly once, now or later.
use project.Prelude.{
  ℕ, ◌+◌, ◌<◌, ◌≡◌, refl, Bool, true, false, List, [], ◌∷◌, ℤ, pos, negsuc, to_char, Holds,
  Holds-bind, Holds-each, Holds-implies, Result, ok, ◌>>=◌, arith, Option, some, none, inl, inr,
  Result-cases, push-total, if◌then◌else◌, length, leb, check, assertion,
}
use project.Network.Server.State.{max_mail_size, Server, ServerLock, new_lock, new_cv, unique_id}
use project.Network.Server.Locks.{get_lock_from_table, create_lock}
use project.Network.Server.Conditions.{create_cv, find_cv, wait}
use project.Network.Server.Variables.{
  create_mv, find_mv, push_mv, new_mv, set_mv, get_mv, destroy_mv,
}
use project.Network.Server.Requests.{Request, arg, byte, read_name, reply, owns, ack, mv_ack}
use project.Network.Server.Handlers.{
  on_create_lock, on_release, on_destroy_lock, on_create_cv, on_signal, on_broadcast, goes_with,
  on_wait, on_destroy_cv, read_size, on_create_mv, on_set_mv, on_get_mv, on_destroy_mv, dispatch,
  step, join_cv,
}
use project.Network.Server.Invariant.{Inv, owns-busy}
use project.Network.Server.Replies.Defs.{hit, queued, on_lock, on_cv, replies, reply-replies}
use project.Network.Server.Replies.OfLocks.{
  destroy_lock-replies, release-replies, on_acquire-replies,
}
use project.Network.Server.Replies.OfConditions.{
  destroy_cv-replies, join_cv-replies, signal-replies, broadcast-replies, wait-replies,
}

module _ (machine box : ℤ) where
  -- What a server without changes in its queues has sent, it has sent before.
  abbrev Kept : Server → Server → Type 0
  Kept s t = replies machine box t ≡ replies machine box s

  -- The sender of the request, and nobody else, has one reply more.
  abbrev pub Answered : Request → Server → Server → Type 0
  Answered r s t =
      replies machine box t
      ≡ replies machine box s + hit machine box (pos r.from_machine) (pos r.from_box)

  answered :
      (r : Request) (p : List ℕ) (s : Server) (m : Result Server)
      → Holds (Kept s) m
      → Holds (Answered r s) (m >>= reply r p)
  answered r p s m h =
      Holds-bind (Answered r s) (Kept s) m (reply r p) h
        (λ t k. Holds-implies (reply r p t) (λ u a. omega arith) (reply-replies machine box r p t))

  create_lock-replies : (name : List ℕ) (s : Server) → Kept s (create_lock name s).1
  unfolding create_lock replies queued
  create_lock-replies name s = omega (
    arith,
    push-total (on_lock machine box) (new_lock name (unique_id (length s.locks) s.server_id))
        s.locks,
  )

  create_cv-replies : (name : List ℕ) (s : Server) → Holds (λ x. Kept s x.1) (create_cv name s)
  unfolding create_cv replies queued
  create_cv-replies name s = elim (Result-cases (find_cv name 0 s.cvs)) [
    | inl (none, e) ↦
        rw (e, create_cv)
          (omega (
            arith,
            push-total (on_cv machine box) (new_cv name (unique_id (length s.cvs) s.server_id))
                s.cvs,
          ))
    | inl (some i, e) ↦ rw (e, create_cv) refl
    | inr (f, e) ↦ ground arith
  ]

  -- The monitor variables have no queues.
  mvs-replies :
      (s : Server) (mvs : List (Option project.Network.Server.State.ServerMv))
      → Kept s (record s { mvs = mvs })
  unfolding replies
  mvs-replies s mvs = refl

  push_mv-replies :
      (name : List ℕ) (n : ℤ) (s : Server) → Holds (λ x. Kept s x.1) (push_mv name n s)
  unfolding push_mv new_mv
  push_mv-replies name (pos n) s = mvs-replies s _
  push_mv-replies name (negsuc n) s = tt

  create_mv-replies :
      (name : List ℕ) (n : ℤ) (s : Server) → Holds (λ x. Kept s x.1) (create_mv name n s)
  unfolding create_mv
  create_mv-replies name n s = elim (Result-cases (find_mv name 0 s.mvs)) [
    | inl (none, e) ↦ rw (e, create_mv) (push_mv-replies name n s)
    | inl (some i, e) ↦ rw (e, create_mv) refl
    | inr (f, e) ↦ ground arith
  ]

  set_mv-replies : (i j x : ℤ) (s : Server) → Holds (Kept s) (set_mv i j x s)
  unfolding set_mv replies
  set_mv-replies i j x s = ground arith

  destroy_mv-replies : (i : ℤ) (s : Server) → Holds (Kept s) (destroy_mv i s)
  unfolding destroy_mv replies
  destroy_mv-replies i s = ground arith

  on_create_lock-replies :
      (r : Request) (s : Server) → s.num_servers ≡ 1 → Holds (Answered r s) (on_create_lock r s)
  unfolding on_create_lock
  on_create_lock-replies r s one = Holds-each (Answered r s) (read_name r 2 (arg r 1)) _ λ name _.
      Holds-each (Answered r s) (get_lock_from_table name s) _ λ index _. ground (
        arith,
        reply-replies machine box r (to_char index ∷ []) s,
        answered r (to_char (create_lock name s).0 ∷ []) s (ok (create_lock name s).1)
            (create_lock-replies name s),
      )

  on_release-replies : (r : Request) (s : Server) → Inv s → Holds (Answered r s) (on_release r s)
  unfolding on_release
  on_release-replies r s v = Holds-each (Answered r s) (owns (arg r 1) r s) _ λ mine _.
      answered r (ack ∷ []) s _ (ground (arith, release-replies machine box (arg r 1) s v))

  on_signal-replies : (r : Request) (s : Server) → Inv s → Holds (Answered r s) (on_signal r s)
  unfolding on_signal
  on_signal-replies r s v = Holds-each (Answered r s) (owns (arg r 2) r s) _ (elim [
    | true ↦ λ h.
        let (l, e, b) = owns-busy (arg r 2) r s v h in
        answered r (ack ∷ []) s _ (signal-replies machine box (arg r 1) (arg r 2) s v l e)
    | false ↦ λ h. reply-replies machine box r (ack ∷ []) s
  ])

  on_broadcast-replies :
      (r : Request) (s : Server) → Inv s → Holds (Answered r s) (on_broadcast r s)
  unfolding on_broadcast
  on_broadcast-replies r s v = Holds-each (Answered r s) (owns (arg r 2) r s) _ (elim [
    | true ↦ λ h.
        let (l, e, b) = owns-busy (arg r 2) r s v h in
        answered r (ack ∷ []) s _ (broadcast-replies machine box (arg r 1) (arg r 2) s v l e)
    | false ↦ λ h. reply-replies machine box r (ack ∷ []) s
  ])

  fits-replies :
      (r : Request) (s : Server)
      → Inv s
      → (mine fits : Bool) → owns (arg r 2) r s ≡ ok mine
      → (if mine then goes_with (arg r 1) (arg r 2) s else ok false) ≡ ok fits
      → Holds (Answered r s) (
          if fits
          then (wait (arg r 1) (arg r 2) s >>= join_cv (arg r 1) r)
          else reply r (ack ∷ []) s)
  fits-replies r s v mine false h k = reply-replies machine box r (ack ∷ []) s
  fits-replies r s v false true h k = absurd (ground arith)
  fits-replies r s v true true h k =
      let (l, e, b) = owns-busy (arg r 2) r s v h in
      Holds-bind (Answered r s) (Kept s) (wait (arg r 1) (arg r 2) s) (join_cv (arg r 1) r)
        (wait-replies machine box (arg r 1) (arg r 2) s v l e)
        (λ t q.
          Holds-implies (join_cv (arg r 1) r t) (λ u a. omega arith)
            (join_cv-replies machine box (arg r 1) r t))

  on_wait-replies : (r : Request) (s : Server) → Inv s → Holds (Answered r s) (on_wait r s)
  unfolding on_wait
  on_wait-replies r s v = Holds-each (Answered r s) (owns (arg r 2) r s) _ λ mine h.
      Holds-each (Answered r s) (if mine then goes_with (arg r 1) (arg r 2) s else ok false) _
        λ fits k. fits-replies r s v mine fits h k

  on_create_cv-replies : (r : Request) (s : Server) → Holds (Answered r s) (on_create_cv r s)
  unfolding on_create_cv
  on_create_cv-replies r s = Holds-each (Answered r s) (read_name r 2 (arg r 1)) _ λ name _.
      Holds-bind (Answered r s) (λ x. Kept s x.1) (create_cv name s) _ (create_cv-replies name s)
        λ x h. answered r (to_char x.0 ∷ []) s (ok x.1) h

  on_create_mv-replies : (r : Request) (s : Server) → Holds (Answered r s) (on_create_mv r s)
  unfolding on_create_mv
  on_create_mv-replies r s = Holds-each (Answered r s) (read_name r 2 (arg r 1)) _ λ name _.
      Holds-each (Answered r s) (read_size r (arg r 1)) _ λ n _.
        Holds-bind (Answered r s) (λ x. Kept s x.1) (create_mv name n s) _
          (create_mv-replies name n s) λ x h. answered r (to_char x.0 ∷ []) s (ok x.1) h

  on_get_mv-replies : (r : Request) (s : Server) → Holds (Answered r s) (on_get_mv r s)
  unfolding on_get_mv
  on_get_mv-replies r s =
      Holds-each (Answered r s) (get_mv (arg r 1) (arg r 2) s) _
        λ x _. reply-replies machine box r (to_char x ∷ []) s

  on_destroy_lock-replies :
      (r : Request) (s : Server) → Inv s → Holds (Answered r s) (on_destroy_lock r s)
  unfolding on_destroy_lock
  on_destroy_lock-replies r s v =
      answered r (ack ∷ []) s _ (destroy_lock-replies machine box (arg r 1) s v)

  on_destroy_cv-replies :
      (r : Request) (s : Server) → Inv s → Holds (Answered r s) (on_destroy_cv r s)
  unfolding on_destroy_cv
  on_destroy_cv-replies r s v =
      answered r (ack ∷ []) s _ (destroy_cv-replies machine box (arg r 1) s v)

  on_set_mv-replies : (r : Request) (s : Server) → Holds (Answered r s) (on_set_mv r s)
  unfolding on_set_mv
  on_set_mv-replies r s =
      answered r (mv_ack ∷ []) s _ (set_mv-replies (arg r 1) (arg r 2) (arg r 3) s)

  on_destroy_mv-replies : (r : Request) (s : Server) → Holds (Answered r s) (on_destroy_mv r s)
  unfolding on_destroy_mv
  on_destroy_mv-replies r s = answered r (mv_ack ∷ []) s _ (destroy_mv-replies (arg r 1) s)

  dispatch-replies :
      (code g : ℕ) (r : Request) (s : Server)
      → Inv s
      → s.num_servers ≡ 1
      → code < 13
      → Holds (Answered r s) (dispatch code g r s)
  unfolding dispatch
  dispatch-replies code g r s v one h = ground (
    arith,
    on_create_lock-replies r s one,
    on_acquire-replies machine box r s,
    on_release-replies r s v,
    on_destroy_lock-replies r s v,
    on_create_cv-replies r s,
    on_signal-replies r s v,
    on_broadcast-replies r s v,
    on_wait-replies r s v,
    on_destroy_cv-replies r s v,
    on_create_mv-replies r s,
    on_set_mv-replies r s,
    on_get_mv-replies r s,
    on_destroy_mv-replies r s,
  )

  -- On a single server, a request of a client (operation codes 0 to 12) that is served adds exactly
  -- one reply for the mailbox that it came from, sent now or kept in a queue, and none for any other
  -- mailbox: no reply is lost, sent twice, or sent to somebody else, whichever branch is taken.
  pub one_reply :
      (g : ℕ) (r : Request) (s : Server)
      → Inv s
      → s.num_servers ≡ 1
      → byte r 0 < 13
      → Holds (Answered r s) (step g r s)
  unfolding step
  one_reply g r s v one h =
      Holds-each (Answered r s) (check (leb (length r.bytes) max_mail_size) assertion) _
        λ _ _. dispatch-replies (byte r 0) g r s v one h
