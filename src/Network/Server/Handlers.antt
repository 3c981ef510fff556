-- ===== src/Network/Server/Handlers.antt =====
-- network/nettest.cc:431-798, the cases of `Server()`, and the loop around them.
use project.Prelude.{
  ℕ, zero, suc, ◌+◌, List, [], ◌∷◌, ◌++◌, none, some, Bool, false, ◌||◌, not, ℤ, pos, negsuc,
  minus_one, of_char, to_char, eq_ℤ, length, get_elem?, set, ltb, leb, ◌==◌, if◌then◌else◌, Result,
  ok, fault, overrun, assertion, check, ◌>>=◌, ◌>>◌, in_table,
}
use project.Network.Server.State.{
  Server, PendingRequest, lock_at, put_lock, cv_at, put_cv, send, max_mail_size,
}
use project.Network.Server.Locks.{create_lock, get_lock_from_table, destroy_lock, acquire, release}
use project.Network.Server.Conditions.{create_cv, signal, broadcast, wait, destroy_cv}
use project.Network.Server.Variables.{create_mv, set_mv, get_mv, destroy_mv}
use project.Network.Server.Requests.{
  Request, byte, arg, buffer_size, read_name, reply, ack, mv_ack, kept_reply, owns,
}

-- The loop that asks every other server, from server `i` on.
unfoldable pub ask_servers : ℕ → ℕ → List ℕ → Server → Result Server
ask_servers zero i payload s = ok s
ask_servers (suc n) i payload s =
    (if i == s.server_id then ok s else send (pos i) (pos 0) payload s)
    >>= ask_servers n (i + 1) payload

-- `case 0` with other servers: the request is put aside until they have answered.
unfoldable pub forward_create : Request → List ℕ → Server → Result Server
unfolding ask_servers
forward_create r name s = do
  check (leb (5 + length name) buffer_size) overrun
  let payload =
      13
      ∷ to_char (pos r.from_machine)
      ∷ to_char (pos r.from_box)
      ∷ byte r 1
      ∷ to_char (pos (length s.pending))
      ∷ name
  let request : PendingRequest = record {
    no_count = 0;
    op_code = byte r 0;
    client_id = pos r.from_machine;
    client_mail = pos r.from_box;
    name = name;
  }
  ask_servers s.num_servers 0 payload (record s { pending = s.pending ++ request ∷ [] })

unfoldable pub on_create_lock : Request → Server → Result Server
unfolding read_name get_lock_from_table create_lock forward_create
on_create_lock r s = do
  name ← read_name r 2 (arg r 1)
  index ← get_lock_from_table name s
  if not (eq_ℤ index minus_one)
      then reply r (to_char index ∷ []) s
      else (if s.num_servers == 1
          then (let (created, s') = create_lock name s in reply r (to_char created ∷ []) s')
          else forward_create r name s)

-- `canAcquire == 0`, `== 1` and neither.
unfoldable pub answer_acquire : ℤ → Request → ℤ → Server → Result Server
answer_acquire can_acquire r index s =
    if eq_ℤ can_acquire (pos 0)
    then (do
      l ← lock_at index s
      reply r (ack ∷ []) (put_lock index (record l { owner = pos r.from_machine }) s))
    else (if eq_ℤ can_acquire (pos 1)
        then (do
          l ← lock_at index s
          ok (
              put_lock index
                (record l {
                  num_waiters = l.num_waiters + 1;
                  wait_queue = l.wait_queue ++ kept_reply r ∷ [];
                })
                s))
        else reply r (ack ∷ []) s)

unfoldable pub on_acquire : Request → Server → Result Server
unfolding acquire answer_acquire
on_acquire r s = do
  (can_acquire, s') ← acquire (arg r 1) s
  answer_acquire can_acquire r (arg r 1) s'

-- Only the owner's machine releases; every client gets an answer.
unfoldable pub on_release : Request → Server → Result Server
unfolding owns release
on_release r s = do
  mine ← owns (arg r 1) r s
  s' ← (if mine then release (arg r 1) s else ok s)
  reply r (ack ∷ []) s'

unfoldable pub on_destroy_lock : Request → Server → Result Server
unfolding destroy_lock
on_destroy_lock r s = destroy_lock (arg r 1) s >>= reply r (ack ∷ [])

unfoldable pub on_create_cv : Request → Server → Result Server
unfolding read_name create_cv
on_create_cv r s = do
  name ← read_name r 2 (arg r 1)
  (index, s') ← create_cv name s
  reply r (to_char index ∷ []) s'

unfoldable pub on_signal : Request → Server → Result Server
unfolding owns signal
on_signal r s = do
  mine ← owns (arg r 2) r s
  s' ← (if mine then signal (arg r 1) (arg r 2) s else ok s)
  reply r (ack ∷ []) s'

unfoldable pub on_broadcast : Request → Server → Result Server
unfolding owns broadcast
on_broadcast r s = do
  mine ← owns (arg r 2) r s
  s' ← (if mine then broadcast (arg r 1) (arg r 2) s else ok s)
  reply r (ack ∷ []) s'

-- The second test of `case 7`: the variable is in the table, and goes with this lock or with none.
unfoldable pub goes_with : ℤ → ℤ → Server → Result Bool
goes_with cond lock s =
    if in_table cond s.cvs
    then (do
      c ← cv_at cond s
      ok (eq_ℤ c.server_lock_index lock || eq_ℤ c.server_lock_index minus_one))
    else ok false

-- The client joins the waiters of the variable.
unfoldable pub join_cv : ℤ → Request → Server → Result Server
join_cv cond r s = do
  c ← cv_at cond s
  ok (
      put_cv cond
        (record c {
          num_waiters = c.num_waiters + 1;
          wait_queue = c.wait_queue ++ kept_reply r ∷ [];
        })
        s)

unfoldable pub on_wait : Request → Server → Result Server
unfolding owns goes_with wait join_cv
on_wait r s = do
  mine ← owns (arg r 2) r s
  fits ← (if mine then goes_with (arg r 1) (arg r 2) s else ok false)
  if fits
      then (do s' ← wait (arg r 1) (arg r 2) s; join_cv (arg r 1) r s')
      else reply r (ack ∷ []) s

unfoldable pub on_destroy_cv : Request → Server → Result Server
unfolding destroy_cv
on_destroy_cv r s = destroy_cv (arg r 1) s >>= reply r (ack ∷ [])

-- `(int)request[length + 2]`
unfoldable pub read_size : Request → ℤ → Result ℤ
read_size r (pos n) = if ltb (n + 2) buffer_size then ok (arg r (n + 2)) else fault overrun
read_size r (negsuc n) = fault overrun

unfoldable pub on_create_mv : Request → Server → Result Server
unfolding read_name read_size create_mv
on_create_mv r s = do
  name ← read_name r 2 (arg r 1)
  num_elements ← read_size r (arg r 1)
  (index, s') ← create_mv name num_elements s
  reply r (to_char index ∷ []) s'

unfoldable pub on_set_mv : Request → Server → Result Server
unfolding set_mv
on_set_mv r s = set_mv (arg r 1) (arg r 2) (arg r 3) s >>= reply r (mv_ack ∷ [])

unfoldable pub on_get_mv : Request → Server → Result Server
unfolding get_mv
on_get_mv r s = do value ← get_mv (arg r 1) (arg r 2) s; reply r (to_char value ∷ []) s

unfoldable pub on_destroy_mv : Request → Server → Result Server
unfolding destroy_mv
on_destroy_mv r s = destroy_mv (arg r 1) s >>= reply r (mv_ack ∷ [])

-- `case 13`: another server asks for a lock on behalf of a client. A server that has the lock also
-- answers the client.
unfoldable pub on_server_create : Request → Server → Result Server
unfolding read_name get_lock_from_table
on_server_create r s = do
  name ← read_name r 5 (arg r 3)
  index ← get_lock_from_table name s
  if not (eq_ℤ index minus_one)
      then (do
        s' ← reply r (14 ∷ 1 ∷ to_char (arg r 4) ∷ []) s
        send (arg r 1) (arg r 2) (to_char index ∷ []) s')
      else reply r (14 ∷ 0 ∷ to_char (arg r 4) ∷ []) s

-- `pendingRequestTable[requestID]`, which is not checked.
unfoldable pub pending_at : ℤ → Server → Result PendingRequest
pending_at (pos i) s = elim (get_elem? s.pending i) [ none ↦ fault overrun | some p ↦ ok p ]
pending_at (negsuc i) s = fault overrun

unfoldable pub put_pending : ℤ → PendingRequest → Server → Server
put_pending (pos i) p s = record s { pending = set s.pending i p }
put_pending (negsuc i) p s = s

unfoldable pub update_pending_request_table : ℤ → Server → Result (ℕ × Server)
unfolding pending_at put_pending
update_pending_request_table i s = do
  p ← pending_at i s
  ok (p.no_count + 1, put_pending i (record p { no_count = p.no_count + 1 }) s)

-- All other servers have said no: the lock is made here, and the client told.
unfoldable pub finish_create : ℤ → Server → Result Server
unfolding pending_at create_lock
finish_create i s = do
  p ← pending_at i s
  let (created, t) = create_lock p.name s
  send p.client_id p.client_mail (to_char created ∷ []) t

-- `case 14`: one "no" more. The request's number is read from `response`, a buffer that has just
-- been allocated, and not from `request`: `garbage` is the byte that happens to stand there.
unfoldable pub on_server_answer : ℕ → Request → Server → Result Server
unfolding update_pending_request_table finish_create
on_server_answer garbage r s =
    if byte r 1 == 0
    then (do
      (num_nos, s') ← update_pending_request_table (of_char garbage) s
      if num_nos + 1 == s'.num_servers then finish_create (of_char garbage) s' else ok s')
    else ok s

-- `switch(opCode)`; an unknown code is passed over.
unfoldable pub dispatch : ℕ → ℕ → Request → Server → Result Server
dispatch code garbage r s =
    if code == 0
    then on_create_lock r s
    else (if code == 1
        then on_acquire r s
        else (if code == 2
            then on_release r s
            else (if code == 3
                then on_destroy_lock r s
                else (if code == 4
                    then on_create_cv r s
                    else (if code == 5
                        then on_signal r s
                        else (if code == 6
                            then on_broadcast r s
                            else (if code == 7
                                then on_wait r s
                                else (if code == 8
                                    then on_destroy_cv r s
                                    else (if code == 9
                                        then on_create_mv r s
                                        else (if code == 10
                                            then on_set_mv r s
                                            else (if code == 11
                                                then on_get_mv r s
                                                else (if code == 12
                                                    then on_destroy_mv r s
                                                    else (if code == 13
                                                        then on_server_create r s
                                                        else (if code == 14
                                                            then on_server_answer garbage r s
                                                            else ok s))))))))))))))

-- One round of the loop, with the assertion of `Receive` on the length of the mail.
unfoldable pub step : ℕ → Request → Server → Result Server
unfolding dispatch
step garbage r s = do
  check (leb (length r.bytes) max_mail_size) assertion
  dispatch (byte r 0) garbage r s

-- The rounds that serve a list of requests, each with the garbage of its fresh buffer.
unfoldable pub run : List (ℕ × Request) → Server → Result Server
unfolding step
run [] s = ok s
run ((garbage, r) ∷ rs) s = step garbage r s >>= run rs
