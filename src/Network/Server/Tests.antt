-- ===== src/Network/Server/Tests.antt =====
-- Runs of the server of network/nettest.cc, and the theorems about it at such runs.
use project.Prelude.{
  ℕ, ◌+◌, ◌<◌, ◌≡◌, refl, Bool, true, false, List, [], ◌∷◌, ℤ, pos, negsuc, minus_one, Result, ok,
  fault, dangling, Holds, arith, Option, some, none, slot, set_slot, read, in_table, total, ◌>>=◌,
}
use project.Network.Server.Broadcast.{emptied, joined, broadcast-joined}
use project.Network.Server.Conditions.{broadcast}
use project.Network.Server.State.{
  Server, ServerLock, ServerCv, ReplyMsg, new_lock, new_cv, put_cv, put_lock, send, send_reply,
}
use project.Network.Server.Locks.{
  create_lock, get_lock_from_table, destroy_lock, acquire, same_bytes,
}
use project.Network.Server.Requests.{Request, arg, reply}
use project.Network.Server.Handlers.{step, run, on_create_lock, on_acquire, on_release}
use project.Network.Server.Invariant.{Inv, step-Inv}
use project.Network.Server.Replies.{replies, hit, one_reply}
use project.Network.Server.Locking.{
  on_acquire-refines, on_release-refines, acquired, released, view, Becomes,
}
use project.Network.Server.Names.{get-create, acquire-create_refused, get-destroy_dangling}

abbrev start : ℕ → Server
start id = record {
  locks = [];
  cvs = [];
  mvs = [];
  pending = [];
  sent = [];
  num_servers = 1;
  server_id = id;
  num_boxes = 10;
}

abbrev request : ℕ → ℕ → List ℕ → Request
request machine box bytes = record { from_machine = machine; from_box = box; bytes = bytes }

start-Inv : Inv (start 0)
start-Inv = record { locks = tt; cvs = tt; mvs = tt }

-- Two clients create a lock of one name; the second gets the number of the first.
abbrev created : List (ℕ × Request)
created = (0, request 1 2 (0 ∷ 1 ∷ b'a' ∷ [])) ∷ (0, request 3 4 (0 ∷ 1 ∷ b'a' ∷ [])) ∷ []

abbrev addresses : Result Server → List (List ℕ)
addresses (ok s) = project.Prelude.map (λ p. p.payload) s.sent
addresses (fault e) = []

created_once : addresses (run created (start 0)) ≡ (0 ∷ []) ∷ (0 ∷ []) ∷ []
unfolding run on_create_lock send reply same_bytes arg
created_once = refl

-- Machine 1 holds lock 0, and a client on machine 3 waits for it.
abbrev waiter : ReplyMsg
waiter = record {
  id_to_send_to = pos 3;
  box_to_send_to = pos 4;
  msg_length = 1;
  response_msg = 255 ∷ [];
}

abbrev held_lock : ServerLock
held_lock = record (new_lock (b'a' ∷ []) 0) {
  owner = pos 1;
  available = false;
  wait_queue = waiter ∷ [];
  num_waiters = 1;
}

abbrev contended : Server
contended = record (start 0) { locks = some held_lock ∷ [] }

contended-Inv : Inv contended
contended-Inv = record {
  locks = (record { counted = refl; free = λ h. cc; idle = λ h. cc }, tt);
  cvs = tt;
  mvs = tt;
}

abbrev release_0 : Request
release_0 = request 1 2 (2 ∷ 0 ∷ [])

abbrev acquire_0 : Request
acquire_0 = request 5 6 (1 ∷ 0 ∷ [])

-- The release gives the lock to the waiter, who is told first.
released_to_waiter : addresses (step 0 release_0 contended) ≡ (255 ∷ []) ∷ (255 ∷ []) ∷ []
unfolding step on_release send reply send_reply arg in_table slot
released_to_waiter = refl

step-Inv_example : Holds Inv (step 0 release_0 contended)
step-Inv_example = step-Inv 0 release_0 contended contended-Inv

one_reply_example :
    Holds
      (λ t.
        replies (pos 1) (pos 2) t
        ≡ replies (pos 1) (pos 2) contended + hit (pos 1) (pos 2) (pos 1) (pos 2))
      (step 0 release_0 contended)
one_reply_example = one_reply (pos 1) (pos 2) 0 release_0 contended contended-Inv refl (omega arith)

on_acquire-refines_example :
    Holds
      (Becomes (arg acquire_0 1) (acquired acquire_0 (view held_lock)) contended)
      (on_acquire acquire_0 contended)
unfolding arg slot
on_acquire-refines_example = on_acquire-refines acquire_0 contended held_lock contended-Inv refl

on_release-refines_example :
    Holds
      (Becomes (arg release_0 1) (released release_0 (view held_lock)) contended)
      (on_release release_0 contended)
unfolding arg slot
on_release-refines_example =
    on_release-refines release_0 contended held_lock contended-Inv refl refl

get-create_example :
    get_lock_from_table (b'a' ∷ []) (create_lock (b'a' ∷ []) (start 0)).1
    ≡ ok (create_lock (b'a' ∷ []) (start 0)).0
unfolding get_lock_from_table
get-create_example = get-create (b'a' ∷ []) (start 0) tt refl

acquire-create_refused_example :
    acquire (create_lock (b'a' ∷ []) (start 1)).0 (create_lock (b'a' ∷ []) (start 1)).1
    ≡ ok (minus_one, (create_lock (b'a' ∷ []) (start 1)).1)
acquire-create_refused_example =
    acquire-create_refused (b'a' ∷ []) (start 1) (omega arith) (omega arith)

abbrev free_lock : ServerLock
free_lock = new_lock (b'a' ∷ []) 0

get-destroy_dangling_example :
    get_lock_from_table (b'b' ∷ []) (record (start 0) { locks = none ∷ [] }) ≡ fault dangling
unfolding destroy_lock slot set_slot in_table same_bytes
get-destroy_dangling_example =
    get-destroy_dangling (b'b' ∷ []) 0 (record (start 0) { locks = some free_lock ∷ [] })
      (record (start 0) { locks = none ∷ [] }) free_lock refl refl refl (refl, tt) refl

abbrev sleeper : ℕ → ReplyMsg
sleeper n = record {
  id_to_send_to = pos n;
  box_to_send_to = pos 1;
  msg_length = 1;
  response_msg = 255 ∷ [];
}

abbrev two_wait : ServerCv
two_wait = record (new_cv [] 0) {
  server_lock_index = pos 0;
  num_waiters = 2;
  wait_queue = sleeper 4 ∷ sleeper 5 ∷ [];
}

abbrev busy_lock : ServerLock
busy_lock = record (new_lock [] 0) {
  available = false;
  owner = pos 3;
  num_waiters = 1;
  wait_queue = sleeper 6 ∷ [];
}

abbrev waiting : Server
waiting = record (start 0) { locks = some busy_lock ∷ []; cvs = some two_wait ∷ [] }

broadcast-joined_example :
    broadcast (pos 0) (pos 0) waiting
    ≡ ok (
        put_cv
          (pos 0)
          (emptied two_wait)
          (put_lock (pos 0) (joined busy_lock two_wait.wait_queue) waiting))
unfolding slot
broadcast-joined_example =
    broadcast-joined (pos 0) (pos 0) waiting two_wait busy_lock refl refl refl refl
