-- ===== src/Network/Server/Locks.antt =====
-- network/nettest.cc:171-254, the table of locks.
use project.Prelude.{
  ℕ, ◌-◌, List, [], ◌∷◌, ◌++◌, Option, none, some, Bool, true, false, ◌&&◌, ℤ, pos, minus_one,
  of_unsigned, length, ltb, ◌==◌, if◌then◌else◌, Result, ok, fault, dangling, null, ◌>>=◌, in_table,
}
use project.Network.Server.State.{
  Server, ServerLock, ReplyMsg, new_lock, unique_id, lock_at, put_lock, delete_lock, send_reply,
}

-- The bytes of a `char*` up to its terminator.
abbrev pub c_string : List ℕ → List ℕ
c_string [] = []
c_string (c ∷ cs) = if c == 0 then [] else c ∷ c_string cs

-- `strcmp(a, b) == 0` on what `c_string` returns.
unfoldable pub same_bytes : List ℕ → List ℕ → Bool
same_bytes [] [] = true
same_bytes [] (b ∷ bs) = false
same_bytes (a ∷ as') [] = false
same_bytes (a ∷ as') (b ∷ bs) = (a == b) && same_bytes as' bs

unfoldable pub create_lock : List ℕ → Server → ℤ × Server
create_lock name s =
    let unique = unique_id (length s.locks) s.server_id in
    (of_unsigned unique, record s { locks = s.locks ++ some (new_lock name unique) ∷ [] })

-- The loop reads the name behind every pointer that it passes.
unfoldable pub find_lock : List ℕ → List (Option ServerLock) → Result ℤ
find_lock name [] = ok minus_one
find_lock name (none ∷ rest) = fault dangling
find_lock name (some l ∷ rest) =
    let later = find_lock name rest in
    if same_bytes (c_string name) (c_string l.name) then ok (of_unsigned l.id) else later

unfoldable pub get_lock_from_table : List ℕ → Server → Result ℤ
unfolding find_lock
get_lock_from_table name s = find_lock name s.locks

unfoldable pub destroy_lock : ℤ → Server → Result Server
destroy_lock index s =
    if in_table index s.locks
    then (do
      to_delete ← lock_at index s
      ok (
          if (to_delete.num_waiters == 0) && to_delete.available
          then delete_lock index s
          else put_lock index (record to_delete { to_be_deleted = true }) s))
    else ok s

unfoldable pub acquire : ℤ → Server → Result (ℤ × Server)
acquire index s =
    if in_table index s.locks
    then (do
      to_acquire ← lock_at index s
      ok (
          if to_acquire.available
          then (pos 0, put_lock index (record to_acquire { available = false }) s)
          else (pos 1, s)))
    else ok (minus_one, s)

-- `waitQueue->Remove()`. A null pointer is what an empty queue returns.
unfoldable pub remove : List ReplyMsg → Result (ReplyMsg × List ReplyMsg)
remove [] = fault null
remove (m ∷ ms) = ok (m, ms)

-- The lock goes to the first waiter, who gets the reply that was kept for it.
unfoldable pub hand_over : ℤ → ServerLock → Server → Result Server
unfolding remove
hand_over index l s = do
  (new_msg, rest) ← remove l.wait_queue
  send_reply new_msg (
      put_lock index
        (record l {
          num_waiters = l.num_waiters - 1;
          wait_queue = rest;
          owner = new_msg.id_to_send_to;
        })
        s)

unfoldable pub release : ℤ → Server → Result Server
unfolding hand_over
release index s = do
  to_release ← lock_at index s
  if ltb 0 to_release.num_waiters
      then hand_over index to_release s
      else ok (
          if to_release.to_be_deleted
          then delete_lock index s
          else put_lock index (record to_release { owner = minus_one; available = true }) s)
