-- ===== src/Network/Server/Conditions.antt =====
-- network/nettest.cc:256-362, the table of condition variables.
use project.Prelude.{
  ℕ, zero, suc, ◌+◌, ◌-◌, List, [], ◌∷◌, ◌++◌, Option, none, some, true, ◌&&◌, ℤ, pos, minus_one,
  of_unsigned, eq_ℤ, length, ltb, ◌==◌, if◌then◌else◌, Result, ok, fault, dangling, ◌>>=◌, in_table,
}
use project.Network.Server.State.{
  Server, ServerCv, new_cv, unique_id, lock_at, put_lock, cv_at, put_cv, delete_cv,
}
use project.Network.Server.Locks.{c_string, same_bytes, remove, hand_over}

-- The loop over the table: the position of the first variable of the name.
unfoldable pub find_cv : List ℕ → ℕ → List (Option ServerCv) → Result (Option ℕ)
find_cv name i [] = ok none
find_cv name i (none ∷ rest) = fault dangling
find_cv name i (some c ∷ rest) =
    let later = find_cv name (i + 1) rest in
    if same_bytes (c_string name) (c_string c.name) then ok (some i) else later

-- An old variable is named by its position, a new one by its `uniqueID`.
unfoldable pub create_cv : List ℕ → Server → Result (ℤ × Server)
unfolding find_cv
create_cv name s = do
  found ← find_cv name 0 s.cvs
  let unique = unique_id (length s.cvs) s.server_id
  ok (elim found [
    | some i ↦ (pos i, s)
    | none ↦ (of_unsigned unique, record s { cvs = s.cvs ++ some (new_cv name unique) ∷ [] })
  ])

-- The oldest waiter of the variable becomes the youngest of the lock.
unfoldable pub move_waiter : ℤ → ℤ → Server → Result Server
unfolding remove
move_waiter cond lock s = do
  to_signal ← cv_at cond s
  (new_msg, rest) ← remove to_signal.wait_queue
  l ← lock_at lock s
  ok (
      put_cv cond (record to_signal { num_waiters = to_signal.num_waiters - 1; wait_queue = rest })
        (put_lock lock
          (record l { num_waiters = l.num_waiters + 1; wait_queue = l.wait_queue ++ new_msg ∷ [] })
          s))

-- `if (toSignal->numWaiters == 0 && toSignal->toBeDeleted) delete toSignal;`
unfoldable pub reap_cv : ℤ → Server → Result Server
reap_cv cond s = do
  c ← cv_at cond s
  ok (if (c.num_waiters == 0) && c.to_be_deleted then delete_cv cond s else s)

unfoldable pub signal : ℤ → ℤ → Server → Result Server
unfolding move_waiter reap_cv
signal cond lock s =
    if in_table cond s.cvs
    then (do
      to_signal ← cv_at cond s
      if eq_ℤ to_signal.server_lock_index lock
          then (if ltb 0 to_signal.num_waiters
              then (do s' ← move_waiter cond lock s; reap_cv cond s')
              else ok (if to_signal.to_be_deleted then delete_cv cond s else s))
          else ok s)
    else ok s

-- The `while` loop of `Broadcast`: each round takes one from `numWaiters`, so that it makes as many
-- rounds as this was at the start.
unfoldable pub move_waiters : ℕ → ℤ → ℤ → Server → Result Server
unfolding move_waiter
move_waiters zero cond lock s = ok s
move_waiters (suc n) cond lock s = move_waiter cond lock s >>= move_waiters n cond lock

unfoldable pub broadcast : ℤ → ℤ → Server → Result Server
unfolding move_waiters
broadcast cond lock s =
    if in_table cond s.cvs
    then (do
      to_signal ← cv_at cond s
      if eq_ℤ to_signal.server_lock_index lock
          then (do
            s' ← move_waiters to_signal.num_waiters cond lock s
            ok (if to_signal.to_be_deleted then delete_cv cond s' else s'))
          else ok s)
    else ok s

-- The lock is released, but never deleted, as part of `Wait`.
unfoldable pub wait : ℤ → ℤ → Server → Result Server
unfolding hand_over
wait cond lock s = do
  c ← cv_at cond s
  let s' = put_cv cond (record c { server_lock_index = lock }) s
  to_release ← lock_at lock s'
  if ltb 0 to_release.num_waiters
      then hand_over lock to_release s'
      else ok (put_lock lock (record to_release { owner = minus_one; available = true }) s')

unfoldable pub destroy_cv : ℤ → Server → Result Server
destroy_cv index s =
    if in_table index s.cvs
    then (do
      to_delete ← cv_at index s
      ok (
          if to_delete.num_waiters == 0
          then delete_cv index s
          else put_cv index (record to_delete { to_be_deleted = true }) s))
    else ok s
