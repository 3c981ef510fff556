-- ===== src/Network/Server/Names.antt =====
-- network/nettest.cc: the names and numbers of locks. `CreateLock` gives out `uniqueID`, the search
-- returns it, and `Acquire` and the others take it for a position in the table.
use project.Prelude.{
  ℕ, zero, suc, ◌+◌, ◌*◌, ◌<◌, ◌^◌, ◌≡◌, refl, true, false, List, [], ◌∷◌, ◌++◌, pos, minus_one,
  of_unsigned, ok, fault, dangling, Holds, arith, Option, some, none, slot, set_slot, read, set,
  in_table, length, length-append, AllLive, slot-in_table,
}
use project.Network.Server.State.{Server, ServerLock, new_lock, unique_id}
use project.Network.Server.Locks.{
  create_lock, find_lock, get_lock_from_table, destroy_lock, acquire, same_bytes, c_string,
}

same_bytes_refl : (a : List ℕ) → same_bytes a a ≡ true
unfolding same_bytes
same_bytes_refl [] = refl
same_bytes_refl (x ∷ a) = ground (arith, same_bytes_refl a)

abbrev pub HasSmallId : ServerLock → Type 0
HasSmallId l = l.id < 2 ^ 31

find_lock-push :
    (name : List ℕ) (u : ℕ) (t : List (Option ServerLock))
    → AllLive HasSmallId t
    → find_lock name t ≡ ok minus_one
    → find_lock name (t ++ some (new_lock name u) ∷ []) ≡ ok (of_unsigned u)
unfolding find_lock
find_lock-push name u [] h e = ground (arith, same_bytes_refl (c_string name))
find_lock-push name u (none ∷ t) h e = cc
find_lock-push name u (some l ∷ t) h e = ground (arith, find_lock-push name u t h.1)

-- A lock that has been created is found under its name, by the number that its creator was given.
-- (The name was not in the table, no lock had been destroyed, and the numbers fit an `int`.)
pub get-create :
    (name : List ℕ) (s : Server)
    → AllLive HasSmallId s.locks
    → get_lock_from_table name s ≡ ok minus_one
    → get_lock_from_table name (create_lock name s).1 ≡ ok (create_lock name s).0
unfolding get_lock_from_table create_lock
get-create name s h e = find_lock-push name (unique_id (length s.locks) s.server_id) s.locks h e

-- On every server but number 0, the number that `CreateLock` hands out is no position in the table:
-- the lock that it names cannot be acquired.
pub acquire-create_refused :
    (name : List ℕ) (s : Server)
    → 0 < s.server_id
    → length s.locks + s.server_id * 50 < 2 ^ 31
    → acquire (create_lock name s).0 (create_lock name s).1 ≡ ok (minus_one, (create_lock name s).1)
unfolding acquire create_lock in_table
acquire-create_refused name s h b = ground (
  arith,
  length-append s.locks (some (new_lock name (unique_id (length s.locks) s.server_id)) ∷ []),
)

abbrev IsNamedElse : List ℕ → ServerLock → Type 0
IsNamedElse name l = same_bytes (c_string name) (c_string l.name) ≡ false

find_lock-hole :
    (name : List ℕ) (t : List (Option ServerLock)) (n : ℕ)
    → AllLive (IsNamedElse name) t
    → Holds (λ _. find_lock name (set t n none) ≡ fault dangling) (read t n)
unfolding find_lock read
find_lock-hole name [] n h = tt
find_lock-hole name (none ∷ t) zero h = tt
find_lock-hole name (some l ∷ t) zero h = refl
find_lock-hole name (none ∷ t) (suc n) h = ground (arith, find_lock-hole name t n h)
find_lock-hole name (some l ∷ t) (suc n) h = ground (arith, find_lock-hole name t n h.1)

-- Once a free lock has been destroyed, the search for a name that no lock has follows the pointer
-- that was left behind: no new lock can be created.
pub get-destroy_dangling :
    (name : List ℕ) (n : ℕ) (s t : Server) (l : ServerLock)
    → slot (pos n) s.locks ≡ ok l
    → l.available ≡ true
    → l.num_waiters ≡ 0
    → AllLive (λ k. same_bytes (c_string name) (c_string k.name) ≡ false) s.locks
    → destroy_lock (pos n) s ≡ ok t
    → get_lock_from_table name t ≡ fault dangling
unfolding get_lock_from_table destroy_lock slot set_slot
get-destroy_dangling name n s t l e a w h d =
    ground (arith, find_lock-hole name s.locks n h, slot-in_table (pos n) s.locks)
