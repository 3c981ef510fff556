-- ===== src/Userprog/Clients.antt =====
-- userprog/exception.cc: the system calls that ask a server for a lock, a condition or a variable.
-- `sent` is what `postOffice->Send` returns, and `response` the mail that `Receive` then gets; what
-- `copyin` copied is `none` for a bad pointer.
use project.Prelude.{
  ℕ, zero, suc, ◌+◌, ◌-◌, ◌%◌, List, [], ◌∷◌, ◌++◌, Option, none, some, Bool, true, false, ℤ, pos,
  negsuc, minus_one, of_char, to_char, eq_ℤ, length, get_or, leb, ltb, if◌then◌else◌, Result, ok,
  fault, dangling, overrun, assertion, check, ◌>>=◌, ◌>>◌,
}
pub mod Requests
mod Tests

-- The thread that calls: the machine it runs on, its mailbox, and the numbers of servers and of mailboxes.
pub record Client : Type 0 where
  pub net_addr : ℕ
  pub mail_box : ℕ
  pub num_servers : ℕ
  pub num_boxes : ℕ

-- The headers that are filled in, and the `outMailHdr.length` bytes that are sent.
pub record Mail : Type 0 where
  pub to_machine : ℕ
  pub to_box : ℕ
  pub from_machine : ℕ
  pub from_box : ℕ
  pub bytes : List ℕ

-- `new char[40]`
abbrev pub buffer_size : ℕ
buffer_size = 40

-- `request[1] = index` for an `unsigned int`.
abbrev pub low_byte : ℕ → ℕ
low_byte index = index % 256

-- A request is put into its buffer and handed to `Send`; `random` is what `rand()` returns.
unfoldable pub send_request : Client → ℕ → List ℕ → Result Mail
send_request c random bytes = do
  check (leb (length bytes) buffer_size) overrun
  check (ltb 0 c.num_boxes) assertion
  ok (record {
    to_machine = random % c.num_servers;
    to_box = 0;
    from_machine = c.net_addr;
    from_box = c.mail_box;
    bytes = bytes;
  })

-- `(unsigned int)response[0]`, as an `int`.
abbrev pub answer : List ℕ → ℤ
answer response = of_char (get_or response 0 0)

-- A request of a call that returns the server's answer.
unfoldable pub ask : Client → ℕ → Bool → List ℕ → List ℕ → Result (Option Mail × ℤ)
unfolding send_request
ask c random sent response bytes = do
  m ← send_request c random bytes
  ok (some m, if sent then answer response else minus_one)

-- The name as it is sent: with a blank and the digit `id + '0'`, if `id` is not 0.
abbrev pub name_bytes : List ℕ → ℤ → List ℕ
name_bytes buf (pos zero) = buf
name_bytes buf (pos (suc n)) = buf ++ (32 ∷ to_char (pos (suc n + 48)) ∷ [])
name_bytes buf (negsuc n) = buf ++ (32 ∷ (48 + 255 - n % 256) % 256 ∷ [])

-- The request to create something with a name.
unfoldable pub create_bytes : ℕ → List ℕ → ℤ → List ℕ
create_bytes code buf id = code ∷ low_byte (length (name_bytes buf id)) ∷ name_bytes buf id

-- `CreateLock_Syscall` and `CreateCondition_Syscall` are alike but for the code.
unfoldable pub create_named :
    ℕ → Client → ℕ → Bool → List ℕ → Option (List ℕ) → ℤ → Result (Option Mail × ℤ)
unfolding ask create_bytes
create_named code c random sent response none id = ok (none, minus_one)
create_named code c random sent response (some buf) id =
    ask c random sent response (create_bytes code buf id)

unfoldable pub create_lock_syscall :
    Client → ℕ → Bool → List ℕ → Option (List ℕ) → ℤ → Result (Option Mail × ℤ)
unfolding create_named
create_lock_syscall = create_named 0

unfoldable pub destroy_lock_syscall : Client → ℕ → ℕ → Result Mail
unfolding send_request
destroy_lock_syscall c random index = send_request c random (3 ∷ low_byte index ∷ [])

unfoldable pub acquire_syscall : Client → ℕ → ℕ → Result Mail
unfolding send_request
acquire_syscall c random index = send_request c random (1 ∷ low_byte index ∷ [])

unfoldable pub release_syscall : Client → ℕ → ℕ → Result Mail
unfolding send_request
release_syscall c random index = send_request c random (2 ∷ low_byte index ∷ [])

unfoldable pub create_condition_syscall :
    Client → ℕ → Bool → List ℕ → Option (List ℕ) → ℤ → Result (Option Mail × ℤ)
unfolding create_named
create_condition_syscall = create_named 4

unfoldable pub destroy_condition_syscall : Client → ℕ → ℕ → Result Mail
unfolding send_request
destroy_condition_syscall c random index = send_request c random (8 ∷ low_byte index ∷ [])

unfoldable pub wait_syscall : Client → ℕ → ℕ → ℕ → Result Mail
unfolding send_request
wait_syscall c random cv lock = send_request c random (7 ∷ low_byte cv ∷ low_byte lock ∷ [])

unfoldable pub signal_syscall : Client → ℕ → ℕ → ℕ → Result Mail
unfolding send_request
signal_syscall c random cv lock = send_request c random (5 ∷ low_byte cv ∷ low_byte lock ∷ [])

unfoldable pub broadcast_syscall : Client → ℕ → ℕ → ℕ → Result Mail
unfolding send_request
broadcast_syscall c random cv lock = send_request c random (6 ∷ low_byte cv ∷ low_byte lock ∷ [])

unfoldable pub create_mv_syscall :
    Client → ℕ → Bool → List ℕ → Option (List ℕ) → ℤ → ℤ → Result (Option Mail × ℤ)
unfolding ask create_bytes
create_mv_syscall c random sent response none num_elements id = ok (none, minus_one)
create_mv_syscall c random sent response (some buf) num_elements id =
    ask c random sent response (create_bytes 9 buf id ++ (to_char num_elements ∷ []))

-- The answer is received into the buffer after its `delete`.
unfoldable pub destroy_mv_syscall : Client → ℕ → Bool → ℤ → Result Mail
unfolding send_request
destroy_mv_syscall c random sent index = do
  m ← send_request c random (12 ∷ to_char index ∷ [])
  if sent then fault dangling else ok m

unfoldable pub set_mv_syscall : Client → ℕ → ℤ → ℤ → ℤ → Result Mail
unfolding send_request
set_mv_syscall c random index position val =
    send_request c random (10 ∷ to_char index ∷ to_char position ∷ to_char val ∷ [])

unfoldable pub get_mv_syscall : Client → ℕ → Bool → List ℕ → ℤ → ℤ → Result (Option Mail × ℤ)
unfolding ask
get_mv_syscall c random sent response index position =
    ask c random sent response (11 ∷ to_char index ∷ to_char position ∷ [])
