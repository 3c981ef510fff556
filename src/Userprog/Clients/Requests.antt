-- ===== src/Userprog/Clients/Requests.antt =====
-- What the servers of network/nettest.cc read of the requests of userprog/exception.cc.
use project.Prelude.{
  ℕ, zero, suc, ◌+◌, ◌%◌, ◌≤◌, ◌<◌, ◌≡◌, refl, ap, ◌∙◌, List, [], ◌∷◌, ◌++◌, Option, some, Bool,
  true, ℤ, pos, of_char, length, length-append, get_or, leb, ltb, Result, ok, Returns, arith,
  lt→ltb,
}
use project.Network.Server.State.{Server}
use project.Network.Server.Requests.{Request, byte, arg, bytes_from, read_name}
use project.Network.Server.Handlers.{
  dispatch, read_size, on_create_lock, on_acquire, on_release, on_destroy_lock, on_create_cv,
  on_signal, on_broadcast, on_wait, on_destroy_cv, on_create_mv, on_set_mv, on_get_mv,
}
use project.Userprog.Clients.{
  Client, Mail, name_bytes, create_bytes, ask, create_lock_syscall, destroy_lock_syscall,
  acquire_syscall, release_syscall, create_condition_syscall, destroy_condition_syscall,
  wait_syscall, signal_syscall, broadcast_syscall, create_mv_syscall, set_mv_syscall,
  get_mv_syscall,
}

-- The mail, as the server receives it.
abbrev pub request_of : Mail → Request
request_of m = record { from_machine = m.from_machine; from_box = m.from_box; bytes = m.bytes }

-- The server handles the mail by `handler`.
abbrev pub HandledBy : (Request → Server → Result Server) → Mail → Type 0
HandledBy handler m =
    (garbage : ℕ) (s : Server)
    → dispatch (byte (request_of m) 0) garbage (request_of m) s ≡ handler (request_of m) s

bytes_from_lem :
    (r : Request) (i : ℕ) (name : List ℕ)
    → ((j : ℕ) → j < length name → byte r (i + j) ≡ get_or name j 0)
    → bytes_from r i (length name) ≡ name
unfolding bytes_from
bytes_from_lem r i [] h = refl
bytes_from_lem r i (x ∷ xs) h =
    ap (λ y. y ∷ bytes_from r (i + 1) (length xs)) (ap (byte r) (omega arith) ∙ h 0 (omega arith))
    ∙ ap (λ ys. x ∷ ys)
        (bytes_from_lem r (i + 1) xs λ j l. ap (byte r) (omega arith) ∙ h (suc j) (omega arith))

get_or-append : (xs ys : List ℕ) (j : ℕ) → j < length xs → get_or (xs ++ ys) j 0 ≡ get_or xs j 0
get_or-append [] ys j h = absurd (omega arith)
get_or-append (x ∷ xs) ys zero h = refl
get_or-append (x ∷ xs) ys (suc j) h = get_or-append xs ys j (omega arith)

-- The bytes after the first two.
get_or-tail : (a b : ℕ) (xs : List ℕ) (j : ℕ) → get_or (a ∷ b ∷ xs) (2 + j) 0 ≡ get_or xs j 0
get_or-tail a b xs j = ap (λ i. get_or (a ∷ b ∷ xs) i 0) (the_same j)
  where
    the_same : (j : ℕ) → 2 + j ≡ suc (suc j)
    the_same j = omega arith

-- A name of at most 38 bytes that follows the code and the length is read as it was written.
name_lem :
    (machine box code : ℕ) (name tail : List ℕ)
    → length name ≤ 38
    → ((j : ℕ) → j < length name → get_or tail j 0 ≡ get_or name j 0)
    → let r : Request = record {
      from_machine = machine;
      from_box = box;
      bytes = code ∷ (length name % 256) ∷ tail;
    } in
      read_name r 2 (arg r 1) ≡ ok name
unfolding read_name arg
name_lem machine box code name tail h t =
    let r : Request = record {
      from_machine = machine;
      from_box = box;
      bytes = code ∷ (length name % 256) ∷ tail;
    } in
    let short : of_char (length name % 256) ≡ pos (length name) = ground arith in
    let fits : leb (2 + length name) 40 ≡ true = ground arith in
    rw short (
      rw fits (
        ap ok (bytes_from_lem r 2 name λ j l. get_or-tail code (length name % 256) tail j ∙ t j l)))

get_or-last : (xs : List ℕ) (x : ℕ) → get_or (xs ++ (x ∷ [])) (length xs) 0 ≡ x
get_or-last [] x = refl
get_or-last (y ∷ xs) x = get_or-last xs x

size_lem :
    (machine box code : ℕ) (name : List ℕ) (size : ℕ)
    → length name ≤ 37
    → size < 128
    → let r : Request = record {
      from_machine = machine;
      from_box = box;
      bytes = code ∷ (length name % 256) ∷ (name ++ (size % 256 ∷ []));
    } in
      read_size r (arg r 1) ≡ ok (pos size)
unfolding read_size arg
size_lem machine box code name size h k =
    let short : of_char (length name % 256) ≡ pos (length name) = ground arith in
    let fits : ltb (length name + 2) 40 ≡ true = ground arith in
    let last : get_or (code ∷ (length name % 256) ∷ (name ++ (size % 256 ∷ []))) (length name + 2) 0
        ≡ size % 256 =
      ap (λ i. get_or (code ∷ (length name % 256) ∷ (name ++ (size % 256 ∷ []))) i 0) (omega arith)
      ∙ get_or-tail code (length name % 256) (name ++ (size % 256 ∷ [])) (length name)
      ∙ get_or-last name (size % 256) in
    rw short (rw fits (ap ok (rw last (ground arith))))

-- The calls on a lock reach the handler of the call, with the number of the lock, if it is below 128.
pub lock_calls-arrive :
    (c : Client) (random index : ℕ)
    → 0 < c.num_boxes
    → index < 128
    → Returns
        (λ m. HandledBy on_acquire m × (arg (request_of m) 1 ≡ pos index))
        (acquire_syscall c random index)
      × Returns
          (λ m. HandledBy on_release m × (arg (request_of m) 1 ≡ pos index))
          (release_syscall c random index)
      × Returns
          (λ m. HandledBy on_destroy_lock m × (arg (request_of m) 1 ≡ pos index))
          (destroy_lock_syscall c random index)
unfolding acquire_syscall release_syscall destroy_lock_syscall dispatch arg
lock_calls-arrive c random index h l =
    let e : ltb 0 c.num_boxes ≡ true = lt→ltb 0 c.num_boxes h in
    rw e ((λ g s. refl, ground arith), (λ g s. refl, ground arith), (λ g s. refl, ground arith))

-- The calls on a condition reach the handler of the call, with the numbers of the condition and of the
-- lock, if they are below 128.
pub condition_calls-arrive :
    (c : Client) (random cv lock : ℕ)
    → 0 < c.num_boxes
    → cv < 128
    → lock < 128
    → Returns
        (λ m.
          HandledBy on_wait m × (arg (request_of m) 1 ≡ pos cv) × (arg (request_of m) 2 ≡ pos lock))
        (wait_syscall c random cv lock)
      × Returns
          (λ m.
            HandledBy on_signal m
            × (arg (request_of m) 1 ≡ pos cv)
            × (arg (request_of m) 2 ≡ pos lock))
          (signal_syscall c random cv lock)
      × Returns
          (λ m.
            HandledBy on_broadcast m
            × (arg (request_of m) 1 ≡ pos cv)
            × (arg (request_of m) 2 ≡ pos lock))
          (broadcast_syscall c random cv lock)
      × Returns
          (λ m. HandledBy on_destroy_cv m × (arg (request_of m) 1 ≡ pos cv))
          (destroy_condition_syscall c random cv)
unfolding wait_syscall signal_syscall broadcast_syscall destroy_condition_syscall dispatch arg
condition_calls-arrive c random cv lock h k l =
    let e : ltb 0 c.num_boxes ≡ true = lt→ltb 0 c.num_boxes h in
    rw e (
      (λ g s. refl, ground arith, ground arith),
      (λ g s. refl, ground arith, ground arith),
      (λ g s. refl, ground arith, ground arith),
      (λ g s. refl, ground arith),
    )

-- There is a mail, and it has the property.
abbrev pub Sends : (Mail → Type 0) → Option Mail × ℤ → Type 0
Sends P x = (m : Mail) × (x.0 ≡ some m) × P m

-- The name that the server reads.
abbrev pub Names : List ℕ → Mail → Type 0
Names name m = read_name (request_of m) 2 (arg (request_of m) 1) ≡ ok name

ask-Sends :
    (P : Mail → Type 0) (c : Client) (random : ℕ) (sent : Bool) (response bytes : List ℕ)
    → 0 < c.num_boxes
    → length bytes ≤ 40
    → P (record {
      to_machine = random % c.num_servers;
      to_box = 0;
      from_machine = c.net_addr;
      from_box = c.mail_box;
      bytes = bytes;
    })
    → Returns (Sends P) (ask c random sent response bytes)
unfolding ask
ask-Sends P c random sent response bytes h k p =
    let fits : leb (length bytes) 40 ≡ true = ground arith in
    rw (fits, lt→ltb 0 c.num_boxes h)
      (
        record {
          to_machine = random % c.num_servers;
          to_box = 0;
          from_machine = c.net_addr;
          from_box = c.mail_box;
          bytes = bytes;
        },
        refl,
        p,
      )

-- The name under which a client creates a lock, a condition or a variable is the name that the server
-- reads, in the handler of the call, and the server reads the size of a variable that the client gave,
-- for a name of at most 37 bytes, the number at its end included, and a size below 128.
pub create_calls-arrive :
    (c : Client) (random size : ℕ) (sent : Bool) (response buf : List ℕ) (id : ℤ)
    → 0 < c.num_boxes
    → length (name_bytes buf id) ≤ 37
    → size < 128
    → Returns
        (Sends (λ m. HandledBy on_create_lock m × Names (name_bytes buf id) m))
        (create_lock_syscall c random sent response (some buf) id)
      × Returns
          (Sends (λ m. HandledBy on_create_cv m × Names (name_bytes buf id) m))
          (create_condition_syscall c random sent response (some buf) id)
      × Returns
          (Sends (λ m.
            HandledBy on_create_mv m
            × Names (name_bytes buf id) m
            × (read_size (request_of m) (arg (request_of m) 1) ≡ ok (pos size))))
          (create_mv_syscall c random sent response (some buf) (pos size) id)
unfolding create_lock_syscall create_condition_syscall create_mv_syscall dispatch
create_calls-arrive c random size sent response buf id h k l = (
  ask-Sends _ c random sent response (create_bytes 0 buf id) h (omega arith)
      (λ g s. refl, name_lem c.net_addr c.mail_box 0 name name (omega arith) λ j m. refl),
  ask-Sends _ c random sent response (create_bytes 4 buf id) h (omega arith)
      (λ g s. refl, name_lem c.net_addr c.mail_box 4 name name (omega arith) λ j m. refl),
  ask-Sends _ c random sent response (create_bytes 9 buf id ++ (size % 256 ∷ [])) h
      (omega (arith, length-append name (size % 256 ∷ [])))
      (
        λ g s. refl,
        name_lem c.net_addr c.mail_box 9 name (name ++ (size % 256 ∷ [])) (omega arith)
            (λ j m. get_or-append name (size % 256 ∷ []) j m),
        size_lem c.net_addr c.mail_box 9 name size k l,
      ),
)
  where
    name : List ℕ
    name = name_bytes buf id

-- The calls on a variable reach the handler of the call, with the number of the variable, the position
-- and the value, if they are below 128.
pub variable_calls-arrive :
    (c : Client) (random index position value : ℕ) (sent : Bool) (response : List ℕ)
    → 0 < c.num_boxes
    → index < 128
    → position < 128
    → value < 128
    → Returns
        (λ m.
          HandledBy on_set_mv m
          × (arg (request_of m) 1 ≡ pos index)
          × (arg (request_of m) 2 ≡ pos position)
          × (arg (request_of m) 3 ≡ pos value))
        (set_mv_syscall c random (pos index) (pos position) (pos value))
      × Returns
          (Sends (λ m.
            HandledBy on_get_mv m
            × (arg (request_of m) 1 ≡ pos index)
            × (arg (request_of m) 2 ≡ pos position)))
          (get_mv_syscall c random sent response (pos index) (pos position))
unfolding set_mv_syscall get_mv_syscall dispatch arg
variable_calls-arrive c random index position value sent response h k l n = (
  rw (lt→ltb 0 c.num_boxes h) (λ g s. refl, ground arith, ground arith, ground arith),
  ask-Sends _ c random sent response (11 ∷ (index % 256) ∷ (position % 256) ∷ []) h (omega arith)
      (λ g s. refl, ground arith, ground arith),
)
