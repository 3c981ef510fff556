-- ===== src/Network/Server/Requests.antt =====
-- network/nettest.cc: what the cases of `Server()` read from a request and send back.
use project.Prelude.{
  ℕ, zero, suc, ◌+◌, List, [], ◌∷◌, Bool, false, ℤ, pos, negsuc, of_char, eq_ℤ, get_or, leb,
  if◌then◌else◌, Result, ok, fault, overrun, ◌>>=◌, in_table,
}
use project.Network.Server.State.{Server, ReplyMsg, send, lock_at}

-- What `Receive(0, &inPktHdr, &inMailHdr, request)` fills in.
pub record Request : Type 0 where
  pub from_machine : ℕ
  pub from_box : ℕ
  pub bytes : List ℕ

-- `request[i]`: the buffer is cleared before each request.
abbrev pub byte : Request → ℕ → ℕ
byte r i = get_or r.bytes i 0

unfoldable pub arg : Request → ℕ → ℤ
arg r i = of_char (byte r i)

-- The buffers `request` and `response` have 40 bytes.
abbrev pub buffer_size : ℕ
buffer_size = 40

unfoldable pub bytes_from : Request → ℕ → ℕ → List ℕ
bytes_from r i zero = []
bytes_from r i (suc n) = byte r i ∷ bytes_from r (i + 1) n

-- `name = new char[length+1]`, and the copy from `request`, which must not run past its end.
unfoldable pub read_name : Request → ℕ → ℤ → Result (List ℕ)
unfolding bytes_from
read_name r i (pos n) = if leb (i + n) buffer_size then ok (bytes_from r i n) else fault overrun
read_name r i (negsuc n) = fault overrun

-- The reply goes to the mailbox of the client on its machine.
unfoldable pub reply : Request → List ℕ → Server → Result Server
reply r payload s = send (pos r.from_machine) (pos r.from_box) payload s

abbrev pub ack : ℕ
ack = 255

abbrev pub mv_ack : ℕ
mv_ack = 127

-- The reply that is kept until the client has what it waits for.
abbrev pub kept_reply : Request → ReplyMsg
kept_reply r = record {
  id_to_send_to = pos r.from_machine;
  box_to_send_to = pos r.from_box;
  msg_length = 1;
  response_msg = ack ∷ [];
}

-- The test before `Signal`, `Broadcast` and `Wait`: the lock is in the table, and its owner is the
-- machine that asks.
unfoldable pub owns : ℤ → Request → Server → Result Bool
owns lock r s =
    if in_table lock s.locks
    then (do l ← lock_at lock s; ok (eq_ℤ l.owner (pos r.from_machine)))
    else ok false
