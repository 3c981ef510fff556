-- ===== src/Network/Server/State.antt =====
-- network/nettest.cc:32-117, the structs and the four tables, and what the server uses of the post
-- office (network/post.cc, `Send`): its assertions, and the packets that it hands to the network.
-- Whether the network takes a packet (`success`) changes nothing but what the server prints.
use project.Prelude.{
  ℕ, ◌+◌, ◌*◌, ◌%◌, ◌^◌, Bool, true, false, List, [], ◌∷◌, Option, some, ℤ, pos, negsuc, minus_one,
  length, take, ltb, leb, Result, ok, assertion, check, ◌>>◌, slot, set_slot,
}

-- `PacketHeader` and `MailHeader` of an outgoing message, with its first `length` bytes.
pub record Packet : Type 0 where
  pub machine : ℤ
  pub box : ℤ
  pub payload : List ℕ

pub record ReplyMsg : Type 0 where
  pub id_to_send_to : ℤ
  pub box_to_send_to : ℤ
  pub msg_length : ℕ
  pub response_msg : List ℕ

pub record ServerLock : Type 0 where
  pub owner : ℤ
  pub id : ℕ
  pub available : Bool
  pub owner_mail_box_num : ℤ
  pub wait_queue : List ReplyMsg
  pub name : List ℕ
  pub num_waiters : ℕ
  pub to_be_deleted : Bool

pub record ServerCv : Type 0 where
  pub server_lock_index : ℤ
  pub id : ℕ
  pub wait_queue : List ReplyMsg
  pub name : List ℕ
  pub to_be_deleted : Bool
  pub num_waiters : ℕ

pub record ServerMv : Type 0 where
  pub values : List ℤ
  pub id : ℕ
  pub name : List ℕ
  pub num_elements : ℕ

pub record PendingRequest : Type 0 where
  pub no_count : ℕ
  pub op_code : ℕ
  pub client_id : ℤ
  pub client_mail : ℤ
  pub name : List ℕ

-- The tables, the packets that have been sent (newest first) and the values that the command line
-- sets: `numServers`, `serverID` and the number of mailboxes.
pub record Server : Type 0 where
  pub locks : List (Option ServerLock)
  pub cvs : List (Option ServerCv)
  pub mvs : List (Option ServerMv)
  pub pending : List PendingRequest
  pub sent : List Packet
  pub num_servers : ℕ
  pub server_id : ℕ
  pub num_boxes : ℕ

-- The constructors `ServerLock(_name, _id)` and `ServerCV(_name, _id)`.
abbrev pub new_lock : List ℕ → ℕ → ServerLock
new_lock name id = record {
  owner = minus_one;
  id = id;
  available = true;
  owner_mail_box_num = minus_one;
  wait_queue = [];
  name = name;
  num_waiters = 0;
  to_be_deleted = false;
}

abbrev pub new_cv : List ℕ → ℕ → ServerCv
new_cv name id = record {
  server_lock_index = minus_one;
  id = id;
  wait_queue = [];
  name = name;
  to_be_deleted = false;
  num_waiters = 0;
}

-- `unsigned int uniqueID = table.size() + serverID * 50`
abbrev pub unique_id : ℕ → ℕ → ℕ
unique_id size server_id = (size + server_id * 50) % 2 ^ 32

-- MaxWireSize - sizeof(PacketHeader) - sizeof(MailHeader)
abbrev pub max_mail_size : ℕ
max_mail_size = 40

-- `0 <= mailHdr.to && mailHdr.to < numBoxes`
abbrev pub in_boxes : ℤ → ℕ → Bool
in_boxes (pos b) n = ltb b n
in_boxes (negsuc b) n = false

unfoldable pub send : ℤ → ℤ → List ℕ → Server → Result Server
send machine box payload s = do
  check (leb (length payload) max_mail_size) assertion
  check (in_boxes box s.num_boxes) assertion
  ok (record s { sent = record { machine = machine; box = box; payload = payload } ∷ s.sent })

-- The send of a queued reply.
unfoldable pub send_reply : ReplyMsg → Server → Result Server
send_reply m s = send m.id_to_send_to m.box_to_send_to (take m.msg_length m.response_msg) s

abbrev pub lock_at : ℤ → Server → Result ServerLock
lock_at i s = slot i s.locks

abbrev pub put_lock : ℤ → ServerLock → Server → Server
put_lock i l s = record s { locks = set_slot i (some l) s.locks }

abbrev pub delete_lock : ℤ → Server → Server
delete_lock i s = record s { locks = set_slot i Option.none s.locks }

abbrev pub cv_at : ℤ → Server → Result ServerCv
cv_at i s = slot i s.cvs

abbrev pub put_cv : ℤ → ServerCv → Server → Server
put_cv i c s = record s { cvs = set_slot i (some c) s.cvs }

abbrev pub delete_cv : ℤ → Server → Server
delete_cv i s = record s { cvs = set_slot i Option.none s.cvs }

abbrev pub mv_at : ℤ → Server → Result ServerMv
mv_at i s = slot i s.mvs

abbrev pub put_mv : ℤ → ServerMv → Server → Server
put_mv i m s = record s { mvs = set_slot i (some m) s.mvs }

abbrev pub delete_mv : ℤ → Server → Server
delete_mv i s = record s { mvs = set_slot i Option.none s.mvs }
