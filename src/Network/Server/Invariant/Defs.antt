-- ===== src/Network/Server/Invariant/Defs.antt =====
-- What holds of every live object in the tables of network/nettest.cc between two requests.
use project.Prelude.{
  ℕ, ◌<◌, ◌≡◌, true, List, length, minus_one, AllLive, Holds, arith, ℤ, pos, take,
}
use project.Network.Server.State.{
  Server, ServerLock, ServerCv, ServerMv, ReplyMsg, send, send_reply,
}
use project.Network.Server.Requests.{Request, reply}

-- A free lock has no owner and no waiters.
pub record LockInv (l : ServerLock) : Type 0 where
  pub counted : l.num_waiters ≡ length l.wait_queue
  pub free : l.available ≡ true → l.owner ≡ minus_one
  pub idle : l.available ≡ true → l.num_waiters ≡ 0

-- A variable that is to be deleted still has waiters.
pub record CvInv (c : ServerCv) : Type 0 where
  pub counted : c.num_waiters ≡ length c.wait_queue
  pub doomed : c.to_be_deleted ≡ true → 0 < c.num_waiters

abbrev pub MvInv : ServerMv → Type 0
MvInv m = length m.values ≡ m.num_elements

pub record Inv (s : Server) : Type 0 where
  pub locks : AllLive LockInv s.locks
  pub cvs : AllLive CvInv s.cvs
  pub mvs : AllLive MvInv s.mvs

pub send-Inv : (m b : ℤ) (p : List ℕ) (s : Server) → Inv s → Holds Inv (send m b p s)
unfolding send
send-Inv m b p s v = ground arith

pub send_reply-Inv : (m : ReplyMsg) (s : Server) → Inv s → Holds Inv (send_reply m s)
unfolding send_reply
send_reply-Inv m s v =
    send-Inv m.id_to_send_to m.box_to_send_to (take m.msg_length m.response_msg) s v

pub reply-Inv : (r : Request) (p : List ℕ) (s : Server) → Inv s → Holds Inv (reply r p s)
unfolding reply
reply-Inv r p s v = send-Inv (pos r.from_machine) (pos r.from_box) p s v
