-- ===== src/Network/Server/Replies/Defs.antt =====
-- network/nettest.cc: the replies to one mailbox of one machine, sent or kept in a queue.
use project.Prelude.{
  ℕ, ◌+◌, ◌≡◌, refl, List, [], ◌∷◌, ◌++◌, length, ℤ, eq_ℤ, if◌then◌else◌, ◌&&◌, total, Holds, arith,
}
use project.Network.Server.State.{Server, ServerLock, ServerCv, Packet, ReplyMsg, send, send_reply}
use project.Network.Server.Requests.{Request, reply}
use project.Network.Server.Locks.{remove}
use project.Prelude.{pos, take}

module _ (machine box : ℤ) where
  -- 1 if the address is the mailbox, 0 if not.
  abbrev pub hit : ℤ → ℤ → ℕ
  hit m b = if eq_ℤ machine m && eq_ℤ box b then 1 else 0

  unfoldable pub delivered : List Packet → ℕ
  delivered [] = 0
  delivered (p ∷ ps) = hit p.machine p.box + delivered ps

  unfoldable pub queued : List ReplyMsg → ℕ
  queued [] = 0
  queued (m ∷ ms) = hit m.id_to_send_to m.box_to_send_to + queued ms

  abbrev pub on_lock : ServerLock → ℕ
  on_lock l = queued l.wait_queue

  abbrev pub on_cv : ServerCv → ℕ
  on_cv c = queued c.wait_queue

  -- The replies that the mailbox has been sent, and those that are kept for it.
  unfoldable pub replies : Server → ℕ
  replies s = delivered s.sent + total on_lock s.locks + total on_cv s.cvs

  pub queued-append : (ms ns : List ReplyMsg) → queued (ms ++ ns) ≡ queued ms + queued ns
  unfolding queued
  queued-append [] ns = omega arith
  queued-append (m ∷ ms) ns = omega (arith, queued-append ms ns)

  pub queued-none : (ms : List ReplyMsg) → length ms ≡ 0 → queued ms ≡ 0
  unfolding queued
  queued-none [] h = refl
  queued-none (m ∷ ms) h = absurd (omega arith)

  pub queued-one : (m : ReplyMsg) → queued (m ∷ []) ≡ hit m.id_to_send_to m.box_to_send_to
  unfolding queued
  queued-one m = omega arith

  pub send-replies :
      (m b : ℤ) (p : List ℕ) (s : Server)
      → Holds (λ t. replies t ≡ replies s + hit m b) (send m b p s)
  unfolding send replies delivered
  send-replies m b p s = ground arith

  pub reply-replies :
      (r : Request) (p : List ℕ) (s : Server)
      → Holds (λ t. replies t ≡ replies s + hit (pos r.from_machine) (pos r.from_box)) (reply r p s)
  unfolding reply
  reply-replies r p s = send-replies (pos r.from_machine) (pos r.from_box) p s

  pub send_reply-replies :
      (m : ReplyMsg) (s : Server)
      → Holds (λ t. replies t ≡ replies s + hit m.id_to_send_to m.box_to_send_to) (send_reply m s)
  unfolding send_reply
  send_reply-replies m s =
      send-replies m.id_to_send_to m.box_to_send_to (take m.msg_length m.response_msg) s

  -- What is taken from a queue is its first reply.
  pub remove-queued :
      (q : List ReplyMsg)
      → Holds (λ x. queued q ≡ hit x.0.id_to_send_to x.0.box_to_send_to + queued x.1) (remove q)
  unfolding remove queued
  remove-queued [] = tt
  remove-queued (m ∷ ms) = refl
