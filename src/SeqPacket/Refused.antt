-- ===== src/SeqPacket/Refused.antt =====
-- What a SeqPacketSocket is like where epoll_ctl fails.
use bb_eventloop.Common.{ℕ, ◌≡◌, Option, some, List, [], ◌∷◌, ◌++◌, true, false, arith}
use bb_eventloop.Common.Attempts.{fails}
use bb_eventloop.SeqPacket.Defs.{
  Packet, Reply, would_block, SeqPacketSocket, Callbacks, send, queue, modify_fd_listener,
  try_send_fast, sendmsg,
}

-- A packet that the kernel does not take yet, on a connected socket that is listened to for EVENT_IN, where
-- epoll_ctl fails: send throws, but the packet is in the queue, and the socket is sending and is still not
-- listened to for EVENT_OUT.
pub send-refused :
    (c : Callbacks) (p : Packet) (s : SeqPacketSocket) (x : ℕ) (rs : List Reply)
    (os : List (Option ℕ))
    → s.fd ≡ true
    → s.connecting ≡ false
    → s.sending ≡ false
    → s.events ≡ some 1
    → s.replies ≡ would_block ∷ rs
    → s.ctl ≡ some x ∷ os
    → send c p s
      ≡ fails x (record s {
        sending = true;
        output_queue = s.output_queue ++ (p ∷ []);
        replies = rs;
        ctl = os;
      })
unfolding send queue modify_fd_listener try_send_fast sendmsg
send-refused c p s x rs os h k n e r a = ground (arith, h, k, n, e, r, a)
