-- ===== src/SeqPacket/Draining.antt =====
-- A SeqPacketSocket sends what it queued once the kernel takes it, and sends an empty packet without end.
use bb_eventloop.Common.{
  ℕ, suc, zero, ◌≡◌, refl, sym, ap, ◌∙◌, some, List, [], ◌∷◌, ◌++◌, append-nil, append_assoc, true,
  false, length, arith, if◌then◌else◌,
}
use bb_eventloop.Common.Attempts.{Attempt, returns, ◌>>=◌}
use bb_eventloop.SeqPacket.Defs.{
  Packet, Reply, accepted, SeqPacketSocket, Callbacks, Events, all_data_sent, sendmsg,
  try_send_fast, modify_fd_listener, send_slow_loop, send_slow, check_outgoing_data, send, queue,
  handle_events_cb, check_connection_established, check_incoming_data, check_connection_closed,
}
use bb_eventloop.SeqPacket.Queue.{is_packet, all_packets, IsLive, modify_fd_listener_lem}

abbrev pub accepts : ℕ → List Reply → List Reply
accepts zero rs = rs
accepts (suc n) rs = accepted ∷ accepts n rs

try_send_fast-accepted :
    (p : Packet) (s : SeqPacketSocket) (rs : List Reply)
    → s.fd ≡ true
    → is_packet p ≡ true
    → s.replies ≡ accepted ∷ rs
    → try_send_fast p s ≡ (true, record s { replies = rs; sent = s.sent ++ (p ∷ []) })
unfolding try_send_fast sendmsg
try_send_fast-accepted p s rs h k a = ground (arith, h, k, a)

-- The queue of a socket that the kernel accepts everything of.
send_slow_loop-accepts :
    (ps : List Packet) (rs : List Reply) (s : SeqPacketSocket)
    → s.fd ≡ true
    → all_packets ps ≡ true
    → s.replies ≡ accepts (length ps) rs
    → s.output_queue ≡ ps
    → send_slow_loop ps s
      ≡ (true, record s { output_queue = []; sent = s.sent ++ ps; replies = rs })
unfolding send_slow_loop
send_slow_loop-accepts [] rs s h k a q =
    λ i. (true, record s { output_queue = q i; sent = sym (append-nil s.sent) i; replies = a i })
send_slow_loop-accepts (p ∷ ps) rs s h k a q =
    rw (try_send_fast-accepted p s (accepts (length ps) rs) h (ground (arith, k)) a) (
      send_slow_loop-accepts ps rs
        (record s {
          replies = accepts (length ps) rs;
          sent = s.sent ++ (p ∷ []);
          output_queue = ps;
        })
        h (ground (arith, k)) refl refl
      ∙ ap (λ l. (true, record s { output_queue = []; sent = l; replies = rs }))
          (append_assoc s.sent (p ∷ []) ps))

-- A live socket that gets EVENT_OUT while the kernel accepts each of the queued packets, and
-- epoll_ctl what it is asked for: all of them are sent, in order and behind what was sent before,
-- the queue is empty, and the socket is not sending any more and listened to for EVENT_IN only; the
-- callback for it, where it is set, is called.
pub drain_lem :
    (c : Callbacks) (e : Events) (s : SeqPacketSocket) (rs : List Reply)
    → IsLive s
    → e.event_out ≡ true
    → s.replies ≡ accepts (length s.output_queue) rs
    → check_outgoing_data c e s
      ≡ returns (record s {
        output_queue = [];
        sent = s.sent ++ s.output_queue;
        replies = rs;
        sending = false;
        events = some 1;
        calls = if c.has_all_data_sent then all_data_sent ∷ s.calls else s.calls;
      })
unfolding check_outgoing_data send_slow modify_fd_listener
drain_lem c e s rs v o a = ground (
  arith,
  o,
  v.open_fd,
  v.listened.1,
  send_slow_loop-accepts s.output_queue rs s v.open_fd v.nonempty a refl,
)

abbrev pub copies : ℕ → Packet → List Packet
copies zero p = []
copies (suc n) p = p ∷ copies n p

abbrev pub rounds : Callbacks → Events → ℕ → SeqPacketSocket → Attempt SeqPacketSocket
rounds c e zero s = returns s
rounds c e (suc n) s = handle_events_cb c e s >>= rounds c e n

-- Only EVENT_OUT.
pub record IsWritable (e : Events) : Type 0 where
  pub no_in : e.event_in ≡ false
  pub out : e.event_out ≡ true
  pub no_err : e.event_err ≡ false
  pub no_hup : e.event_hup ≡ false

-- A connected socket with nothing to send.
pub record IsIdle (s : SeqPacketSocket) : Type 0 where
  pub open_fd : s.fd ≡ true
  pub connected : s.connecting ≡ false
  pub not_sending : s.sending ≡ false
  pub empty : s.output_queue ≡ []
  pub listened : (k : ℕ) × (s.events ≡ some k)
  pub accepting : s.ctl ≡ []

send_empty :
    (c : Callbacks) (p : Packet) (s : SeqPacketSocket) (rs : List Reply)
    → IsIdle s
    → p.bytes ≡ []
    → s.replies ≡ accepted ∷ rs
    → send c p s
      ≡ returns (record s {
        sending = true;
        output_queue = p ∷ [];
        events = some 5;
        sent = s.sent ++ (p ∷ []);
        replies = rs;
      })
unfolding send try_send_fast sendmsg queue
send_empty c p s rs v b a =
    let t : SeqPacketSocket = record s {
      sending = true;
      output_queue = s.output_queue ++ (p ∷ []);
      sent = s.sent ++ (p ∷ []);
      replies = rs;
    } in
    ground (
      arith,
      v.open_fd,
      v.connected,
      v.not_sending,
      v.empty,
      b,
      a,
      modify_fd_listener_lem 5 t v.listened.0 v.listened.1 v.accepting,
    )

round_empty :
    (c : Callbacks) (e : Events) (p : Packet) (s : SeqPacketSocket) (rs : List Reply)
    → IsWritable e
    → s.fd ≡ true
    → s.connecting ≡ false
    → p.bytes ≡ []
    → s.output_queue ≡ p ∷ []
    → s.replies ≡ accepted ∷ rs
    → handle_events_cb c e s ≡ returns (record s { sent = s.sent ++ (p ∷ []); replies = rs })
unfolding handle_events_cb check_connection_established check_incoming_data check_outgoing_data
    check_connection_closed send_slow send_slow_loop try_send_fast sendmsg
round_empty c e p s rs w h n b q a =
    ground (arith, w.no_in, w.out, w.no_err, w.no_hup, h, n, b, q, a)

rounds_empty :
    (n : ℕ) (c : Callbacks) (e : Events) (p : Packet) (s : SeqPacketSocket) (rs : List Reply)
    → IsWritable e
    → s.fd ≡ true
    → s.connecting ≡ false
    → p.bytes ≡ []
    → s.output_queue ≡ p ∷ []
    → s.replies ≡ accepts n rs
    → rounds c e n s ≡ returns (record s { sent = s.sent ++ copies n p; replies = rs })
rounds_empty zero c e p s rs w h k b q a =
    λ i. returns (record s { sent = sym (append-nil s.sent) i; replies = a i })
rounds_empty (suc n) c e p s rs w h k b q a =
    let t : SeqPacketSocket = record s { sent = s.sent ++ (p ∷ []); replies = accepts n rs } in
    ap (λ o. o >>= rounds c e n) (round_empty c e p s (accepts n rs) w h k b q a)
    ∙ rounds_empty n c e p t rs w h k b q refl
    ∙ ap (λ l. returns (record s { sent = l; replies = rs }))
        (append_assoc s.sent (p ∷ []) (copies n p))

-- An empty packet that is sent on a connected socket with nothing to send, where epoll_ctl accepts,
-- and any number of times EVENT_OUT after that, while the kernel accepts the packet each time: send
-- puts it in the queue all the same, it stays there, alone, and it was sent once by send and once
-- by each EVENT_OUT. The socket is still sending and listened to for EVENT_OUT.
pub empty_packet_repeats :
    (n : ℕ) (c : Callbacks) (e : Events) (p : Packet) (s : SeqPacketSocket) (rs : List Reply)
    → IsIdle s
    → IsWritable e
    → p.bytes ≡ []
    → s.replies ≡ accepts (suc n) rs
    → (send c p s >>= rounds c e n)
      ≡ returns (record s {
        sending = true;
        output_queue = p ∷ [];
        events = some 5;
        sent = s.sent ++ copies (suc n) p;
        replies = rs;
      })
empty_packet_repeats n c e p s rs v w b a =
    let t : SeqPacketSocket = record s {
      sending = true;
      output_queue = p ∷ [];
      events = some 5;
      sent = s.sent ++ (p ∷ []);
      replies = accepts n rs;
    } in
    let full : List Packet → SeqPacketSocket = λ l. record s {
      sending = true;
      output_queue = p ∷ [];
      events = some 5;
      sent = l;
      replies = rs;
    } in
    ap (λ o. o >>= rounds c e n) (send_empty c p s (accepts n rs) v b a)
    ∙ rounds_empty n c e p t rs w v.open_fd v.connected b refl refl
    ∙ ap (λ l. returns (full l)) (append_assoc s.sent (p ∷ []) (copies n p))
