-- ===== src/SeqPacket/Defs.antt =====
-- The class SeqPacketSocket, with what it can see of the runner and of the kernel: the events that its
-- descriptor is listened to for, the packets that the kernel took, and the answers that sendmsg,
-- recvmsg, getsockopt and epoll_ctl will give. `calls` is the trace of its callbacks, the latest first.
use bb_eventloop.Common.{
  ℕ, Option, none, some, List, [], ◌∷◌, ◌++◌, Bool, true, false, not, ◌&&◌, ◌||◌, ltb,
  if◌then◌else◌, length, take, non_existing_fd_listener, ◌==◌,
}
use bb_eventloop.Common.Attempts.{fails, Attempt, returns, throws, ◌>>=◌}

-- SeqPacketSocket::Data, with the control message as its bytes
pub record Packet : Type 0 where
  pub bytes : List ℕ
  pub cm : List ℕ

-- What sendmsg does with a packet: it takes it whole, returns EAGAIN, or fails with an error.
pub data Reply : Type 0 where
  accepted would_block : Reply
  failed : ℕ → Reply

-- What recvmsg does: a packet, EAGAIN, or an error.
pub data Incoming : Type 0 where
  arrived : List ℕ → Incoming
  nothing : Incoming
  broken : ℕ → Incoming

pub data Call : Type 0 where
  established all_data_sent : Call
  received : List ℕ → Call
  closed : ℕ → Call

pub record SeqPacketSocket : Type 0 where
  pub fd : Bool
  pub connecting : Bool
  pub sending : Bool
  pub output_queue : List Packet
  pub events : Option ℕ
  pub sent : List Packet
  pub replies : List Reply
  pub incoming : List Incoming
  pub ctl : List (Option ℕ)
  pub calls : List Call

-- The other arguments of the constructors: the largest packet to receive, which of the callbacks are
-- set, and the packets that the callbacks send: when the connection is there, and on received data. Those of
-- sent data and of the end send nothing.
pub record Callbacks : Type 0 where
  pub max_size : ℕ
  pub has_established : Bool
  pub has_all_data_sent : Bool
  pub greeting : List Packet
  pub answer : List ℕ → List Packet

-- EVENT_IN, EVENT_IN | EVENT_OUT and EBADF
abbrev pub event_in : ℕ
event_in = 1

abbrev pub event_in_out : ℕ
event_in_out = 5

abbrev pub ebadf : ℕ
ebadf = 9

-- The events of a call of handleEventsCb, and SO_ERROR.
pub record Events : Type 0 where
  pub event_in : Bool
  pub event_out : Bool
  pub event_err : Bool
  pub event_hup : Bool
  pub error : ℕ

abbrev pub call : Call → SeqPacketSocket → SeqPacketSocket
call c s = record s { calls = c ∷ s.calls }

-- The constructors that connect, and the one that takes a descriptor over.
unfoldable pub connect : List Reply → List Incoming → List (Option ℕ) → SeqPacketSocket
connect replies incoming ctl = record {
  fd = true;
  connecting = true;
  sending = false;
  output_queue = [];
  events = some event_in_out;
  sent = [];
  replies = replies;
  incoming = incoming;
  ctl = ctl;
  calls = [];
}

unfoldable pub take_over : List Reply → List Incoming → List (Option ℕ) → SeqPacketSocket
take_over replies incoming ctl = record (connect replies incoming ctl) {
  connecting = false;
  events = some event_in;
}

-- What epoll_ctl does with a modification: it is accepted, or fails with an error.
abbrev pub next_ctl : List (Option ℕ) → Option ℕ × List (Option ℕ)
next_ctl [] = (none, [])
next_ctl (o ∷ os) = (o, os)

abbrev pub modified : ℕ → SeqPacketSocket → Option ℕ × List (Option ℕ) → Attempt SeqPacketSocket
modified e s (none, os) = returns (record s { events = some e; ctl = os })
modified e s (some error, os) = fails error (record s { ctl = os })

-- runner.modifyFDListener, which finds no listener once the socket is closed, and calls epoll_ctl where the events
-- change
unfoldable pub modify_fd_listener : ℕ → SeqPacketSocket → Attempt SeqPacketSocket
modify_fd_listener e s = elim s.events [
  | none ↦ throws non_existing_fd_listener
  | some old ↦ if old == e then returns s else modified e s (next_ctl s.ctl)
]

-- The destructor, which removes the listener; that of the descriptor closes it. Removing a descriptor that is
-- listened to does not fail.
unfoldable pub destroy : SeqPacketSocket → SeqPacketSocket
destroy s = if s.fd then record s { fd = false; events = none } else s

unfoldable pub close : ℕ → SeqPacketSocket → SeqPacketSocket
close error s = if s.fd then call (closed error) (record s { fd = false; events = none }) else s

abbrev pub is_accepted : Reply → Bool
is_accepted accepted = true
is_accepted would_block = false
is_accepted (failed e) = false

-- A catch of SystemException, and of std::bad_alloc where there is one
abbrev pub caught : Attempt SeqPacketSocket → Attempt SeqPacketSocket
caught (returns s) = returns s
caught (throws e) = throws e
caught (fails error s) = returns (close error s)

abbrev pub next_reply : List Reply → Reply × List Reply
next_reply [] = (would_block, [])
next_reply (r ∷ rs) = (r, rs)

-- system.sendmsg, which fails with EBADF once the descriptor is closed
unfoldable pub sendmsg : Packet → SeqPacketSocket → Reply × SeqPacketSocket
sendmsg p s =
    if s.fd
    then (let (r, rs) = next_reply s.replies in
        (r, record s { replies = rs; sent = if is_accepted r then s.sent ++ (p ∷ []) else s.sent }))
    else (failed ebadf, s)

-- trySendFast and sendFast, where a return value of sendmsg above 0 means that the packet is sent
unfoldable pub try_send_fast : Packet → SeqPacketSocket → Bool × SeqPacketSocket
try_send_fast p s =
    let (r, t) = sendmsg p s in
    elim r [
      | accepted ↦ (ltb 0 (length p.bytes), t)
      | would_block ↦ (false, t)
      | failed e ↦ (false, close e t)
    ]

unfoldable pub queue : Packet → SeqPacketSocket → Attempt SeqPacketSocket
queue p s =
    modify_fd_listener event_in_out
      (record s { sending = true; output_queue = s.output_queue ++ (p ∷ []) })

unfoldable pub send_slow_loop : List Packet → SeqPacketSocket → Bool × SeqPacketSocket
send_slow_loop [] s = (true, s)
send_slow_loop (p ∷ ps) s =
    let (done, t) = try_send_fast p s in
    if done then send_slow_loop ps (record t { output_queue = ps }) else (false, t)

unfoldable pub check_connection_closed : Events → SeqPacketSocket → SeqPacketSocket
check_connection_closed e s =
    if s.fd && (e.event_hup || e.event_err) then close (if e.event_err then e.error else 0) s else s

module _ (c : Callbacks) where
  abbrev pub call_all_data_sent : SeqPacketSocket → SeqPacketSocket
  call_all_data_sent s = if c.has_all_data_sent then call all_data_sent s else s

  unfoldable pub send : Packet → SeqPacketSocket → Attempt SeqPacketSocket
  send p s =
      let (done, t) = if s.sending || s.connecting then (false, s) else try_send_fast p s in
      if not done then (if t.fd then queue p t else returns t) else returns (call_all_data_sent t)

  abbrev pub send_all : List Packet → SeqPacketSocket → Attempt SeqPacketSocket
  send_all [] s = returns s
  send_all (p ∷ ps) s = send p s >>= send_all ps

  unfoldable pub check_connection_established : Events → SeqPacketSocket → Attempt SeqPacketSocket
  check_connection_established e s =
      if s.connecting && ((e.event_in || e.event_out) && not (e.event_err || e.event_hup))
      then (let t = record s { connecting = false } in
          (if c.has_established then send_all c.greeting (call established t) else returns t)
          >>= (λ u. if not u.sending then modify_fd_listener event_in u else returns u))
      else returns s

  abbrev next_incoming : List Incoming → Incoming × List Incoming
  next_incoming [] = (nothing, [])
  next_incoming (i ∷ is) = (i, is)

  -- receive. A packet is cut to the size of the buffer.
  unfoldable pub receive : SeqPacketSocket → Attempt SeqPacketSocket
  receive s =
      if not s.fd
      then fails ebadf s
      else (let (i, is) = next_incoming s.incoming in
          let t = record s { incoming = is } in
          elim i [
            | arrived bytes ↦
                send_all (c.answer (take c.max_size bytes))
                  (call (received (take c.max_size bytes)) t)
            | nothing ↦ returns t
            | broken error ↦ fails error t
          ])

  unfoldable pub check_incoming_data : Events → SeqPacketSocket → Attempt SeqPacketSocket
  check_incoming_data e s = if e.event_in then caught (receive s) else returns s

  unfoldable pub send_slow : SeqPacketSocket → Attempt SeqPacketSocket
  send_slow s =
      let (done, t) = send_slow_loop s.output_queue s in
      if done
      then (modify_fd_listener event_in (record t { sending = false })
          >>= (λ u. returns (call_all_data_sent u)))
      else returns t

  unfoldable pub check_outgoing_data : Events → SeqPacketSocket → Attempt SeqPacketSocket
  check_outgoing_data e s = if s.fd && e.event_out then send_slow s else returns s

  unfoldable pub handle_events_cb : Events → SeqPacketSocket → Attempt SeqPacketSocket
  handle_events_cb e s =
      check_connection_established e s
      >>= check_incoming_data e
      >>= check_outgoing_data e
      >>= (λ t. returns (check_connection_closed e t))
