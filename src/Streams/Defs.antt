-- ===== src/Streams/Defs.antt =====
-- The class StreamSocket, with what it can see of the runner and of the kernel: the events that its
-- descriptor is listened to for, the bytes that the kernel took, and the answers that sendmsg, recvmsg
-- and epoll_ctl will give; those of epoll_ctl are accepting behind the list. The stream buffers are the bytes that they stand for. `calls` is the trace of the callbacks,
-- the latest first.
use bb_eventloop.Common.{
  ℕ, Option, none, some, List, [], ◌∷◌, ◌++◌, Bool, true, false, not, ◌&&◌, ◌||◌, ltb, min,
  if◌then◌else◌, length, take, drop, non_existing_fd_listener, ◌==◌,
}
use bb_eventloop.Common.Attempts.{fails, Attempt, returns, throws, ◌>>=◌}

-- What sendmsg does with the bytes: it takes at most that many, returns EAGAIN, or fails with an error; or
-- there is no memory for the array of the buffers.
pub data Reply : Type 0 where
  took : ℕ → Reply
  would_block no_memory : Reply
  failed : ℕ → Reply

-- What receiving does: bytes, the end of the stream, EAGAIN, an error, or no memory for the buffer.
pub data Incoming : Type 0 where
  arrived : List ℕ → Incoming
  nothing end_of_stream out_of_memory : Incoming
  broken : ℕ → Incoming

pub data Call : Type 0 where
  established all_data_sent data_received : Call
  closed : ℕ → Call

pub record StreamSocket : Type 0 where
  pub fd : Bool
  pub connecting : Bool
  pub sending : Bool
  pub input : List ℕ
  pub output : List ℕ
  pub events : Option ℕ
  pub sent : List ℕ
  pub replies : List Reply
  pub incoming : List Incoming
  pub ctl : List (Option ℕ)
  pub calls : List Call

-- Which callbacks are set, and what they do: the bytes that the callback of the connection writes, how many
-- bytes of the input the callback of received data cuts off, and what it writes. Those of sent data and of the end
-- write nothing.
pub record Callbacks : Type 0 where
  pub has_established : Bool
  pub has_all_data_sent : Bool
  pub greeting : List ℕ
  pub consumed : List ℕ → ℕ
  pub answer : List ℕ → List ℕ

-- EVENT_IN, EVENT_IN | EVENT_OUT, EBADF and ENOMEM
abbrev pub event_in : ℕ
event_in = 1

abbrev pub event_in_out : ℕ
event_in_out = 5

abbrev pub ebadf : ℕ
ebadf = 9

abbrev pub enomem : ℕ
enomem = 12

-- The events of a call of handleEventsCb, and SO_ERROR.
pub record Events : Type 0 where
  pub event_in : Bool
  pub event_out : Bool
  pub event_err : Bool
  pub event_hup : Bool
  pub error : ℕ

abbrev pub call : Call → StreamSocket → StreamSocket
call c s = record s { calls = c ∷ s.calls }

-- The constructors that connect, and the one that takes a descriptor over.
unfoldable pub connect : List Reply → List Incoming → List (Option ℕ) → StreamSocket
connect replies incoming ctl = record {
  fd = true;
  connecting = true;
  sending = false;
  input = [];
  output = [];
  events = some event_in_out;
  sent = [];
  replies = replies;
  incoming = incoming;
  ctl = ctl;
  calls = [];
}

unfoldable pub take_over : List Reply → List Incoming → List (Option ℕ) → StreamSocket
take_over replies incoming ctl = record (connect replies incoming ctl) {
  connecting = false;
  events = some event_in;
}

-- What epoll_ctl does with a modification: it is accepted, or fails with an error.
abbrev pub next_ctl : List (Option ℕ) → Option ℕ × List (Option ℕ)
next_ctl [] = (none, [])
next_ctl (o ∷ os) = (o, os)

abbrev pub modified : ℕ → StreamSocket → Option ℕ × List (Option ℕ) → Attempt StreamSocket
modified e s (none, os) = returns (record s { events = some e; ctl = os })
modified e s (some error, os) = fails error (record s { ctl = os })

-- runner.modifyFDListener, which finds no listener once the socket is closed, and calls epoll_ctl where the events
-- change
unfoldable pub modify_fd_listener : ℕ → StreamSocket → Attempt StreamSocket
modify_fd_listener e s = elim s.events [
  | none ↦ throws non_existing_fd_listener
  | some old ↦ if old == e then returns s else modified e s (next_ctl s.ctl)
]

-- The destructor, which removes the listener; that of the descriptor closes it. Removing a descriptor that is
-- listened to does not fail.
unfoldable pub destroy : StreamSocket → StreamSocket
destroy s = if s.fd then record s { fd = false; events = none } else s

unfoldable pub close : ℕ → StreamSocket → StreamSocket
close error s = if s.fd then call (closed error) (record s { fd = false; events = none }) else s

abbrev pub is_empty : List ℕ → Bool
is_empty [] = true
is_empty (b ∷ bs) = false

-- A catch of SystemException, and of std::bad_alloc where there is one
abbrev pub caught : Attempt StreamSocket → Attempt StreamSocket
caught (returns s) = returns s
caught (throws e) = throws e
caught (fails error s) = returns (close error s)

abbrev pub next_reply : List Reply → Reply × List Reply
next_reply [] = (would_block, [])
next_reply (r ∷ rs) = (r, rs)

-- system.sendmsg of the output, which fails with EBADF once the descriptor is closed
unfoldable pub sendmsg : StreamSocket → Reply × StreamSocket
sendmsg s =
    if s.fd
    then (let (r, rs) = next_reply s.replies in
        let t = record s { replies = rs } in
        elim r [
          | took n ↦ (
            took (min n (length s.output)),
            record t { sent = s.sent ++ take (min n (length s.output)) s.output },
          )
          | would_block ↦ (would_block, t)
          | no_memory ↦ (no_memory, t)
          | failed e ↦ (failed e, t)
        ])
    else (failed ebadf, s)

-- What recvmsg gives next.
abbrev pub next_incoming : List Incoming → Incoming × List Incoming
next_incoming [] = (nothing, [])
next_incoming (i ∷ is) = (i, is)

unfoldable pub check_connection_closed : Events → StreamSocket → StreamSocket
check_connection_closed e s =
    if s.fd && (e.event_hup || e.event_err) then close (if e.event_err then e.error else 0) s else s

module _ (c : Callbacks) where
  abbrev pub call_all_data_sent : StreamSocket → StreamSocket
  call_all_data_sent s = if c.has_all_data_sent then call all_data_sent s else s

  -- The end of send: what the listener waits for.
  unfoldable pub rearm : StreamSocket → Attempt StreamSocket
  rearm s =
      if not (is_empty s.output)
      then (modify_fd_listener event_in_out s >>= (λ t. returns (record t { sending = true })))
      else (modify_fd_listener event_in s
          >>= (λ t. returns (call_all_data_sent (record t { sending = false }))))

  -- send; std::bad_alloc by the error that it is handled as
  unfoldable pub send : StreamSocket → Attempt StreamSocket
  send s =
      let (r, t) = sendmsg s in
      elim r [
        | took n ↦ rearm (if ltb 0 n then record t { output = drop n t.output } else t)
        | would_block ↦ rearm t
        | no_memory ↦ fails enomem t
        | failed e ↦ fails e t
      ]

  unfoldable pub try_send : StreamSocket → Attempt StreamSocket
  try_send s = caught (send s)

  unfoldable pub start_sending : StreamSocket → Attempt StreamSocket
  start_sending s =
      if not s.sending && (not s.connecting && not (is_empty s.output))
      then try_send s
      else returns s

  -- A client that appends to the output and starts the sending.
  unfoldable pub write : List ℕ → StreamSocket → Attempt StreamSocket
  write bytes s = start_sending (record s { output = s.output ++ bytes })

  unfoldable pub check_connection_established : Events → StreamSocket → Attempt StreamSocket
  check_connection_established e s =
      if s.connecting && ((e.event_in || e.event_out) && not (e.event_err || e.event_hup))
      then (let t = record s { connecting = false } in
          (if c.has_established then write c.greeting (call established t) else returns t)
          >>= (λ u. if is_empty u.output then modify_fd_listener event_in u else returns u))
      else returns s

  -- allocateReceiveBuffer and receive; std::bad_alloc by the error that it is handled as
  unfoldable pub receive : StreamSocket → Attempt StreamSocket
  receive s =
      if not s.fd
      then fails ebadf s
      else (let (i, is) = next_incoming s.incoming in
          let t = record s { incoming = is } in
          elim i [
            | arrived bytes ↦
                (let whole = s.input ++ bytes in
                  write (c.answer whole)
                    (call data_received (record t { input = drop (c.consumed whole) whole })))
            | nothing ↦ returns t
            | end_of_stream ↦ returns (close 0 t)
            | out_of_memory ↦ fails enomem t
            | broken error ↦ fails error t
          ])

  unfoldable pub check_incoming_data : Events → StreamSocket → Attempt StreamSocket
  check_incoming_data e s = if e.event_in then caught (receive s) else returns s

  unfoldable pub check_outgoing_data : Events → StreamSocket → Attempt StreamSocket
  check_outgoing_data e s = if s.fd && e.event_out then try_send s else returns s

  unfoldable pub handle_events_cb : Events → StreamSocket → Attempt StreamSocket
  handle_events_cb e s =
      check_connection_established e s
      >>= check_incoming_data e
      >>= check_outgoing_data e
      >>= (λ t. returns (check_connection_closed e t))
