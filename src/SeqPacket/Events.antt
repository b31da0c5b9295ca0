-- ===== src/SeqPacket/Events.antt =====
-- The events of a SeqPacketSocket: the order of its packets, and the end of the connection.
use bb_eventloop.Common.{
  ℕ, ◌≡◌, refl, sym, subst, ap, ◌∙◌, none, some, List, [], ◌∷◌, ◌++◌, append-nil, Bool, true, false,
  not, ◌&&◌, ◌||◌, take, arith, Bool-cases, inl, inr, if◌then◌else◌,
}
use bb_eventloop.Common.Attempts.{Attempt, returns, ◌>>=◌}
use bb_eventloop.SeqPacket.Defs.{
  Packet, Incoming, arrived, nothing, broken, Call, established, received, closed, SeqPacketSocket,
  Callbacks, Events, close, modify_fd_listener, call_all_data_sent, send_slow_loop, send_slow,
  check_connection_established, receive, check_incoming_data, check_outgoing_data,
  check_connection_closed, handle_events_cb,
}
use bb_eventloop.SeqPacket.Queue.{
  all_packets, IsLive, Delivers, live, dead, IsSending, Looped, emptied, stopped,
  send_slow_loop_lem, closings, modify_fd_listener_lem,
}
use bb_eventloop.SeqPacket.Sending.{SendResult, quiet-Delivers, announced-Delivers, send_all_lem}

-- The packets that the callback sends on what is received.
abbrev pub answers : Callbacks → Bool → List Incoming → List Packet
answers c false is = []
answers c true [] = []
answers c true (arrived bytes ∷ is) = c.answer (take c.max_size bytes)
answers c true (nothing ∷ is) = []
answers c true (broken e ∷ is) = []

close-Delivers :
    (error : ℕ) (all : List Packet) (s : SeqPacketSocket)
    → Delivers all s
    → Delivers all (close error s)
unfolding close
close-Delivers error all s (dead v lost h) =
    subst (Delivers all) {x = s} (rw v.closed_fd refl) (dead v lost h)
close-Delivers error all s (live v h) =
    subst (Delivers all)
      {x = record s { fd = false; events = none; calls = closed error ∷ s.calls }}
      (ground (arith, v.open_fd))
      (dead
        (record {
          closed_fd = refl;
          unheard = refl;
          one_closing = (error, ap (◌∷◌ error) v.no_closing);
        })
        s.output_queue h)

check_connection_closed-Delivers :
    (e : Events) (all : List Packet) (s : SeqPacketSocket)
    → Delivers all s
    → Delivers all (check_connection_closed e s)
unfolding check_connection_closed
check_connection_closed-Delivers e all s d =
    elim (Bool-cases (s.fd && (e.event_hup || e.event_err))) [
      | inl k ↦ rw k (close-Delivers _ all s d)
      | inr k ↦ rw k d
    ]

-- A round of sending that is over: only EVENT_IN is listened to.
idle-IsLive :
    (s : SeqPacketSocket)
    → IsSending s
    → s.output_queue ≡ []
    → IsLive (record s { sending = false; events = some 1 })
idle-IsLive s v e = record {
  open_fd = v.open_fd;
  accepting = v.accepting;
  listened = (1, refl);
  armed = λ h. cc;
  waiting = rw e refl;
  nonempty = v.nonempty;
  no_closing = v.no_closing;
}

abbrev finish_round : Callbacks → Bool × SeqPacketSocket → Attempt SeqPacketSocket
finish_round c r =
    let (done, t) = r in
    if done
    then (modify_fd_listener 1 (record t { sending = false })
        >>= (λ u. returns (call_all_data_sent c u)))
    else returns t

round-result :
    (c : Callbacks) (all : List Packet) (r : Bool × SeqPacketSocket)
    → Looped all r
    → SendResult all (finish_round c r)
round-result c all _ (emptied t v e h) =
    let u = record t { sending = false; events = some 1 } in
    (
      call_all_data_sent c u,
      ap (λ o. o >>= (λ u. returns (call_all_data_sent c u)))
          (modify_fd_listener_lem 1 (record t { sending = false }) v.listened.0 v.listened.1
            v.accepting),
      announced-Delivers c all u (live (idle-IsLive t v e) (rw e (append-nil t.sent ∙ h))),
    )
round-result c all _ (stopped t d) = (t, refl, d)

IsLive-IsSending : (s : SeqPacketSocket) → IsLive s → IsSending s
IsLive-IsSending s v = record {
  open_fd = v.open_fd;
  accepting = v.accepting;
  listened = v.listened;
  queued = λ h. sym v.waiting ∙ h;
  armed = v.armed;
  nonempty = v.nonempty;
  no_closing = v.no_closing;
}

check_outgoing_data_lem :
    (c : Callbacks) (e : Events) (all : List Packet) (s : SeqPacketSocket)
    → Delivers all s
    → SendResult all (check_outgoing_data c e s)
unfolding check_outgoing_data send_slow
check_outgoing_data_lem c e all s (dead v lost h) = (s, rw v.closed_fd refl, dead v lost h)
check_outgoing_data_lem c e all s (live v h) = elim (Bool-cases (s.fd && e.event_out)) [
  | inl k ↦ rw k (
      round-result c all (send_slow_loop s.output_queue s)
        (send_slow_loop_lem all s.output_queue s (IsLive-IsSending s v) refl h))
  | inr k ↦ (s, rw k refl, live v h)
]

module _ (c : Callbacks)
    (answer_packets : (bytes : List ℕ) → all_packets (c.answer bytes) ≡ true) where
  receive_lem :
      (all : List Packet) (s : SeqPacketSocket) (e : Events) (is : List Incoming)
      → s.incoming ≡ is
      → e.event_in ≡ true
      → IsLive s
      → s.sent ++ s.output_queue ≡ all
      → SendResult (all ++ answers c true is) (check_incoming_data c e s)
  unfolding check_incoming_data receive
  receive_lem all s e [] i k v h = (
    record s { incoming = [] },
    ground (arith, i, k, v.open_fd),
    subst (λ l. Delivers l (record s { incoming = [] })) (sym (append-nil all))
        (quiet-Delivers all s s.connecting [] s.calls refl (live v h)),
  )
  receive_lem all s e (arrived bytes ∷ is) i k v h =
      let data_in = take c.max_size bytes in
      let t = record s { incoming = is; calls = received data_in ∷ s.calls } in
      let (u, e', d) =
        send_all_lem c (c.answer data_in) all t
          (quiet-Delivers all s s.connecting is (received data_in ∷ s.calls) refl (live v h))
          (answer_packets data_in) in
      (u, ground (arith, i, k, v.open_fd, e'), d)
  receive_lem all s e (nothing ∷ is) i k v h = (
    record s { incoming = is },
    ground (arith, i, k, v.open_fd),
    subst (λ l. Delivers l (record s { incoming = is })) (sym (append-nil all))
        (quiet-Delivers all s s.connecting is s.calls refl (live v h)),
  )
  receive_lem all s e (broken x ∷ is) i k v h =
      let t = record s { incoming = is } in
      (
        close x t,
        ground (arith, i, k, v.open_fd),
        subst (λ l. Delivers l (close x t)) (sym (append-nil all))
            (close-Delivers x all t (quiet-Delivers all s s.connecting is s.calls refl (live v h))),
      )

  check_incoming_data_lem :
      (all : List Packet) (s : SeqPacketSocket) (e : Events)
      → IsLive s
      → s.sent ++ s.output_queue ≡ all
      → SendResult (all ++ answers c e.event_in s.incoming) (check_incoming_data c e s)
  unfolding check_incoming_data
  check_incoming_data_lem all s e v h = elim (Bool-cases e.event_in) [
    | inl k ↦
        subst (λ b. SendResult (all ++ answers c b s.incoming) (check_incoming_data c e s)) (sym k)
          (receive_lem all s e s.incoming refl k v h)
    | inr k ↦ rw k (s, refl, subst (λ l. Delivers l s) (sym (append-nil all)) (live v h))
  ]

-- What a step leaves of the socket that the following ones need.
abbrev KeptResult : SeqPacketSocket → Attempt SeqPacketSocket → Type 0
KeptResult s o =
    (t : SeqPacketSocket) × (o ≡ returns t)
    × IsLive t
    × (t.sent ++ t.output_queue ≡ s.sent ++ s.output_queue)
    × (t.incoming ≡ s.incoming)

settled : SeqPacketSocket → Attempt SeqPacketSocket
settled u = if not u.sending then modify_fd_listener 1 u else returns u

settled_lem : (s : SeqPacketSocket) → IsLive s → KeptResult s (settled s)
unfolding settled
settled_lem s v = elim (Bool-cases s.sending) [
  | inl k ↦ (s, ap (λ b. if not b then modify_fd_listener 1 s else returns s) k, v, refl, refl)
  | inr k ↦ (
    record s { events = some 1 },
    ap (λ b. if not b then modify_fd_listener 1 s else returns s) k
        ∙ modify_fd_listener_lem 1 s v.listened.0 v.listened.1 v.accepting,
    record {
      open_fd = v.open_fd;
      accepting = v.accepting;
      listened = (1, refl);
      armed = λ h. cc;
      waiting = v.waiting;
      nonempty = v.nonempty;
      no_closing = v.no_closing;
    },
    refl,
    refl,
  )
]

quiet-IsLive :
    (s : SeqPacketSocket) (cs : List Call)
    → closings cs ≡ closings s.calls
    → IsLive s
    → IsLive (record s { connecting = false; calls = cs })
quiet-IsLive s cs e v = record {
  open_fd = v.open_fd;
  accepting = v.accepting;
  listened = v.listened;
  armed = v.armed;
  waiting = v.waiting;
  nonempty = v.nonempty;
  no_closing = e ∙ v.no_closing;
}

check_connection_established_lem :
    (c : Callbacks) (e : Events) (s : SeqPacketSocket)
    → c.greeting ≡ []
    → IsLive s
    → KeptResult s (check_connection_established c e s)
unfolding check_connection_established settled
check_connection_established_lem c e s g v =
    elim (Bool-cases
      (s.connecting && ((e.event_in || e.event_out) && not (e.event_err || e.event_hup)))) [
        | inr k ↦ (s, rw k refl, v, refl, refl)
        | inl k ↦ elim (Bool-cases c.has_established) [
          | inl k' ↦
              rw (k, k', g)
                (settled_lem (record s { connecting = false; calls = established ∷ s.calls })
                  (quiet-IsLive s (established ∷ s.calls) refl v))
          | inr k' ↦
              rw (k, k')
                (settled_lem (record s { connecting = false }) (quiet-IsLive s s.calls refl v))
        ]
      ]

-- A call of handleEventsCb on a live socket returns, and adds what the callback answers on what is
-- received behind the other packets.
pub handle_events_cb_lem :
    (c : Callbacks) (e : Events) (all : List Packet) (s : SeqPacketSocket)
    → c.greeting ≡ []
    → ((bytes : List ℕ) → all_packets (c.answer bytes) ≡ true)
    → IsLive s
    → s.sent ++ s.output_queue ≡ all
    → SendResult (all ++ answers c e.event_in s.incoming) (handle_events_cb c e s)
unfolding handle_events_cb
handle_events_cb_lem c e all s g a v h =
    let (t, x, w, k, i) = check_connection_established_lem c e s g v in
    let (u, y, d) = check_incoming_data_lem c a all t e w (k ∙ h) in
    let (z, o, d') = check_outgoing_data_lem c e (all ++ answers c e.event_in t.incoming) u d in
    (
      check_connection_closed e z,
      rw (x, y, o) refl,
      subst (λ is. Delivers (all ++ answers c e.event_in is) (check_connection_closed e z)) i
          (check_connection_closed-Delivers e _ z d'),
    )
