-- ===== src/SeqPacket/Run.antt =====
-- A SeqPacketSocket over its whole life: any sequence of calls of send and of events that the runner hands it.
use bb_eventloop.Common.{
  ℕ, ◌≡◌, refl, sym, subst, ◌∙◌, List, [], ◌∷◌, ◌++◌, append-nil, Bool, true, if◌then◌else◌,
}
use bb_eventloop.Common.Attempts.{Attempt, returns}
use bb_eventloop.SeqPacket.Defs.{
  Packet, Reply, Incoming, SeqPacketSocket, Callbacks, Events, connect, take_over, send,
  handle_events_cb,
}
use bb_eventloop.SeqPacket.Queue.{is_packet, all_packets, Delivers, live, dead}
use bb_eventloop.SeqPacket.Sending.{send_lem}
use bb_eventloop.SeqPacket.Events.{answers, handle_events_cb_lem}

-- What is asked of the socket: the client sends, or the runner hands events to it, if it is still open.
pub data Op : Type 0 where
  sends : Packet → Op
  handles : Events → Op

abbrev pub step : Callbacks → Op → SeqPacketSocket → Attempt SeqPacketSocket
step c (sends p) s = send c p s
step c (handles e) s = if s.fd then handle_events_cb c e s else returns s

abbrev pub is_valid : Op → Bool
is_valid (sends p) = is_packet p
is_valid (handles e) = true

-- The packets that a step hands to send.
abbrev pub submits : Callbacks → Op → SeqPacketSocket → List Packet
submits c (sends p) s = p ∷ []
submits c (handles e) s = if s.fd then answers c e.event_in s.incoming else []

-- The states that a socket reaches, with the packets that send was called with until then.
pub data Reaches (c : Callbacks) : List Packet → SeqPacketSocket → Type 0 where
  connects : (rs : List Reply) (is : List Incoming) → Reaches c [] (connect rs is [])
  takes_over : (rs : List Reply) (is : List Incoming) → Reaches c [] (take_over rs is [])
  then_step :
      {all : List Packet} {s t : SeqPacketSocket} (o : Op)
      → Reaches c all s
      → is_valid o ≡ true
      → step c o s ≡ returns t
      → Reaches c (all ++ submits c o s) t

returns_inj : {s t : SeqPacketSocket} → returns s ≡ returns t → s ≡ t
returns_inj h = cc

abbrev StepResult : Callbacks → List Packet → Events → SeqPacketSocket → Bool → Type 0
StepResult c all e s b =
    (t : SeqPacketSocket) × ((if b then handle_events_cb c e s else returns s) ≡ returns t)
    × Delivers (all ++ (if b then answers c e.event_in s.incoming else [])) t

module _ (c : Callbacks) (greets : c.greeting ≡ [])
    (answering : (bytes : List ℕ) → all_packets (c.answer bytes) ≡ true) where
  step_lem :
      (all : List Packet) (s : SeqPacketSocket) (o : Op)
      → Delivers all s
      → is_valid o ≡ true
      → (t : SeqPacketSocket) × (step c o s ≡ returns t) × Delivers (all ++ submits c o s) t
  step_lem all s (sends p) d k = send_lem c all p s d k
  step_lem all s (handles e) (live v h) k =
      subst (StepResult c all e s) (sym v.open_fd)
        (handle_events_cb_lem c e all s greets answering v h)
  step_lem all s (handles e) (dead v lost h) k =
      subst (StepResult c all e s) (sym v.closed_fd)
        (s, refl, subst (λ l. Delivers l s) (sym (append-nil all)) (dead v lost h))

  pub reaches-Delivers :
      {all : List Packet} {s : SeqPacketSocket} → Reaches c all s → Delivers all s
  unfolding connect take_over
  reaches-Delivers (connects rs is) =
      live
        (record {
          open_fd = refl;
          accepting = refl;
          listened = (5, refl);
          armed = λ h. cc;
          waiting = refl;
          nonempty = refl;
          no_closing = refl;
        })
        refl
  reaches-Delivers (takes_over rs is) =
      live
        (record {
          open_fd = refl;
          accepting = refl;
          listened = (1, refl);
          armed = λ h. cc;
          waiting = refl;
          nonempty = refl;
          no_closing = refl;
        })
        refl
  reaches-Delivers (then_step {all} {s} {t} o r k h) =
      let (u, x, d) = step_lem all s o (reaches-Delivers r) k in
      subst (Delivers (all ++ submits c o s)) (returns_inj (sym x ∙ h)) d

  -- In such a state, every call of send with a packet that is not empty and every handling of events, with
  -- whatever the kernel answers but a failure of epoll_ctl, returns and throws nothing.
  pub reaches_step :
      {all : List Packet} {s : SeqPacketSocket} (o : Op)
      → Reaches c all s
      → is_valid o ≡ true
      → (t : SeqPacketSocket) × (step c o s ≡ returns t) × Reaches c (all ++ submits c o s) t
  reaches_step {all} {s} o r k =
      let (t, x, d) = step_lem all s o (reaches-Delivers r) k in (t, x, then_step o r k x)
