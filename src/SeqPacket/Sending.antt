-- ===== src/SeqPacket/Sending.antt =====
-- What becomes of the packets that a SeqPacketSocket is told to send: those that the kernel took, with those
-- that are queued behind them, are the packets of the calls of send, in their order.
use bb_eventloop.Common.{
  ℕ, ◌≡◌, refl, sym, subst, ap, ◌∙◌, none, some, List, [], ◌∷◌, ◌++◌, append_assoc, Bool, true,
  false, not, ◌||◌, arith, Bool-cases, inl, inr, if◌then◌else◌, append-nil,
}
use bb_eventloop.Common.Attempts.{Attempt, returns, ◌>>=◌}
use bb_eventloop.SeqPacket.Defs.{
  call_all_data_sent, Incoming, Packet, Call, all_data_sent, closed, SeqPacketSocket, Callbacks,
  close, sendmsg, try_send_fast, queue, send, send_all,
}
use bb_eventloop.SeqPacket.Queue.{
  closings, is_packet, all_packets, is_waiting, IsLive, Delivers, live, dead, Tried, took, refused,
  gave_up, try_send_fast_lem, modify_fd_listener_lem,
}

all_packets-append :
    (ps : List Packet) (p : Packet)
    → all_packets ps ≡ true
    → is_packet p ≡ true
    → all_packets (ps ++ (p ∷ [])) ≡ true
all_packets-append [] p h k = ground (arith, k)
all_packets-append (q ∷ ps) p h k = ground (arith, h, all_packets-append ps p)

is_waiting-append : (ps : List Packet) (p : Packet) → is_waiting (ps ++ (p ∷ [])) ≡ true
is_waiting-append [] p = refl
is_waiting-append (q ∷ ps) p = refl

-- One more packet in the queue.
abbrev queued_up : Packet → SeqPacketSocket → SeqPacketSocket
queued_up p s = record s {
  sending = true;
  output_queue = s.output_queue ++ (p ∷ []);
  events = some 5;
}

queue_lem :
    (p : Packet) (s : SeqPacketSocket) (e : ℕ)
    → s.events ≡ some e
    → s.ctl ≡ []
    → queue p s ≡ returns (queued_up p s)
unfolding queue
queue_lem p s e h free = modify_fd_listener_lem 5 _ e h free

queued_up-Delivers :
    (all : List Packet) (p : Packet) (s : SeqPacketSocket)
    → IsLive s
    → s.sent ++ s.output_queue ≡ all
    → is_packet p ≡ true
    → Delivers (all ++ (p ∷ [])) (queued_up p s)
queued_up-Delivers all p s v h k =
    live
      (record {
        open_fd = v.open_fd;
        accepting = v.accepting;
        listened = (5, refl);
        armed = λ _. refl;
        waiting = is_waiting-append s.output_queue p;
        nonempty = all_packets-append s.output_queue p v.nonempty k;
        no_closing = v.no_closing;
      })
      (sym (append_assoc s.sent s.output_queue (p ∷ [])) ∙ ap (λ l. l ++ (p ∷ [])) h)

-- Neither the end of the connecting, nor what was received, nor other callbacks touch the packets.
pub quiet-Delivers :
    (all : List Packet) (s : SeqPacketSocket) (b : Bool) (is : List Incoming) (cs : List Call)
    → closings cs ≡ closings s.calls
    → Delivers all s
    → Delivers all (record s { connecting = b; incoming = is; calls = cs })
quiet-Delivers all s b is cs e (live v h) =
    live
      (record {
        open_fd = v.open_fd;
        accepting = v.accepting;
        listened = v.listened;
        armed = v.armed;
        waiting = v.waiting;
        nonempty = v.nonempty;
        no_closing = e ∙ v.no_closing;
      })
      h
quiet-Delivers all s b is cs e (dead v lost h) =
    dead
      (record {
        closed_fd = v.closed_fd;
        unheard = v.unheard;
        one_closing = (v.one_closing.0, e ∙ v.one_closing.1);
      })
      lost h

pub announced-Delivers :
    (c : Callbacks) (all : List Packet) (s : SeqPacketSocket)
    → Delivers all s
    → Delivers all (call_all_data_sent c s)
announced-Delivers c all s d = elim (Bool-cases c.has_all_data_sent) [
  | inl e ↦ rw e (quiet-Delivers all s s.connecting s.incoming (all_data_sent ∷ s.calls) refl d)
  | inr e ↦ rw e d
]

abbrev finish_send : Callbacks → Packet → Bool × SeqPacketSocket → Attempt SeqPacketSocket
finish_send c p r =
    let (done, t) = r in
    if not done then (if t.fd then queue p t else returns t) else returns (call_all_data_sent c t)

abbrev pub SendResult : List Packet → Attempt SeqPacketSocket → Type 0
SendResult all o = (t : SeqPacketSocket) × (o ≡ returns t) × Delivers all t

queued-result :
    (c : Callbacks) (all : List Packet) (p : Packet) (s : SeqPacketSocket)
    → IsLive s
    → s.sent ++ s.output_queue ≡ all
    → is_packet p ≡ true
    → SendResult (all ++ (p ∷ [])) (finish_send c p (false, s))
queued-result c all p s v h k = (
  queued_up p s,
  ap (λ b. if b then queue p s else returns s) v.open_fd
      ∙ queue_lem p s v.listened.0 v.listened.1 v.accepting,
  queued_up-Delivers all p s v h k,
)

Tried-result :
    (c : Callbacks) (all : List Packet) (p : Packet) (s : SeqPacketSocket)
    → IsLive s
    → s.output_queue ≡ []
    → s.sent ++ s.output_queue ≡ all
    → is_packet p ≡ true
    → (r : Bool × SeqPacketSocket) → Tried p s r
    → SendResult (all ++ (p ∷ [])) (finish_send c p r)
Tried-result c all p s v e h k _ (took rs) =
    let t = record s { replies = rs; sent = s.sent ++ (p ∷ []) } in
    (
      call_all_data_sent c t,
      refl,
      announced-Delivers c (all ++ (p ∷ [])) t (
          live
            (record {
              open_fd = v.open_fd;
              accepting = v.accepting;
              listened = v.listened;
              armed = v.armed;
              waiting = v.waiting;
              nonempty = v.nonempty;
              no_closing = v.no_closing;
            })
            (rw e (
              append-nil (s.sent ++ (p ∷ []))
              ∙ ap (λ l. l ++ (p ∷ [])) (sym (append-nil s.sent) ∙ ap (◌++◌ s.sent) (sym e) ∙ h)))),
    )
Tried-result c all p s v e h k _ (refused rs) =
    queued-result c all p (record s { replies = rs })
      (record {
        open_fd = v.open_fd;
        accepting = v.accepting;
        listened = v.listened;
        armed = v.armed;
        waiting = v.waiting;
        nonempty = v.nonempty;
        no_closing = v.no_closing;
      })
      h k
Tried-result c all p s v e h k _ (gave_up x rs) = (
  record s { fd = false; events = none; replies = rs; calls = closed x ∷ s.calls },
  refl,
  dead (record { closed_fd = refl; unheard = refl; one_closing = (x, ap (◌∷◌ x) v.no_closing) })
      (p ∷ []) (ap (λ l. l ++ (p ∷ [])) (sym (append-nil s.sent) ∙ ap (◌++◌ s.sent) (sym e) ∙ h)),
)

not_waiting : (ps : List Packet) → is_waiting ps ≡ false → ps ≡ []
not_waiting [] h = refl
not_waiting (p ∷ ps) h = cc

-- A call of send with a packet that is not empty returns, and adds the packet behind the others.
pub send_lem :
    (c : Callbacks) (all : List Packet) (p : Packet) (s : SeqPacketSocket)
    → Delivers all s
    → is_packet p ≡ true
    → SendResult (all ++ (p ∷ [])) (send c p s)
unfolding send try_send_fast sendmsg close
send_lem c all p s (dead v lost h) k = (
  s,
  ground (arith, v.closed_fd),
  dead v (lost ++ (p ∷ [])) (sym (append_assoc s.sent lost (p ∷ [])) ∙ ap (λ l. l ++ (p ∷ [])) h),
)
send_lem c all p s (live v h) k = elim (Bool-cases (s.sending || s.connecting)) [
  | inl e ↦ rw e (queued-result c all p s v h k)
  | inr e ↦ rw e (
      Tried-result c all p s v (not_waiting s.output_queue (v.waiting ∙ ground (arith, e))) h k
        (try_send_fast p s) (try_send_fast_lem p s s.replies refl v.open_fd k))
]

pub send_all_lem :
    (c : Callbacks) (ps all : List Packet) (s : SeqPacketSocket)
    → Delivers all s
    → all_packets ps ≡ true
    → SendResult (all ++ ps) (send_all c ps s)
send_all_lem c [] all s d k = (s, refl, subst (λ l. Delivers l s) (sym (append-nil all)) d)
send_all_lem c (p ∷ ps) all s d k =
    let (t, e, d') = send_lem c all p s d (ground (arith, k)) in
    let (u, e', d'') = send_all_lem c ps (all ++ (p ∷ [])) t d' (ground (arith, k)) in
    (
      u,
      ap (λ o. o >>= send_all c ps) e ∙ e',
      subst (λ l. Delivers l u) (append_assoc all (p ∷ []) ps) d'',
    )
