-- ===== src/SeqPacket/Queue.antt =====
-- The invariant of a SeqPacketSocket, and what a round of sending does to the packets in its queue.
use bb_eventloop.Common.{
  ℕ, ◌≡◌, refl, sym, ap, ◌∙◌, none, some, List, [], ◌∷◌, ◌++◌, append_assoc, Bool, true, false,
  ◌&&◌, ltb, length, arith, if◌then◌else◌, append-nil,
}
use bb_eventloop.Common.Attempts.{returns}
use bb_eventloop.SeqPacket.Defs.{
  Packet, Reply, accepted, would_block, failed, Call, established, all_data_sent, received, closed,
  SeqPacketSocket, close, sendmsg, try_send_fast, send_slow_loop, modify_fd_listener,
}

-- The errors that the callback of the end was called with, the latest first.
abbrev pub closings : List Call → List ℕ
closings [] = []
closings (established ∷ cs) = closings cs
closings (all_data_sent ∷ cs) = closings cs
closings (received bytes ∷ cs) = closings cs
closings (closed e ∷ cs) = e ∷ closings cs

abbrev pub is_packet : Packet → Bool
is_packet p = ltb 0 (length p.bytes)

abbrev pub all_packets : List Packet → Bool
all_packets [] = true
all_packets (p ∷ ps) = is_packet p && all_packets ps

abbrev pub is_waiting : List Packet → Bool
is_waiting [] = false
is_waiting (p ∷ ps) = true

-- A socket with its descriptor: it is listened to, for EVENT_OUT too if packets wait, and those are not empty.
pub record IsLive (s : SeqPacketSocket) : Type 0 where
  pub open_fd : s.fd ≡ true
  pub accepting : s.ctl ≡ []
  pub listened : (e : ℕ) × (s.events ≡ some e)
  pub armed : s.sending ≡ true → s.events ≡ some 5
  pub waiting : is_waiting s.output_queue ≡ s.sending
  pub nonempty : all_packets s.output_queue ≡ true
  pub no_closing : closings s.calls ≡ []

-- A closed socket: nothing is listened to, and the callback of the end was called once.
pub record IsClosed (s : SeqPacketSocket) : Type 0 where
  pub closed_fd : s.fd ≡ false
  pub unheard : s.events ≡ none
  pub one_closing : (e : ℕ) × (closings s.calls ≡ e ∷ [])

-- Of `all` the packets, in their order, the kernel took the first ones; a live socket queues the others.
pub data Delivers (all : List Packet) (s : SeqPacketSocket) : Type 0 where
  live : IsLive s → s.sent ++ s.output_queue ≡ all → Delivers all s
  dead : IsClosed s → (lost : List Packet) → s.sent ++ lost ≡ all → Delivers all s

-- How trySendFast ends.
pub data Tried (p : Packet) (s : SeqPacketSocket) : Bool × SeqPacketSocket → Type 0 where
  took : (rs : List Reply) → Tried p s (true, record s { replies = rs; sent = s.sent ++ (p ∷ []) })
  refused : (rs : List Reply) → Tried p s (false, record s { replies = rs })
  gave_up :
      (e : ℕ) (rs : List Reply)
      → Tried p s
          (false, record s { fd = false; events = none; replies = rs; calls = closed e ∷ s.calls })

pub try_send_fast_lem :
    (p : Packet) (s : SeqPacketSocket) (rs : List Reply)
    → s.replies ≡ rs
    → s.fd ≡ true
    → is_packet p ≡ true
    → Tried p s (try_send_fast p s)
unfolding try_send_fast sendmsg close
try_send_fast_lem p s [] e h k = rw (e, h) (refused [])
try_send_fast_lem p s (accepted ∷ rs) e h k = rw (e, h, k) (took rs)
try_send_fast_lem p s (would_block ∷ rs) e h k = rw (e, h) (refused rs)
try_send_fast_lem p s (failed x ∷ rs) e h k = rw (e, h) (gave_up x rs)

pub modify_fd_listener_lem :
    (n : ℕ) (s : SeqPacketSocket) (e : ℕ)
    → s.events ≡ some e
    → s.ctl ≡ []
    → modify_fd_listener n s ≡ returns (record s { events = some n })
unfolding modify_fd_listener
modify_fd_listener_lem n s e h free = ground (arith, h, free)

-- What holds between the packets of one round of sending.
pub record IsSending (s : SeqPacketSocket) : Type 0 where
  pub open_fd : s.fd ≡ true
  pub accepting : s.ctl ≡ []
  pub listened : (e : ℕ) × (s.events ≡ some e)
  pub queued : is_waiting s.output_queue ≡ true → s.sending ≡ true
  pub armed : s.sending ≡ true → s.events ≡ some 5
  pub nonempty : all_packets s.output_queue ≡ true
  pub no_closing : closings s.calls ≡ []

pub data Looped (all : List Packet) : Bool × SeqPacketSocket → Type 0 where
  emptied :
      (t : SeqPacketSocket)
      → IsSending t
      → t.output_queue ≡ []
      → t.sent ≡ all
      → Looped all (true, t)
  stopped : (t : SeqPacketSocket) → Delivers all t → Looped all (false, t)

abbrev next_of : List Packet → Bool × SeqPacketSocket → Bool × SeqPacketSocket
next_of ps r =
    let (done, t) = r in
    if done then send_slow_loop ps (record t { output_queue = ps }) else (false, t)

Looped-next :
    (all : List Packet) (p : Packet) (ps : List Packet) (s : SeqPacketSocket)
    → IsSending s
    → s.output_queue ≡ p ∷ ps
    → s.sent ++ (p ∷ ps) ≡ all
    → ((t : SeqPacketSocket)
        → IsSending t
        → t.output_queue ≡ ps
        → t.sent ++ ps ≡ all
        → Looped all (send_slow_loop ps t))
    → (r : Bool × SeqPacketSocket) → Tried p s r
    → Looped all (next_of ps r)
Looped-next all p ps s v e h rec _ (took rs) =
    rec (record s { replies = rs; sent = s.sent ++ (p ∷ []); output_queue = ps })
      (record {
        open_fd = v.open_fd;
        accepting = v.accepting;
        listened = v.listened;
        queued = λ _. v.queued (rw e refl);
        armed = v.armed;
        nonempty = ground (arith, v.nonempty, e);
        no_closing = v.no_closing;
      })
      refl (append_assoc s.sent (p ∷ []) ps ∙ h)
Looped-next all p ps s v e h rec _ (refused rs) =
    stopped (record s { replies = rs })
      (live
        (record {
          open_fd = v.open_fd;
          accepting = v.accepting;
          listened = v.listened;
          armed = v.armed;
          waiting = rw e (sym (v.queued (rw e refl)));
          nonempty = v.nonempty;
          no_closing = v.no_closing;
        })
        (rw e h))
Looped-next all p ps s v e h rec _ (gave_up x rs) =
    stopped (record s { fd = false; events = none; replies = rs; calls = closed x ∷ s.calls })
      (dead
        (record { closed_fd = refl; unheard = refl; one_closing = (x, ap (◌∷◌ x) v.no_closing) })
        (p ∷ ps) h)

pub send_slow_loop_lem :
    (all ps : List Packet) (s : SeqPacketSocket)
    → IsSending s
    → s.output_queue ≡ ps
    → s.sent ++ ps ≡ all
    → Looped all (send_slow_loop ps s)
unfolding send_slow_loop
send_slow_loop_lem all [] s v e h = emptied s v e (sym (append-nil s.sent) ∙ h)
send_slow_loop_lem all (p ∷ ps) s v e h =
    Looped-next all p ps s v e h (send_slow_loop_lem all ps) (try_send_fast p s)
      (try_send_fast_lem p s s.replies refl v.open_fd (ground (arith, v.nonempty, e)))
