-- ===== src/Streams/Sending.antt =====
-- The bytes that a StreamSocket is told to send: those that the kernel took, with those that are still in the
-- output buffer behind them, are the bytes that were written, in their order.
use bb_eventloop.Common.{
  ℕ, ◌≡◌, refl, ap, ◌∙◌, some, none, List, [], ◌∷◌, ◌++◌, append_assoc, append-nil,
  take-append-drop, true, false, ◌⊎◌, inl, inr, ltb, min, length, take, drop, arith, Bool-cases,
  if◌then◌else◌,
}
use bb_eventloop.Common.Attempts.{Attempt, returns}
use bb_eventloop.Streams.Defs.{
  Reply, took, would_block, no_memory, failed, Call, established, all_data_sent, data_received,
  closed, StreamSocket, Callbacks, is_empty, modify_fd_listener, close, sendmsg, rearm, send,
  try_send,
}

-- The errors that the callback of the end was called with, the latest first.
abbrev pub closings : List Call → List ℕ
closings [] = []
closings (established ∷ cs) = closings cs
closings (all_data_sent ∷ cs) = closings cs
closings (data_received ∷ cs) = closings cs
closings (closed e ∷ cs) = e ∷ closings cs

-- A socket with its descriptor: it is listened to, for EVENT_OUT too if bytes wait, and only then sending.
pub record IsOpen (s : StreamSocket) : Type 0 where
  pub open_fd : s.fd ≡ true
  pub accepting : s.ctl ≡ []
  pub listened : (e : ℕ) × (s.events ≡ some e)
  pub armed : is_empty s.output ≡ false → s.events ≡ some 5
  pub busy : s.sending ≡ true → is_empty s.output ≡ false
  pub no_closing : closings s.calls ≡ []

-- A closed socket: nothing is listened to, and the callback of the end was called once.
pub record IsClosed (s : StreamSocket) : Type 0 where
  pub closed_fd : s.fd ≡ false
  pub unheard : s.events ≡ none
  pub one_closing : (e : ℕ) × (closings s.calls ≡ e ∷ [])

pub data Status (s : StreamSocket) : Type 0 where
  is_open : IsOpen s → Status s
  is_closed : IsClosed s → Status s

-- A socket that connects waits for EVENT_OUT.
abbrev pub Waits : StreamSocket → Type 0
Waits s = s.connecting ≡ true → s.fd ≡ true → s.events ≡ some 5

-- Sending that returns keeps the bytes, in their order, and leaves the output of a socket that it closes.
abbrev pub TryResult : StreamSocket → Attempt StreamSocket → Type 0
TryResult s o =
    (t : StreamSocket) × (o ≡ returns t)
    × Status t
    × (t.sent ++ t.output ≡ s.sent ++ s.output)
    × (t.connecting ≡ s.connecting)
    × ((t.fd ≡ true) ⊎ (t.output ≡ s.output))
    × (t.incoming ≡ s.incoming)

-- The same, of a socket that stays open.
abbrev pub OpenResult : StreamSocket → Attempt StreamSocket → Type 0
OpenResult s o =
    (t : StreamSocket) × (o ≡ returns t)
    × IsOpen t
    × (t.sent ++ t.output ≡ s.sent ++ s.output)
    × (t.connecting ≡ s.connecting)
    × (t.incoming ≡ s.incoming)

pub modify_fd_listener_lem :
    (n : ℕ) (s : StreamSocket) (e : ℕ)
    → s.events ≡ some e
    → s.ctl ≡ []
    → modify_fd_listener n s ≡ returns (record s { events = some n })
unfolding modify_fd_listener
modify_fd_listener_lem n s e h free = ground (arith, h, free)

-- The state that close leaves of an open socket.
abbrev pub closed_at : ℕ → List Reply → StreamSocket → StreamSocket
closed_at e rs s = record s { fd = false; events = none; replies = rs; calls = closed e ∷ s.calls }

pub closed_at-IsClosed :
    (e : ℕ) (rs : List Reply) (s : StreamSocket)
    → closings s.calls ≡ []
    → IsClosed (closed_at e rs s)
closed_at-IsClosed e rs s n = record {
  closed_fd = refl;
  unheard = refl;
  one_closing = (e, ap (◌∷◌ e) n);
}

module _ (c : Callbacks) where
  rearm_lem :
      (s : StreamSocket)
      → s.fd ≡ true
      → s.ctl ≡ []
      → (e : ℕ) × (s.events ≡ some e)
      → closings s.calls ≡ []
      → OpenResult s (rearm c s)
  unfolding rearm
  rearm_lem s v free l n = elim (Bool-cases (is_empty s.output)) [
    | inr k ↦ (
      record s { events = some 5; sending = true },
      rw (k, modify_fd_listener_lem 5 s l.0 l.1 free) refl,
      (record {
        open_fd = v;
        accepting = free;
        listened = (5, refl);
        armed = λ h. refl;
        busy = λ h. k;
        no_closing = n;
      }),
      refl,
      refl,
      refl,
    )
    | inl k ↦ elim (Bool-cases c.has_all_data_sent) [
      | inl a ↦ (
        record s { events = some 1; sending = false; calls = all_data_sent ∷ s.calls },
        rw (k, modify_fd_listener_lem 1 s l.0 l.1 free, a) refl,
        (record {
          open_fd = v;
          accepting = free;
          listened = (1, refl);
          armed = λ h. absurd (ground (arith, h, k));
          busy = λ h. cc;
          no_closing = n;
        }),
        refl,
        refl,
        refl,
      )
      | inr a ↦ (
        record s { events = some 1; sending = false },
        rw (k, modify_fd_listener_lem 1 s l.0 l.1 free, a) refl,
        (record {
          open_fd = v;
          accepting = free;
          listened = (1, refl);
          armed = λ h. absurd (ground (arith, h, k));
          busy = λ h. cc;
          no_closing = n;
        }),
        refl,
        refl,
        refl,
      )
    ]
  ]

  -- What a part of the output that the kernel took leaves.
  abbrev after_taking : ℕ → List Reply → StreamSocket → StreamSocket
  after_taking m rs s =
      let t = record s { replies = rs; sent = s.sent ++ take m s.output } in
      if ltb 0 m then record t { output = drop m s.output } else t

  after_taking_lem :
      (m : ℕ) (rs : List Reply) (s : StreamSocket)
      → s.fd ≡ true
      → s.ctl ≡ []
      → (e : ℕ) × (s.events ≡ some e)
      → closings s.calls ≡ []
      → OpenResult s (rearm c (after_taking m rs s))
  after_taking_lem m rs s v free l n = elim (Bool-cases (ltb 0 m)) [
    | inl k ↦
        let (t, e, d, p, q, i) =
          rearm_lem
            (record s { replies = rs; sent = s.sent ++ take m s.output; output = drop m s.output })
            v free l n in
        (
          t,
          rw k e,
          d,
          p
              ∙ append_assoc s.sent (take m s.output) (drop m s.output)
              ∙ ap (◌++◌ s.sent) (take-append-drop m s.output),
          q,
          i,
        )
    | inr k ↦
        let (t, e, d, p, q, i) =
          rearm_lem (record s { replies = rs; sent = s.sent ++ take m s.output }) v free l n in
        let none_taken : m ≡ 0 = ground (arith, k) in
        (
          t,
          rw k e,
          d,
          p
              ∙ ap (λ j. (s.sent ++ take j s.output) ++ s.output) none_taken
              ∙ ap (λ l. l ++ s.output) (append-nil s.sent),
          q,
          i,
        )
  ]

  pub try_send-open :
      (s : StreamSocket) (rs : List Reply)
      → s.replies ≡ rs
      → s.fd ≡ true
      → s.ctl ≡ []
      → (e : ℕ) × (s.events ≡ some e)
      → closings s.calls ≡ []
      → TryResult s (try_send c s)
  unfolding try_send send sendmsg close
  try_send-open s [] x v free l n =
      let (t, e, d, p, q, i) = rearm_lem (record s { replies = [] }) v free l n in
      (t, ground (arith, x, v, e), is_open d, p, q, inl d.open_fd, i)
  try_send-open s (would_block ∷ rs) x v free l n =
      let (t, e, d, p, q, i) = rearm_lem (record s { replies = rs }) v free l n in
      (t, ground (arith, x, v, e), is_open d, p, q, inl d.open_fd, i)
  try_send-open s (took m ∷ rs) x v free l n =
      let (t, e, d, p, q, i) = after_taking_lem (min m (length s.output)) rs s v free l n in
      let sends : try_send c s ≡ rearm c (after_taking (min m (length s.output)) rs s) =
        ground (arith, x, v) in
      (t, sends ∙ e, is_open d, p, q, inl d.open_fd, i)
  try_send-open s (no_memory ∷ rs) x v free l n = (
    closed_at 12 rs s,
    ground (arith, x, v),
    is_closed (closed_at-IsClosed 12 rs s n),
    refl,
    refl,
    inr refl,
    refl,
  )
  try_send-open s (failed e ∷ rs) x v free l n = (
    closed_at e rs s,
    ground (arith, x, v),
    is_closed (closed_at-IsClosed e rs s n),
    refl,
    refl,
    inr refl,
    refl,
  )

  pub try_send-closed : (s : StreamSocket) → s.fd ≡ false → try_send c s ≡ returns s
  unfolding try_send send sendmsg close
  try_send-closed s v = ground (arith, v)
