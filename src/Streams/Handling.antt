-- ===== src/Streams/Handling.antt =====
-- handleEventsCb of a StreamSocket as a whole.
use bb_eventloop.Common.{
  ℕ, ◌≡◌, refl, ap, ◌∙◌, List, ◌++◌, false, not, ◌&&◌, ◌||◌, inl, inr, arith, Bool-cases,
  if◌then◌else◌,
}
use bb_eventloop.Common.Attempts.{returns, ◌>>=◌}
use bb_eventloop.Streams.Defs.{
  StreamSocket, Callbacks, Events, check_connection_established, check_incoming_data,
  check_outgoing_data, check_connection_closed, handle_events_cb,
}
use bb_eventloop.Streams.Sending.{
  IsOpen, Status, is_open, is_closed, Waits, closed_at, try_send-open, closed_at-IsClosed,
}
use bb_eventloop.Streams.Events.{
  greetings, close-open, check_connection_established_lem, received_writes, check_incoming_data_lem,
}

-- The last step of handleEventsCb.
abbrev EndResult : List ℕ → StreamSocket → Type 0
EndResult all s = (t : StreamSocket) × (s ≡ t) × Status t × Waits t × (t.sent ++ t.output ≡ all)

ended_lem :
    (e : Events) (all : List ℕ) (s : StreamSocket)
    → Status s
    → ((e.event_err || e.event_hup) ≡ false → Waits s)
    → s.sent ++ s.output ≡ all
    → EndResult all (check_connection_closed e s)
unfolding check_connection_closed
ended_lem e all s (is_closed v) w h = (
  s,
  ground (arith, v.closed_fd),
  is_closed v,
  (λ x y. absurd (ground (arith, y, v.closed_fd))),
  h,
)
ended_lem e all s (is_open v) w h = elim (Bool-cases (e.event_err || e.event_hup)) [
  | inr n ↦ (s, ground (arith, n), is_open v, w n, h)
  | inl n ↦
      let error = if e.event_err then e.error else 0 in
      (
        closed_at error s.replies s,
        ground (arith, n, v.open_fd, close-open error s v),
        is_closed (closed_at-IsClosed error s.replies s v.no_closing),
        (λ x y. cc),
        h,
      )
]

-- The last two steps, where no socket connects any more on EVENT_OUT unless it is about to be closed.
finish_lem :
    (c : Callbacks) (e : Events) (all : List ℕ) (s : StreamSocket)
    → Status s
    → Waits s
    → s.sent ++ s.output ≡ all
    → (s.connecting && (e.event_out && not (e.event_err || e.event_hup))) ≡ false
    → (t : StreamSocket) × ((check_outgoing_data c e s
          >>= (λ t. returns (check_connection_closed e t)))
        ≡ returns t)
      × Status t
      × Waits t
      × (t.sent ++ t.output ≡ all)
unfolding check_outgoing_data
finish_lem c e all s (is_closed v) w h k =
    let (u, y, d, w', h') = ended_lem e all s (is_closed v) (λ n. w) h in
    (u, ground (arith, v.closed_fd, y), d, w', h')
finish_lem c e all s (is_open v) w h k = elim (Bool-cases e.event_out) [
  | inr n ↦
      let (u, y, d, w', h') = ended_lem e all s (is_open v) (λ n. w) h in
      (u, ground (arith, n, y), d, w', h')
  | inl n ↦
      let (t, x, d, p, q, r, i) =
        try_send-open c s s.replies refl v.open_fd v.accepting v.listened v.no_closing in
      let (u, y, d', w', h') =
        ended_lem e all t d (λ m b. absurd (ground (arith, n, m, q, b, k))) (p ∙ h) in
      (u, ground (arith, v.open_fd, n, x, y), d', w', h')
]

-- A call of handleEventsCb on an open socket returns, and adds what the callbacks write to the bytes.
pub handle_events_cb_lem :
    (c : Callbacks) (e : Events) (all : List ℕ) (s : StreamSocket)
    → IsOpen s
    → Waits s
    → s.sent ++ s.output ≡ all
    → (t : StreamSocket) × (u : StreamSocket) × (check_connection_established c e s ≡ returns t)
      × (handle_events_cb c e s ≡ returns u)
      × Status u
      × Waits u
      × (u.sent ++ u.output ≡ (all ++ greetings c e s) ++ received_writes c e t)
unfolding handle_events_cb
handle_events_cb_lem c e all s v w h =
    let (t, x, d, w', p, q) = check_connection_established_lem c e all s v w h in
    let (u, y, d', w'', p', q') = check_incoming_data_lem c e (all ++ greetings c e s) t d w' p in
    let (z, o, d'', w3, p'') =
      finish_lem c e ((all ++ greetings c e s) ++ received_writes c e t) u d' w'' p'
        (ground (arith, q, q')) in
    (
      t,
      z,
      x,
      ap
            (λ m.
              m
              >>= check_incoming_data c e
              >>= check_outgoing_data c e
              >>= (λ t. returns (check_connection_closed e t)))
            x
          ∙ ap (λ m. m >>= check_outgoing_data c e >>= (λ t. returns (check_connection_closed e t)))
              y
          ∙ o,
      d'',
      w3,
      p'',
    )
