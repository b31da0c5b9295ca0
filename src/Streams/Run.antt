-- ===== src/Streams/Run.antt =====
-- A StreamSocket over its whole life: any sequence of writes and of events that the runner hands it.
use bb_eventloop.Common.{
  ℕ, ◌≡◌, refl, sym, subst, ◌∙◌, List, [], ◌++◌, Bool, true, arith, if◌then◌else◌,
}
use bb_eventloop.Common.Attempts.{returns}
use bb_eventloop.Streams.Defs.{
  Reply, Incoming, StreamSocket, Callbacks, Events, connect, take_over, write,
  check_connection_established, handle_events_cb,
}
use bb_eventloop.Streams.Sending.{IsOpen, Status, is_open, is_closed, Waits}
use bb_eventloop.Streams.Writing.{write_lem}
use bb_eventloop.Streams.Events.{greetings, received_writes}
use bb_eventloop.Streams.Handling.{handle_events_cb_lem}

-- The states that a socket reaches, with the bytes that were written until then, by the client and by the
-- callbacks. The runner hands events to an open socket only.
pub data Reaches (c : Callbacks) : List ℕ → StreamSocket → Type 0 where
  connects : (rs : List Reply) (is : List Incoming) → Reaches c [] (connect rs is [])
  takes_over : (rs : List Reply) (is : List Incoming) → Reaches c [] (take_over rs is [])
  writes :
      {all : List ℕ} {s t : StreamSocket} (bytes : List ℕ)
      → Reaches c all s
      → write c bytes s ≡ returns t
      → Reaches c (all ++ bytes) t
  handles :
      {all : List ℕ} {s t u : StreamSocket} (e : Events)
      → Reaches c all s
      → s.fd ≡ true
      → check_connection_established c e s ≡ returns t
      → handle_events_cb c e s ≡ returns u
      → Reaches c ((all ++ greetings c e s) ++ received_writes c e t) u

returns_inj : {s t : StreamSocket} → returns s ≡ returns t → s ≡ t
returns_inj h = cc

fd-IsOpen : (s : StreamSocket) → Status s → s.fd ≡ true → IsOpen s
fd-IsOpen s (is_open v) h = v
fd-IsOpen s (is_closed v) h = absurd (ground (arith, v.closed_fd, h))

abbrev Kept : List ℕ → StreamSocket → Type 0
Kept all s = Status s × Waits s × (s.sent ++ s.output ≡ all)

pub bytes_lem :
    {c : Callbacks} {all : List ℕ} {s : StreamSocket}
    → Reaches c all s
    → Status s × Waits s × (s.sent ++ s.output ≡ all)
unfolding connect take_over
bytes_lem (connects rs is) = (
  is_open (record {
    open_fd = refl;
    accepting = refl;
    listened = (5, refl);
    armed = λ h. refl;
    busy = λ h. cc;
    no_closing = refl;
  }),
  (λ h k. refl),
  refl,
)
bytes_lem (takes_over rs is) = (
  is_open (record {
    open_fd = refl;
    accepting = refl;
    listened = (1, refl);
    armed = λ h. cc;
    busy = λ h. cc;
    no_closing = refl;
  }),
  (λ h k. cc),
  refl,
)
bytes_lem {c} (writes {all} {s} {t} bytes r x) =
    let (d, w, h) = bytes_lem r in
    let (u, y, d', w', h', q, i, o) = write_lem c bytes all s d w h in
    subst (Kept (all ++ bytes)) (returns_inj (sym y ∙ x)) (d', w', h')
bytes_lem {c} (handles {all} {s} {t} {u} e r o x y) =
    let (d, w, h) = bytes_lem r in
    let (t', u', x', y', d', w', h') = handle_events_cb_lem c e all s (fd-IsOpen s d o) w h in
    subst (λ m. Kept ((all ++ greetings c e s) ++ received_writes c e m) u)
      (returns_inj (sym x' ∙ x))
      (subst (Kept ((all ++ greetings c e s) ++ received_writes c e t')) (returns_inj (sym y' ∙ y))
        (d', w', h'))

abbrev HandleResult : Callbacks → Events → StreamSocket → Bool → Type 0
HandleResult c e s b =
    (t : StreamSocket) × ((if b then handle_events_cb c e s else returns s) ≡ returns t)

handles_of :
    (c : Callbacks) (e : Events) (s : StreamSocket) → Status s → Waits s → HandleResult c e s s.fd
handles_of c e s (is_closed v) w = subst (HandleResult c e s) (sym v.closed_fd) (s, refl)
handles_of c e s (is_open v) w =
    let (t, u, x, y, r, w', h) = handle_events_cb_lem c e (s.sent ++ s.output) s v w refl in
    subst (HandleResult c e s) (sym v.open_fd) (u, y)

pub goes_on :
    {c : Callbacks} {all : List ℕ} {s : StreamSocket} (bytes : List ℕ) (e : Events)
    → Reaches c all s
    → ((t : StreamSocket) × (write c bytes s ≡ returns t))
      × ((t : StreamSocket) × ((if s.fd then handle_events_cb c e s else returns s) ≡ returns t))
goes_on {c} {all} {s} bytes e r =
    let (d, w, h) = bytes_lem r in
    let (t, x, v, y, p, q, i, o) = write_lem c bytes all s d w h in ((t, x), handles_of c e s d w)
