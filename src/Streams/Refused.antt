-- ===== src/Streams/Refused.antt =====
-- What a StreamSocket is like where epoll_ctl fails.
use bb_eventloop.Common.{ℕ, ◌≡◌, Option, some, List, [], ◌∷◌, ◌||◌, true, false, arith}
use bb_eventloop.Common.Attempts.{fails}
use bb_eventloop.Streams.Defs.{
  StreamSocket, Callbacks, Events, modify_fd_listener, check_connection_established,
  handle_events_cb,
}

-- The connection is established with nothing to send and no callback for it, and epoll_ctl fails: the
-- exception leaves handleEventsCb, and the socket stays open and listened to for EVENT_OUT.
pub established-refused :
    (c : Callbacks) (e : Events) (s : StreamSocket) (x : ℕ) (os : List (Option ℕ))
    → s.connecting ≡ true
    → s.output ≡ []
    → s.events ≡ some 5
    → s.ctl ≡ some x ∷ os
    → c.has_established ≡ false
    → (e.event_in || e.event_out) ≡ true
    → (e.event_err || e.event_hup) ≡ false
    → handle_events_cb c e s ≡ fails x (record s { connecting = false; ctl = os })
unfolding handle_events_cb check_connection_established modify_fd_listener
established-refused c e s x os k o w a n i u = ground (arith, k, o, w, a, n, i, u)
