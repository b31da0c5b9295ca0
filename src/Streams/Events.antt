-- ===== src/Streams/Events.antt =====
-- The events of a StreamSocket: the order of its bytes, and the end of the connection.
use bb_eventloop.Common.{
  ℕ, ◌≡◌, refl, sym, ap, ◌∙◌, some, List, [], ◌∷◌, ◌++◌, append-nil, Bool, true, false, not, ◌&&◌,
  ◌||◌, ◌⊎◌, inl, inr, drop, arith, Bool-cases, if◌then◌else◌,
}
use bb_eventloop.Common.Attempts.{Attempt, returns}
use bb_eventloop.Streams.Defs.{
  Incoming, arrived, nothing, end_of_stream, out_of_memory, broken, Call, established,
  data_received, StreamSocket, Callbacks, Events, is_empty, modify_fd_listener, close,
  check_connection_established, receive, check_incoming_data,
}
use bb_eventloop.Streams.Sending.{
  closings, IsOpen, Status, is_open, is_closed, Waits, closed_at, modify_fd_listener_lem,
  closed_at-IsClosed,
}
use bb_eventloop.Streams.Writing.{write_lem}

-- The bytes that the callback of the connection writes, and those that the callback of received data does.
abbrev pub is_established : Events → StreamSocket → Bool
is_established e s =
    s.connecting && ((e.event_in || e.event_out) && not (e.event_err || e.event_hup))

abbrev pub greetings : Callbacks → Events → StreamSocket → List ℕ
greetings c e s = if is_established e s && c.has_established then c.greeting else []

abbrev pub answers : Callbacks → StreamSocket → List Incoming → List ℕ
answers c s [] = []
answers c s (arrived bytes ∷ is) = c.answer (s.input ++ bytes)
answers c s (nothing ∷ is) = []
answers c s (end_of_stream ∷ is) = []
answers c s (out_of_memory ∷ is) = []
answers c s (broken e ∷ is) = []

-- Neither the end of the connecting, nor what was received, nor other callbacks touch the bytes.
quiet-IsOpen :
    (s : StreamSocket) (b : Bool) (input : List ℕ) (is : List Incoming) (cs : List Call)
    → closings cs ≡ closings s.calls
    → IsOpen s
    → IsOpen (record s { connecting = b; input = input; incoming = is; calls = cs })
quiet-IsOpen s b input is cs e v = record {
  open_fd = v.open_fd;
  accepting = v.accepting;
  listened = v.listened;
  armed = v.armed;
  busy = v.busy;
  no_closing = e ∙ v.no_closing;
}

pub close-open :
    (error : ℕ) (s : StreamSocket) → IsOpen s → close error s ≡ closed_at error s.replies s
unfolding close
close-open error s v = ground (arith, v.open_fd)

-- The bytes after a step.
abbrev pub StepResult : List ℕ → Bool → Attempt StreamSocket → Type 0
StepResult all b o =
    (t : StreamSocket) × (o ≡ returns t)
    × Status t
    × Waits t
    × (t.sent ++ t.output ≡ all)
    × (t.connecting ≡ b)

closed-result :
    (error : ℕ) (all : List ℕ) (s : StreamSocket)
    → IsOpen s
    → s.sent ++ s.output ≡ all
    → StepResult all s.connecting (returns (close error s))
closed-result error all s v h = (
  closed_at error s.replies s,
  ap returns (close-open error s v),
  is_closed (closed_at-IsClosed error s.replies s v.no_closing),
  (λ x y. cc),
  h,
  refl,
)

-- After the callback of the connection: without output, only EVENT_IN is listened to.
abbrev settled : StreamSocket → Attempt StreamSocket
settled u = if is_empty u.output then modify_fd_listener 1 u else returns u

settled_lem :
    (all : List ℕ) (u : StreamSocket)
    → Status u
    → u.connecting ≡ false
    → u.sent ++ u.output ≡ all
    → (u.fd ≡ true) ⊎ (is_empty u.output ≡ false)
    → StepResult all false (settled u)
settled_lem all u (is_closed d) n h o = elim o [
  | inl x ↦ absurd (ground (arith, x, d.closed_fd))
  | inr k ↦ (u, rw k refl, is_closed d, (λ x. absurd (ground (arith, n, x))), h, n)
]
settled_lem all u (is_open d) n h o = elim (Bool-cases (is_empty u.output)) [
  | inr k ↦ (u, rw k refl, is_open d, (λ x. absurd (ground (arith, n, x))), h, n)
  | inl k ↦ (
    record u { events = some 1 },
    ap (λ b. if b then modify_fd_listener 1 u else returns u) k
        ∙ modify_fd_listener_lem 1 u d.listened.0 d.listened.1 d.accepting,
    is_open (record {
      open_fd = d.open_fd;
      accepting = d.accepting;
      listened = (1, refl);
      armed = λ x. absurd (ground (arith, k, x));
      busy = d.busy;
      no_closing = d.no_closing;
    }),
    (λ x. absurd (ground (arith, n, x))),
    h,
    n,
  )
]

still_open :
    {P : Type 0} (s : StreamSocket) → s.fd ≡ true → {A : Type 0} → A ⊎ ((s.fd ≡ false) ⊎ P) → A ⊎ P
still_open s v (inl a) = inl a
still_open s v (inr (inl x)) = absurd (ground (arith, v, x))
still_open s v (inr (inr p)) = inr p

pub check_connection_established_lem :
    (c : Callbacks) (e : Events) (all : List ℕ) (s : StreamSocket)
    → IsOpen s
    → Waits s
    → s.sent ++ s.output ≡ all
    → StepResult
        (all ++ greetings c e s)
        (s.connecting && not (is_established e s))
        (check_connection_established c e s)
unfolding check_connection_established
check_connection_established_lem c e all s v w h = elim (Bool-cases (is_established e s)) [
  | inr k ↦ rw k (s, refl, is_open v, w, h ∙ sym (append-nil all), ground (arith, k))
  | inl k ↦ elim (Bool-cases c.has_established) [
    | inr k' ↦
        let t = record s { connecting = false } in
        let (z, x, d, w', p, n) =
          settled_lem (all ++ []) t
            (is_open (quiet-IsOpen s false s.input s.incoming s.calls refl v)) refl
            (h ∙ sym (append-nil all)) (inl v.open_fd) in
        let greets : greetings c e s ≡ [] = ground (arith, k, k') in
        (z, ground (arith, k, k', x), d, w', p ∙ ap (◌++◌ all) (sym greets), n ∙ ground (arith, k))
    | inl k' ↦
        let t = record s { connecting = false; calls = established ∷ s.calls } in
        let (u, x, d, y, p, q, i, o) =
          write_lem c c.greeting all t
            (is_open (quiet-IsOpen s false s.input s.incoming (established ∷ s.calls) refl v))
            (λ z. cc) h in
        let (z, x', d', w', p', n) =
          settled_lem (all ++ c.greeting) u d q p (still_open t v.open_fd o) in
        let greets : greetings c e s ≡ c.greeting = ground (arith, k, k') in
        (
          z,
          ground (arith, k, k', x, x'),
          d',
          w',
          p' ∙ ap (◌++◌ all) (sym greets),
          n ∙ ground (arith, k),
        )
  ]
]

-- What a step on received bytes adds.
receive_lem :
    (c : Callbacks) (e : Events) (all : List ℕ) (s : StreamSocket) (is : List Incoming)
    → s.incoming ≡ is
    → e.event_in ≡ true
    → IsOpen s
    → Waits s
    → s.sent ++ s.output ≡ all
    → StepResult (all ++ answers c s is) s.connecting (check_incoming_data c e s)
unfolding check_incoming_data receive
receive_lem c e all s [] i k v w h = (
  record s { incoming = [] },
  ground (arith, i, k, v.open_fd),
  is_open (quiet-IsOpen s s.connecting s.input [] s.calls refl v),
  w,
  h ∙ sym (append-nil all),
  refl,
)
receive_lem c e all s (arrived bytes ∷ is) i k v w h =
    let whole = s.input ++ bytes in
    let t = record s {
      input = drop (c.consumed whole) whole;
      incoming = is;
      calls = data_received ∷ s.calls;
    } in
    let (u, x, d, y, p, q, j, o) =
      write_lem c (c.answer whole) all t
        (is_open (
          quiet-IsOpen s s.connecting (drop (c.consumed whole) whole) is (data_received ∷ s.calls)
            refl v))
        w h in
    (u, ground (arith, i, k, v.open_fd, x), d, y, p, q)
receive_lem c e all s (nothing ∷ is) i k v w h = (
  record s { incoming = is },
  ground (arith, i, k, v.open_fd),
  is_open (quiet-IsOpen s s.connecting s.input is s.calls refl v),
  w,
  h ∙ sym (append-nil all),
  refl,
)
receive_lem c e all s (end_of_stream ∷ is) i k v w h =
    let t = record s { incoming = is } in
    let (u, x, r, y, p, q) =
      closed-result 0 (all ++ []) t (quiet-IsOpen s s.connecting s.input is s.calls refl v)
        (h ∙ sym (append-nil all)) in
    (u, ground (arith, i, k, v.open_fd, x), r, y, p, q)
receive_lem c e all s (out_of_memory ∷ is) i k v w h =
    let t = record s { incoming = is } in
    let (u, x, r, y, p, q) =
      closed-result 12 (all ++ []) t (quiet-IsOpen s s.connecting s.input is s.calls refl v)
        (h ∙ sym (append-nil all)) in
    (u, ground (arith, i, k, v.open_fd, x), r, y, p, q)
receive_lem c e all s (broken n ∷ is) i k v w h =
    let t = record s { incoming = is } in
    let (u, x, r, y, p, q) =
      closed-result n (all ++ []) t (quiet-IsOpen s s.connecting s.input is s.calls refl v)
        (h ∙ sym (append-nil all)) in
    (u, ground (arith, i, k, v.open_fd, x), r, y, p, q)

-- What the callback of received data writes, if the socket is still open then.
abbrev pub received_writes : Callbacks → Events → StreamSocket → List ℕ
received_writes c e t = if e.event_in && t.fd then answers c t t.incoming else []

pub check_incoming_data_lem :
    (c : Callbacks) (e : Events) (all : List ℕ) (s : StreamSocket)
    → Status s
    → Waits s
    → s.sent ++ s.output ≡ all
    → StepResult (all ++ received_writes c e s) s.connecting (check_incoming_data c e s)
unfolding check_incoming_data receive close
check_incoming_data_lem c e all s (is_closed v) w h =
    let nothing_written : received_writes c e s ≡ [] = ground (arith, v.closed_fd) in
    (
      s,
      ground (arith, v.closed_fd),
      is_closed v,
      w,
      h ∙ sym (append-nil all) ∙ ap (◌++◌ all) (sym nothing_written),
      refl,
    )
check_incoming_data_lem c e all s (is_open v) w h = elim (Bool-cases e.event_in) [
  | inr k ↦
      let nothing_written : received_writes c e s ≡ [] = ground (arith, k) in
      (
        s,
        ground (arith, k),
        is_open v,
        w,
        h ∙ sym (append-nil all) ∙ ap (◌++◌ all) (sym nothing_written),
        refl,
      )
  | inl k ↦
      let (t, x, d, y, p, q) = receive_lem c e all s s.incoming refl k v w h in
      let all_written : received_writes c e s ≡ answers c s s.incoming =
        ground (arith, k, v.open_fd) in
      (t, x, d, y, p ∙ ap (◌++◌ all) (sym all_written), q)
]
