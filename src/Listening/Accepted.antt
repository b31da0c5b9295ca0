-- ===== src/Listening/Accepted.antt =====
-- What the loop of a ListeningSocket does with the connections.
use bb_eventloop.Common.{
  ℕ, suc, ◌+◌, ◌≡◌, refl, sym, ap, ◌∙◌, subst, inl, inr, List, [], ◌∷◌, ◌++◌, map, append-nil,
  append_assoc, Bool, true, false, if◌then◌else◌, Bool-cases, Option, none, some, Option-cases,
  arith,
}
use bb_eventloop.Descriptors.Owned.{count}
use bb_eventloop.Listening.Defs.{
  Thrown, standard, other, Connection, Answer, connects, would_block, fails, Reaction,
  ListeningSocket, no_more, threw, Ending, finished, escaped, called, accept, accepted, reported,
  go_on, handle_loop, handle_events_cb,
}

abbrev pub fd_of : Connection → ℕ
fd_of c = c.fd

-- The socket at the end: the connections were handed to the callback in their order, and each is
-- released or closed.
abbrev pub IsServed : ListeningSocket → List Connection → ListeningSocket → Type 0
IsServed s cs t =
    (t.calls ≡ s.calls ++ cs)
    × ((x : ℕ)
        → count x t.released + count x t.closed
          ≡ count x s.released + count x s.closed + count x (map fd_of cs))
    × (t.has_handler ≡ s.has_handler)
    × (t.handler_throws ≡ s.handler_throws)

-- How the handler ends, by what was thrown in it: `caught` where the callback for exceptions is called.
abbrev pub caught : ListeningSocket → Option Thrown → Bool
caught s none = false
caught s (some standard) = s.has_handler
caught s (some other) = false

abbrev pub leaves : ListeningSocket → Option Thrown → Bool
leaves s none = false
leaves s (some standard) = if s.has_handler then s.handler_throws else true
leaves s (some other) = true

abbrev pub IsEnded : ListeningSocket → List Connection → Option Thrown → Ending → Type 0
IsEnded s cs bad (finished t) =
    IsServed s cs t
    × (leaves s bad ≡ false)
    × (t.reports ≡ (if caught s bad then suc s.reports else s.reports))
IsEnded s cs bad (escaped t) =
    IsServed s cs t
    × (leaves s bad ≡ true)
    × (t.reports ≡ (if caught s bad then suc s.reports else s.reports))

nothing :
    (s t : ListeningSocket)
    → t.calls ≡ s.calls
    → t.released ≡ s.released
    → t.closed ≡ s.closed
    → t.has_handler ≡ s.has_handler
    → t.handler_throws ≡ s.handler_throws
    → IsServed s [] t
nothing s t a b c d e =
    (a ∙ sym (append-nil s.calls), λ x. omega (arith, ap (count x) b, ap (count x) c), d, e)

then-IsServed :
    (s t u : ListeningSocket) (c : Connection) (cs : List Connection)
    → IsServed s (c ∷ []) t
    → IsServed t cs u
    → IsServed s (c ∷ cs) u
then-IsServed s t u c cs (a, b, d, e) (a', b', d', e') = (
  a' ∙ ap (λ l. l ++ cs) a ∙ append_assoc s.calls (c ∷ []) cs,
  λ x. omega (arith, b x, b' x),
  d' ∙ d,
  e' ∙ e,
)

same_leaves :
    (s t : ListeningSocket) (bad : Option Thrown)
    → t.has_handler ≡ s.has_handler
    → t.handler_throws ≡ s.handler_throws
    → leaves s bad ≡ leaves t bad
same_leaves s t none h k = refl
same_leaves s t (some standard) h k = rw (h, k)
same_leaves s t (some other) h k = refl

same_reports :
    (s t : ListeningSocket) (bad : Option Thrown)
    → t.has_handler ≡ s.has_handler
    → t.reports ≡ s.reports
    → (if caught t bad then suc t.reports else t.reports)
      ≡ (if caught s bad then suc s.reports else s.reports)
same_reports s t none h r = r
same_reports s t (some standard) h r = rw (h, r)
same_reports s t (some other) h r = r

then-IsEnded :
    (s t : ListeningSocket) (c : Connection) (cs : List Connection) (bad : Option Thrown)
    (e : Ending)
    → IsServed s (c ∷ []) t
    → t.reports ≡ s.reports
    → IsEnded t cs bad e
    → IsEnded s (c ∷ cs) bad e
then-IsEnded s t c cs bad (finished u) h r (served, stays, counted) = (
  then-IsServed s t u c cs h served,
  same_leaves s t bad h.2 h.3 ∙ stays,
  counted ∙ same_reports s t bad h.2 r,
)
then-IsEnded s t c cs bad (escaped u) h r (served, gone, counted) = (
  then-IsServed s t u c cs h served,
  same_leaves s t bad h.2 h.3 ∙ gone,
  counted ∙ same_reports s t bad h.2 r,
)

module _ (react : Connection → Reaction) where
  abbrev pub IsCalm : Connection → Type 0
  IsCalm c = (react c).throws ≡ none

  -- The answers that are used: the connections before the end, and why it came.
  pub data Stops : List Answer → List Connection → Option Thrown → Type 0 where
    runs_dry : Stops [] [] none
    blocks : (rest : List Answer) → Stops (would_block ∷ rest) [] none
    breaks : (rest : List Answer) → Stops (fails ∷ rest) [] (some standard)
    throws_at :
        (c : Connection) (rest : List Answer) (t : Thrown)
        → (react c).throws ≡ some t
        → Stops (connects c ∷ rest) (c ∷ []) (some t)
    then_more :
        {answers : List Answer} {cs : List Connection} {bad : Option Thrown} (c : Connection)
        → IsCalm c
        → Stops answers cs bad
        → Stops (connects c ∷ answers) (c ∷ cs) bad

  abbrev pub Handled : List Answer → ListeningSocket → Ending → Type 0
  Handled answers s e =
      (cs : List Connection) × (bad : Option Thrown) × Stops answers cs bad × IsEnded s cs bad e

  called_lem : (c : Connection) (s : ListeningSocket) → IsServed s (c ∷ []) (called react c s)
  unfolding called
  called_lem c s = elim (Bool-cases (react c).releases) [
    | inl r ↦ (refl, (λ x. rw r (omega arith)), refl, refl)
    | inr r ↦ (refl, (λ x. rw r (omega arith)), refl, refl)
  ]

  -- An exception of accept or of the callback, with the socket as it is then.
  broken_lem :
      (answers : List Answer) (cs : List Connection) (s t : ListeningSocket) (x : Thrown)
      (f : ListeningSocket → Ending)
      → Stops answers cs (some x)
      → IsServed s cs t
      → t.reports ≡ s.reports
      → Handled answers s (go_on f (reported (threw x t)))
  broken_lem answers cs s t other f stops served same =
      (cs, some other, stops, (served, refl, same))
  broken_lem answers cs s t standard f stops served same =
      broken_case t.has_handler t.handler_throws refl refl
    where
      broken_case :
          (b k : Bool)
          → t.has_handler ≡ b
          → t.handler_throws ≡ k
          → Handled answers s (
              go_on f (
                if b
                then (if k
                    then threw other (record t { reports = suc t.reports })
                    else no_more (record t { reports = suc t.reports }))
                else threw standard t))
      broken_case true true h e = (
        cs,
        some standard,
        stops,
        (served, rw (sym served.2 ∙ h, sym served.3 ∙ e), rw (sym served.2 ∙ h) (ap suc same)),
      )
      broken_case true false h e = (
        cs,
        some standard,
        stops,
        (served, rw (sym served.2 ∙ h, sym served.3 ∙ e), rw (sym served.2 ∙ h) (ap suc same)),
      )
      broken_case false k h e =
          (cs, some standard, stops, (served, rw (sym served.2 ∙ h), rw (sym served.2 ∙ h) same))

  abbrev after_throw : List Answer → ListeningSocket → Option Thrown → Ending
  after_throw rest s o = go_on (handle_loop react rest) (reported (accepted o s))

  by_throws :
      (c : Connection) (s : ListeningSocket) (rest : List Answer) (o : Option Thrown)
      → (react c).throws ≡ o
      → Handled (connects c ∷ rest) s (after_throw rest (called react c s) o)
      → Handled (connects c ∷ rest) s (after_throw rest (called react c s) (react c).throws)
  by_throws c s rest o t h =
      subst (λ p. Handled (connects c ∷ rest) s (after_throw rest (called react c s) p)) (sym t) h

  accept_connects :
      (c : Connection) (s : ListeningSocket) (rest : List Answer)
      → Handled rest (called react c s) (handle_loop react rest (called react c s))
      → Handled
          (connects c ∷ rest)
          s
          (go_on (handle_loop react rest) (reported (accept react (connects c) s)))
  unfolding accept called
  accept_connects c s rest (cs, bad, stops, ended) = elim (Option-cases (react c).throws) [
    | inr (x, t) ↦ by_throws c s rest (some x) t (
        broken_lem (connects c ∷ rest) (c ∷ []) s (called react c s) x (handle_loop react rest)
          (throws_at c rest x t) (called_lem c s) refl)
    | inl t ↦ by_throws c s rest none t (
      c ∷ cs,
      bad,
      then_more c t stops,
      then-IsEnded s (called react c s) c cs bad (handle_loop react rest (called react c s))
          (called_lem c s) refl ended,
    )
  ]

  handle_loop_lem :
      (answers : List Answer) (s : ListeningSocket)
      → Handled answers s (handle_loop react answers s)
  unfolding handle_loop accept
  handle_loop_lem [] s = (
    [],
    none,
    runs_dry,
    (nothing s (record s { answers = [] }) refl refl refl refl refl, refl, refl),
  )
  handle_loop_lem (would_block ∷ rest) s = (
    [],
    none,
    blocks rest,
    (nothing s (record s { answers = rest }) refl refl refl refl refl, refl, refl),
  )
  handle_loop_lem (fails ∷ rest) s =
      broken_lem (fails ∷ rest) [] s (record s { answers = rest }) standard (handle_loop react rest)
        (breaks rest) (nothing s (record s { answers = rest }) refl refl refl refl refl) refl
  handle_loop_lem (connects c ∷ rest) s =
      let t : ListeningSocket = record s { answers = rest } in
      accept_connects c t rest (handle_loop_lem rest (called react c t))

  -- ListeningSocket::handleEventsCb, for any answers of accept: it accepts until accept would
  -- block, fails, or the callback throws. The callback is called for each of the connections until
  -- then, in their order, and of their descriptors each is released by the callback or closed,
  -- once, also where it throws. The callback for exceptions is called once for a std::exception, if
  -- the client has set it, and not otherwise. An exception leaves the handler where the callback
  -- for connections throws what is no std::exception, where a std::exception meets no callback for
  -- it, and where that callback itself throws, and only then.
  pub serves_lem : (s : ListeningSocket) → Handled s.answers s (handle_events_cb react s)
  unfolding handle_events_cb
  serves_lem s = handle_loop_lem s.answers s
