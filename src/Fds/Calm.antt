-- ===== src/Fds/Calm.antt =====
-- Listeners that let the exceptions of their calls pass.
use bb_eventloop.Common.{
  ℕ, ◌≡◌, refl, subst, sym, inl, inr, none, some, List, [], ◌∷◌, ◌++◌, false, All, Bool-cases,
  Option-cases,
}
use bb_eventloop.Fds.Defs.{Kernel, MapEntry, Runner, Ending, done, failed, aborted, find, has}
use bb_eventloop.Fds.Dispatch.{
  Action, add_fd, modify_fd, del_fd, Call, Step, called, deleted, caught, lost, trace, perform,
  perform_all, dispatch_loop, handle_events,
}
use bb_eventloop.Fds.Actions.{Calm, perform_all-done, perform_all-failed, perform_all-aborted}
use bb_eventloop.Fds.Round.{loop-skip, loop-call, loop-escape, loop-end}

-- None of the calls is in a try block that catches its exception.
abbrev pub Uncaught : List Call → Type 0
Uncaught acts = All (λ c. c.1 ≡ false) acts

trace-Calm : (a : Action) (log : List Step) → Calm log → Calm (trace a log)
trace-Calm (add_fd fl fd events) log h = h
trace-Calm (modify_fd fd events) log h = h
trace-Calm (del_fd fd) log h = h

append-Calm : (xs ys : List Step) → Calm xs → Calm ys → Calm (xs ++ ys)
append-Calm [] ys h k = k
append-Calm (called fl fd events ∷ xs) ys h k = append-Calm xs ys h k
append-Calm (deleted fd ∷ xs) ys h k = append-Calm xs ys h k
append-Calm (caught e ∷ xs) ys h k = absurd h

module _ {K : Type 0} (kernel : Kernel K) where
  cons-Calm :
      (s : Runner K) (a : Action) (acts : List Call) (r : Ending (Runner K))
      → perform kernel s a ≡ r
      → ((s' : Runner K) → Calm (perform_all kernel s' acts).1)
      → Calm (perform_all kernel s ((a, false) ∷ acts)).1
  cons-Calm s a acts (done s') e ih =
      subst (λ p. Calm p.1) (sym (perform_all-done kernel s a acts s' false e))
        (trace-Calm a _ (ih s'))
  cons-Calm s a acts (failed s' x) e ih =
      subst (λ p. Calm p.1) (sym (perform_all-failed kernel s a acts s' x e)) (trace-Calm a [] tt)
  cons-Calm s a acts aborted e ih =
      subst (λ p. Calm p.1) (sym (perform_all-aborted kernel s a acts false e)) (trace-Calm a [] tt)

  perform_all-Calm :
      (s : Runner K) (acts : List Call) → Uncaught acts → Calm (perform_all kernel s acts).1
  unfolding perform_all
  perform_all-Calm s [] h = tt
  perform_all-Calm s ((a, b) ∷ acts) h =
      subst (λ c. Calm (perform_all kernel s ((a, c) ∷ acts)).1) (sym h.0)
        (cons-Calm s a acts (perform kernel s a) refl (λ s'. perform_all-Calm s' acts h.1))

  module _ (handle : ℕ → ℕ → ℕ → Runner K → List Call)
      (uncaught : (fl fd events : ℕ) (s : Runner K) → Uncaught (handle fl fd events s)) where
    loop-lost :
        (s : Runner K) (e : ℕ × ℕ) (es : List (ℕ × ℕ))
        → has s.set e.0 ≡ false
        → find e.0 s.map ≡ none
        → dispatch_loop kernel handle s (e ∷ es) ≡ (lost s e.0, [])
    unfolding dispatch_loop
    loop-lost s e es k at = rw (k, dispatch_loop, at)

    found-Calm :
        (s : Runner K) (e : ℕ × ℕ) (es : List (ℕ × ℕ)) (m : MapEntry)
        (p : Ending (Runner K) × List Step)
        → has s.set e.0 ≡ false
        → find e.0 s.map ≡ some m
        → perform_all kernel s (handle m.fl e.0 e.1 s) ≡ p
        → Calm p.1
        → ((s' : Runner K) → Calm (dispatch_loop kernel handle s' es).1)
        → Calm (dispatch_loop kernel handle s (e ∷ es)).1
    found-Calm s e es m (done s', log) k at h c ih =
        subst (λ r. Calm r.1) (sym (loop-call kernel handle s e es m k at log s' h))
          (append-Calm log _ c (ih s'))
    found-Calm s e es m (failed s' x, log) k at h c ih =
        subst (λ r. Calm r.1) (sym (loop-escape kernel handle s e es m k at log s' x h)) c
    found-Calm s e es m (aborted, log) k at h c ih =
        subst (λ r. Calm r.1) (sym (loop-end kernel handle s e es m k at log h)) c

    loop-Calm : (s : Runner K) (es : List (ℕ × ℕ)) → Calm (dispatch_loop kernel handle s es).1
    unfolding dispatch_loop
    loop-Calm s [] = tt
    loop-Calm s (e ∷ es) = elim (Bool-cases (has s.set e.0)) [
      | inl k ↦ subst (λ r. Calm r.1) (sym (loop-skip kernel handle s e es k)) (loop-Calm s es)
      | inr k ↦ elim (Option-cases (find e.0 s.map)) [
        | inl at ↦ subst (λ r. Calm r.1) (sym (loop-lost s e es k at)) tt
        | inr (m, at) ↦
            let acts = handle m.fl e.0 e.1 s in
            found-Calm s e es m (perform_all kernel s acts) k at refl
              (perform_all-Calm s acts (uncaught m.fl e.0 e.1 s)) (λ s'. loop-Calm s' es)
      ]
    ]

    pub handle_events-Calm :
        (s : Runner K) (es : List (ℕ × ℕ)) → Calm (handle_events kernel handle s es).1
    unfolding handle_events
    handle_events-Calm s es = loop-Calm _ es
