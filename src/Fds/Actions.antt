-- ===== src/Fds/Actions.antt =====
-- What the calls of one listener do to the round of events that it is called in.
use bb_eventloop.Common.{
  ℕ, ◌≡◌, ◌⊎◌, refl, subst, sym, inl, inr, List, [], ◌∷◌, ◌++◌, Bool, true, false, ◌==◌, Exception,
  arith, Bool-cases,
}
use bb_eventloop.Fds.Defs.{Kernel, Runner, Ending, done, failed, aborted, has}
use bb_eventloop.Fds.Registry.{IsValid, IsTracked}
use bb_eventloop.Fds.Tracking.{IsKept, ActionResult, Known, after}
use bb_eventloop.Fds.Performing.{perform_lem}
use bb_eventloop.Fds.Dispatch.{
  Action, Call, add_fd, modify_fd, del_fd, Step, called, deleted, caught, trace, perform,
  perform_all,
}

-- No listener is called for a descriptor that was deleted before.
abbrev pub Fresh : List ℕ → List Step → Type 0
Fresh ds [] = Unit
Fresh ds (called fl fd events ∷ log) = (has ds fd ≡ false) × Fresh ds log
Fresh ds (deleted fd ∷ log) = Fresh (fd ∷ ds) log
Fresh ds (caught e ∷ log) = Fresh ds log

-- No listener caught an exception of its calls.
abbrev pub Calm : List Step → Type 0
Calm [] = Unit
Calm (called fl fd events ∷ log) = Calm log
Calm (deleted fd ∷ log) = Calm log
Calm (caught e ∷ log) = ⊥

-- The events of a descriptor were handed to a listener, or the descriptor was deleted.
abbrev pub Reached : ℕ × ℕ → List Step → Type 0
Reached e [] = ⊥
Reached e (called fl fd events ∷ log) = ((fd ≡ e.0) × (events ≡ e.1)) ⊎ Reached e log
Reached e (deleted fd ∷ log) = (fd ≡ e.0) ⊎ Reached e log
Reached e (caught x ∷ log) = Reached e log

abbrev pub IsHandled : List ℕ → List Step → ℕ × ℕ → Type 0
IsHandled ds log e = (has ds e.0 ≡ true) ⊎ Reached e log

module _ {K : Type 0} (kernel : Kernel K) where
  -- A log of deletions and caught exceptions, whose descriptors the monitor has at the end.
  pub record IsPassed (s : Runner K) (log : List Step) (s' : Runner K) : Type 0 where
    pub valid : Calm log → IsValid kernel s → IsValid kernel s'
    pub tracked : IsTracked kernel s'
    pub on : s'.monitoring ≡ true
    pub known : (g : ℕ) → Known s g → Known s' g
    pub fresh : (rest : List Step) → Fresh s'.set rest → Fresh s.set (log ++ rest)
    pub reached :
        (rest : List Step) (e : ℕ × ℕ) → IsHandled s'.set rest e → IsHandled s.set (log ++ rest) e

  abbrev pub ActionsResult : Runner K → Ending (Runner K) → List Step → Type 0
  ActionsResult s (done s') log = IsPassed s log s'
  ActionsResult s (failed s' e) log = Fresh s.set log
  ActionsResult s aborted log = Fresh s.set log

  Fresh-trace :
      (a : Action) (ds : List ℕ) (log : List Step) → Fresh (after a ds) log → Fresh ds (trace a log)
  Fresh-trace (add_fd fl fd events) ds log h = h
  Fresh-trace (modify_fd fd events) ds log h = h
  Fresh-trace (del_fd fd) ds log h = h

  IsHandled-trace :
      (a : Action) (ds : List ℕ) (log : List Step) (e : ℕ × ℕ)
      → IsHandled (after a ds) log e
      → IsHandled ds (trace a log) e
  unfolding has
  IsHandled-trace (add_fd fl fd events) ds log e h = h
  IsHandled-trace (modify_fd fd events) ds log e h = h
  IsHandled-trace (del_fd fd) ds log e (inl h) = elim (Bool-cases (fd == e.0)) [
    | inl k ↦ inr (inl (ground arith))
    | inr k ↦ inl (ground arith)
  ]
  IsHandled-trace (del_fd fd) ds log e (inr h) = inr (inr h)

  trace-append : (a : Action) (log rest : List Step) → trace a log ++ rest ≡ trace a (log ++ rest)
  trace-append (add_fd fl fd events) log rest = refl
  trace-append (modify_fd fd events) log rest = refl
  trace-append (del_fd fd) log rest = refl

  Fresh-none : (a : Action) (ds : List ℕ) → Fresh ds (trace a [])
  Fresh-none a ds = Fresh-trace a ds [] tt

  Calm-trace : (a : Action) (log : List Step) → Calm (trace a log) → Calm log
  Calm-trace (add_fd fl fd events) log h = h
  Calm-trace (modify_fd fd events) log h = h
  Calm-trace (del_fd fd) log h = h

  passed-cons :
      (s s' : Runner K) (a : Action) (r : Ending (Runner K)) (log : List Step)
      → IsKept kernel s a s'
      → (Calm log → IsValid kernel s → IsValid kernel s')
      → ActionsResult s' r log
      → ActionsResult s r (trace a log)
  passed-cons s s' a (done s'') log k valid p = record {
    valid = λ c v. let calm = Calm-trace a log c in p.valid calm (valid calm v);
    tracked = p.tracked;
    on = p.on;
    known = λ g h. p.known g (k.known g h);
    fresh = λ rest f. subst (Fresh s.set) (sym (trace-append a log rest)) (
        Fresh-trace a s.set (log ++ rest)
          (subst (λ ds. Fresh ds (log ++ rest)) k.same_set (p.fresh rest f)));
    reached = λ rest e h.
        subst (λ l. IsHandled s.set l e) (sym (trace-append a log rest))
          (IsHandled-trace a s.set (log ++ rest) e
            (subst (λ ds. IsHandled ds (log ++ rest) e) k.same_set (p.reached rest e h)));
  }
  passed-cons s s' a (failed s'' e) log k valid p =
      Fresh-trace a s.set log (subst (λ ds. Fresh ds log) k.same_set p)
  passed-cons s s' a aborted log k valid p =
      Fresh-trace a s.set log (subst (λ ds. Fresh ds log) k.same_set p)

  passed-caught :
      (s : Runner K) (x : Exception) (r : Ending (Runner K)) (log : List Step)
      → ActionsResult s r log
      → ActionsResult s r (caught x ∷ log)
  passed-caught s x (done s') log p = record {
    valid = λ c v. absurd c;
    tracked = p.tracked;
    on = p.on;
    known = p.known;
    fresh = p.fresh;
    reached = λ rest e h. p.reached rest e h;
  }
  passed-caught s x (failed s' e) log p = p
  passed-caught s x aborted log p = p

  module _ (s : Runner K) (a : Action) (acts : List Call) where
    pub perform_all-done :
        (s' : Runner K) (b : Bool)
        → perform kernel s a ≡ done s'
        → perform_all kernel s ((a, b) ∷ acts)
          ≡ ((perform_all kernel s' acts).0, trace a (perform_all kernel s' acts).1)
    unfolding perform_all
    perform_all-done s' b h = rw (h, perform_all)

    pub perform_all-caught :
        (s' : Runner K) (e : Exception)
        → perform kernel s a ≡ failed s' e
        → perform_all kernel s ((a, true) ∷ acts)
          ≡ ((perform_all kernel s' acts).0, trace a (caught e ∷ (perform_all kernel s' acts).1))
    unfolding perform_all
    perform_all-caught s' e h = rw (h, perform_all)

    pub perform_all-failed :
        (s' : Runner K) (e : Exception)
        → perform kernel s a ≡ failed s' e
        → perform_all kernel s ((a, false) ∷ acts) ≡ (failed s' e, trace a [])
    unfolding perform_all
    perform_all-failed s' e h = rw (h, perform_all)

    pub perform_all-aborted :
        (b : Bool)
        → perform kernel s a ≡ aborted
        → perform_all kernel s ((a, b) ∷ acts) ≡ (aborted, trace a [])
    unfolding perform_all
    perform_all-aborted b h = rw (h, perform_all)

    perform_all-cons :
        (b : Bool) (r : Ending (Runner K))
        → perform kernel s a ≡ r
        → ActionResult kernel s a r
        → ((s' : Runner K)
            → IsTracked kernel s'
            → s'.monitoring ≡ true
            → ActionsResult s' (perform_all kernel s' acts).0 (perform_all kernel s' acts).1)
        → ActionsResult s
            (perform_all kernel s ((a, b) ∷ acts)).0
            (perform_all kernel s ((a, b) ∷ acts)).1
    perform_all-cons b (done s') eq (valid, k) ih =
        subst (λ p. ActionsResult s p.0 p.1) (sym (perform_all-done s' b eq))
          (passed-cons s s' a _ _ k (λ c. valid) (ih s' k.tracked k.on))
    perform_all-cons true (failed s' e) eq k ih =
        subst (λ p. ActionsResult s p.0 p.1) (sym (perform_all-caught s' e eq))
          (passed-cons s s' a _ _ k (λ c v. absurd c)
            (passed-caught s' e (perform_all kernel s' acts).0 (perform_all kernel s' acts).1
              (ih s' k.tracked k.on)))
    perform_all-cons false (failed s' e) eq k ih =
        subst (λ p. ActionsResult s p.0 p.1) (sym (perform_all-failed s' e eq)) (Fresh-none a s.set)
    perform_all-cons b aborted eq k ih =
        subst (λ p. ActionsResult s p.0 p.1) (sym (perform_all-aborted b eq)) (Fresh-none a s.set)

  pub perform_all_lem :
      (s : Runner K) (acts : List Call)
      → IsTracked kernel s
      → s.monitoring ≡ true
      → ActionsResult s (perform_all kernel s acts).0 (perform_all kernel s acts).1
  unfolding perform_all
  perform_all_lem s [] t mon = record {
    valid = λ c v. v;
    tracked = t;
    on = mon;
    known = λ g h. h;
    fresh = λ rest h. h;
    reached = λ rest e h. h;
  }
  perform_all_lem s ((a, b) ∷ acts) t mon =
      perform_all-cons s a acts b (perform kernel s a) refl (perform_lem kernel s a t mon)
        (λ s'. perform_all_lem s' acts)
