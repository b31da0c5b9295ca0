-- ===== src/Fds/Round.antt =====
-- A round of events: every event finds its listener, unless its descriptor was deleted in the round.
use bb_eventloop.Common.{
  ℕ, ◌≡◌, ◌≢◌, refl, ap, subst, sym, ◌∙◌, inl, inr, none, some, List, [], ◌∷◌, ◌++◌, true, false,
  Exception, All, All-map, Bool-cases, Option-cases,
}
use bb_eventloop.Fds.Defs.{
  Kernel, MapEntry, Runner, Ending, done, failed, aborted, find, has, start_monitoring,
  stop_monitoring,
}
use bb_eventloop.Fds.Registry.{IsValid, IsTracked, IsValid-IsTracked}
use bb_eventloop.Fds.Dispatch.{
  Call, Step, called, deleted, caught, Round, handled, escaped, lost, ended, perform_all,
  dispatch_loop, leave, handle_events,
}
use bb_eventloop.Fds.Actions.{
  Fresh, Calm, Reached, IsHandled, IsPassed, ActionsResult, perform_all_lem,
}
use bb_eventloop.Fds.Tracking.{Known}

IsHandled-called :
    (fl fd events : ℕ) (ds : List ℕ) (log : List Step) (e : ℕ × ℕ)
    → IsHandled ds log e
    → IsHandled ds (called fl fd events ∷ log) e
IsHandled-called fl fd events ds log e (inl h) = inl h
IsHandled-called fl fd events ds log e (inr h) = inr (inr h)

unknown :
    {K : Type 0} (s : Runner K) (g : ℕ) → has s.set g ≡ false → find g s.map ≡ none → ¬ Known s g
unknown s g k at (inl h) = let q : true ≡ false = sym h ∙ k in cc
unknown s g k at (inr h) = h at

was-Reached :
    (e : ℕ × ℕ) (log : List Step) (ds : List ℕ) → ds ≡ [] → IsHandled ds log e → Reached e log
unfolding has
was-Reached e log [] none_yet (inl h) = cc
was-Reached e log (d ∷ ds) none_yet (inl h) = cc
was-Reached e log ds none_yet (inr h) = h

Calm-append : (xs ys : List Step) → Calm (xs ++ ys) → Calm xs × Calm ys
Calm-append [] ys h = (tt, h)
Calm-append (called fl fd events ∷ xs) ys h = Calm-append xs ys h
Calm-append (deleted fd ∷ xs) ys h = Calm-append xs ys h
Calm-append (caught e ∷ xs) ys h = absurd h

module _ {K : Type 0} (kernel : Kernel K) where
  abbrev LoopResult : Runner K → List (ℕ × ℕ) → Round (Runner K) × List Step → Type 0
  LoopResult s es (handled s', log) =
      IsTracked kernel s'
      × (Calm log → IsValid kernel s → IsValid kernel s')
      × Fresh s.set log
      × All (IsHandled s.set log) es
  LoopResult s es (escaped s' e, log) = Fresh s.set log
  LoopResult s es (lost s' fd, log) = ⊥
  LoopResult s es (ended, log) = Fresh s.set log

  skip :
      (s : Runner K) (e : ℕ × ℕ) (es : List (ℕ × ℕ)) (r : Round (Runner K)) (log : List Step)
      → has s.set e.0 ≡ true
      → LoopResult s es (r, log)
      → LoopResult s (e ∷ es) (r, log)
  skip s e es (handled s') log k (t, v, f, all) = (t, v, f, (inl k, all))
  skip s e es (escaped s' x) log k h = h
  skip s e es (lost s' fd) log k h = h
  skip s e es ended log k h = h

  call :
      (s s' : Runner K) (fl : ℕ) (e : ℕ × ℕ) (es : List (ℕ × ℕ)) (log rest : List Step)
      (r : Round (Runner K))
      → has s.set e.0 ≡ false
      → IsPassed kernel s log s'
      → LoopResult s' es (r, rest)
      → LoopResult s (e ∷ es) (r, called fl e.0 e.1 ∷ log ++ rest)
  call s s' fl e es log rest (handled s'') k p (t, v, f, all) =
      let later =
        All-map (IsHandled s'.set rest) (IsHandled s.set (called fl e.0 e.1 ∷ log ++ rest))
          (λ d h. IsHandled-called fl e.0 e.1 s.set (log ++ rest) d (p.reached rest d h)) es all in
      let valid : Calm (log ++ rest) → IsValid kernel s → IsValid kernel s'' =
        λ c w. let both = Calm-append log rest c in v both.1 (p.valid both.0 w) in
      (t, valid, (k, p.fresh rest f), (inr (inl (refl, refl)), later))
  call s s' fl e es log rest (escaped s'' x) k p h = (k, p.fresh rest h)
  call s s' fl e es log rest (lost s'' fd) k p h = h
  call s s' fl e es log rest ended k p h = (k, p.fresh rest h)

  module _ (handle : ℕ → ℕ → ℕ → Runner K → List Call) where
    module _ (s : Runner K) (e : ℕ × ℕ) (es : List (ℕ × ℕ)) where
      pub loop-skip :
          has s.set e.0 ≡ true
          → dispatch_loop kernel handle s (e ∷ es) ≡ dispatch_loop kernel handle s es
      unfolding dispatch_loop
      loop-skip k = rw (k, dispatch_loop)

      module _ (m : MapEntry) (k : has s.set e.0 ≡ false) (at : find e.0 s.map ≡ some m)
          (log : List Step) where
        pub loop-call :
            (s' : Runner K)
            → perform_all kernel s (handle m.fl e.0 e.1 s) ≡ (done s', log)
            → dispatch_loop kernel handle s (e ∷ es) ≡ (
              (dispatch_loop kernel handle s' es).0,
              called m.fl e.0 e.1 ∷ log ++ (dispatch_loop kernel handle s' es).1,
            )
        unfolding dispatch_loop
        loop-call s' h = rw (k, dispatch_loop, at, ap (λ p. p.0) h, ap (λ p. p.1) h)

        pub loop-escape :
            (s' : Runner K) (x : Exception)
            → perform_all kernel s (handle m.fl e.0 e.1 s) ≡ (failed s' x, log)
            → dispatch_loop kernel handle s (e ∷ es) ≡ (escaped s' x, called m.fl e.0 e.1 ∷ log)
        unfolding dispatch_loop
        loop-escape s' x h = rw (k, dispatch_loop, at, ap (λ p. p.0) h, ap (λ p. p.1) h)

        pub loop-end :
            perform_all kernel s (handle m.fl e.0 e.1 s) ≡ (aborted, log)
            → dispatch_loop kernel handle s (e ∷ es) ≡ (ended, called m.fl e.0 e.1 ∷ log)
        unfolding dispatch_loop
        loop-end h = rw (k, dispatch_loop, at, ap (λ p. p.0) h, ap (λ p. p.1) h)

    loop-found :
        (s : Runner K) (e : ℕ × ℕ) (es : List (ℕ × ℕ)) (m : MapEntry)
        (p : Ending (Runner K) × List Step)
        → has s.set e.0 ≡ false
        → find e.0 s.map ≡ some m
        → perform_all kernel s (handle m.fl e.0 e.1 s) ≡ p
        → ActionsResult kernel s p.0 p.1
        → ((s' : Runner K)
            → IsPassed kernel s p.1 s'
            → LoopResult s' es (dispatch_loop kernel handle s' es))
        → LoopResult s (e ∷ es) (dispatch_loop kernel handle s (e ∷ es))
    loop-found s e es m (done s', log) k at h passed ih =
        subst (LoopResult s (e ∷ es)) (sym (loop-call s e es m k at log s' h))
          (call s s' m.fl e es log _ _ k passed (ih s' passed))
    loop-found s e es m (failed s' x, log) k at h fresh ih =
        subst (LoopResult s (e ∷ es)) (sym (loop-escape s e es m k at log s' x h)) (k, fresh)
    loop-found s e es m (aborted, log) k at h fresh ih =
        subst (LoopResult s (e ∷ es)) (sym (loop-end s e es m k at log h)) (k, fresh)

    loop_lem :
        (s : Runner K) (es : List (ℕ × ℕ))
        → IsTracked kernel s
        → s.monitoring ≡ true
        → All (λ e. Known s e.0) es
        → LoopResult s es (dispatch_loop kernel handle s es)
    unfolding dispatch_loop
    loop_lem s [] v mon known = (v, (λ c w. w), tt, tt)
    loop_lem s (e ∷ es) v mon known = elim (Bool-cases (has s.set e.0)) [
      | inl k ↦ subst (LoopResult s (e ∷ es)) (sym (loop-skip s e es k)) (
          skip s e es (dispatch_loop kernel handle s es).0 (dispatch_loop kernel handle s es).1 k
            (loop_lem s es v mon known.1))
      | inr k ↦ elim (Option-cases (find e.0 s.map)) [
        | inl at ↦ absurd (unknown s e.0 k at known.0)
        | inr (m, at) ↦
            let acts = handle m.fl e.0 e.1 s in
            loop-found s e es m (perform_all kernel s acts) k at refl
              (perform_all_lem kernel s acts v mon)
              (λ s' p.
                loop_lem s' es p.tracked p.on
                  (All-map (λ d. Known s d.0) (λ d. Known s' d.0) (λ d. p.known d.0) es known.1))
      ]
    ]

  abbrev pub RoundResult : List (ℕ × ℕ) → Round (Runner K) × List Step → Type 0
  RoundResult es (handled s', log) =
      (Calm log → IsValid kernel s')
      × IsTracked kernel s'
      × (s'.monitoring ≡ false)
      × (s'.set ≡ [])
      × Fresh [] log
      × All (λ e. Reached e log) es
  RoundResult es (escaped s' x, log) = (s'.monitoring ≡ false) × (s'.set ≡ []) × Fresh [] log
  RoundResult es (lost s' fd, log) = ⊥
  RoundResult es (ended, log) = Fresh [] log

  leave_lem :
      (s : Runner K) (es : List (ℕ × ℕ)) (r : Round (Runner K)) (log : List Step)
      → s.set ≡ []
      → IsValid kernel s
      → LoopResult (record s { monitoring = true }) es (r, log)
      → RoundResult es (leave r, log)
  unfolding stop_monitoring
  leave_lem s es (handled s') log none_yet w (t, v, f, all) = (
    (λ c.
        let u = v c (record { distinct = w.distinct; counted = w.counted; synced = w.synced }) in
        record { distinct = u.distinct; counted = u.counted; synced = u.synced }),
    record { distinct = t.distinct; covered = t.covered },
    refl,
    refl,
    subst (λ ds. Fresh ds log) none_yet f,
    All-map (IsHandled s.set log) (λ e. Reached e log) (λ e h. was-Reached e log s.set none_yet h)
        es all,
  )
  leave_lem s es (escaped s' x) log none_yet w f =
      (refl, refl, subst (λ ds. Fresh ds log) none_yet f)
  leave_lem s es (lost s' fd) log none_yet w f = f
  leave_lem s es ended log none_yet w f = subst (λ ds. Fresh ds log) none_yet f

  -- A round of events, for a listener map that agrees with the kernel and descriptors that the
  -- kernel watches when the round starts, whatever calls the listeners make, and whether they catch
  -- the exceptions of these or not: FDListenerMap::get never throws in the loop. No listener is
  -- called for a descriptor that was passed to delFDListener before in the round. If no exception
  -- leaves a listener, then each of the events was handed to a listener or its descriptor was
  -- passed to delFDListener in the round, every descriptor that the kernel watches at the end has
  -- its listener in the map, and the map agrees with the kernel if no exception was caught either.
  -- Where the process goes on, the monitor is off and empty after the round.
  pub handle_events_lem :
      (handle : ℕ → ℕ → ℕ → Runner K → List Call) (s : Runner K) (es : List (ℕ × ℕ))
      → IsValid kernel s
      → s.set ≡ []
      → All (λ e. kernel.watched s.kernel e.0 ≢ none) es
      → RoundResult es (handle_events kernel handle s es)
  unfolding handle_events start_monitoring
  handle_events_lem handle s es v none_yet watched =
      let round = dispatch_loop kernel handle (record s { monitoring = true }) es in
      let tracked = IsValid-IsTracked kernel s v in
      leave_lem s es round.0 round.1 none_yet v (
        loop_lem handle (record s { monitoring = true }) es
          (record { distinct = v.distinct; covered = tracked.covered }) refl
          (All-map (λ e. kernel.watched s.kernel e.0 ≢ none)
            (λ e. Known (record s { monitoring = true }) e.0) (λ e h. inr (tracked.covered e.0 h))
            es watched))
