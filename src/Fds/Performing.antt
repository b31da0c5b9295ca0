-- ===== src/Fds/Performing.antt =====
-- What a call of delFDListener in a round leaves, and any call of a listener.
use bb_eventloop.Common.{
  ℕ, ◌-◌, ◌≡◌, ◌≢◌, refl, ap, subst, sym, ◌∙◌, inl, inr, none, ◌∷◌, true, ◌==◌, arith, update,
  Bool-cases, Option-cases,
}
use bb_eventloop.Fds.Defs.{
  ctl_del, Kernel, Runner, Ending, done, find, has, monitor, erase, del, del_fd_listener,
}
use bb_eventloop.Fds.Entries.{find-erase, erase-Distinct}
use bb_eventloop.Fds.Registry.{CtlReply-cases, IsValid, IsTracked}
use bb_eventloop.Fds.Deleting.{
  DelResult, del_lem, del-eq-none, del-eq-accepted, del-eq-refused, del-eq-aborted,
}
use bb_eventloop.Fds.Dispatch.{Action, add_fd, modify_fd, del_fd, perform}
use bb_eventloop.Fds.Tracking.{Known, IsKept, ActionResult, add-Action, modify-Action}

monitor-eq :
    {K : Type 0} (s : Runner K) (fd : ℕ)
    → s.monitoring ≡ true
    → monitor s fd ≡ record s { set = fd ∷ s.set }
unfolding monitor
monitor-eq s fd mon = elim (Bool-cases s.monitoring) [ inl k ↦ ground arith | inr k ↦ cc ]

module _ {K : Type 0} (kernel : Kernel K) where
  module _ (s : Runner K) (t : IsTracked kernel s) (mon : s.monitoring ≡ true) where
    abbrev noted : ℕ → Runner K
    noted fd = record s { set = fd ∷ s.set }

    noted-Known : (fd g : ℕ) → Known s g → Known (noted fd) g
    unfolding has
    noted-Known fd g (inl h) = inl (ground (arith, h))
    noted-Known fd g (inr h) = inr h

    noted-IsKept : (fd : ℕ) → IsKept kernel s (del_fd fd) (noted fd)
    noted-IsKept fd = record {
      tracked = record { distinct = t.distinct; covered = t.covered };
      on = mon;
      same_set = refl;
      known = noted-Known fd;
    }

    del-IsValid :
        (fd : ℕ) (s' : Runner K)
        → del kernel (noted fd) fd ≡ done s'
        → IsValid kernel s
        → IsValid kernel s'
    del-IsValid fd s' e v =
        let w : IsValid kernel (noted fd) = record {
          distinct = v.distinct;
          counted = v.counted;
          synced = v.synced;
        } in
        let r : DelResult kernel (noted fd) fd (done s') =
          subst (DelResult kernel (noted fd) fd) e (del_lem kernel (noted fd) fd w) in
        r.1.valid

    erased-Known :
        (s' : Runner K) (fd g : ℕ)
        → s'.set ≡ fd ∷ s.set
        → find g s'.map ≡ update (λ h. find h s.map) fd none g
        → Known s g
        → Known s' g
    unfolding has
    erased-Known s' fd g same put h = elim (Bool-cases (fd == g)) [
      | inl k ↦ inl (ap (λ ds. has ds g) same ∙ rw k)
      | inr k ↦
          let kept : find g s'.map ≡ find g s.map = put ∙ rw k in
          elim h [
            | inl old ↦ inl (ap (λ ds. has ds g) same ∙ rw k old)
            | inr found ↦ inr (λ n. found (sym kept ∙ n))
          ]
    ]

    erased-covered :
        (k : K) (fd : ℕ)
        → ((g : ℕ) → kernel.watched k g ≡ update (kernel.watched s.kernel) fd none g)
        → (g : ℕ) → kernel.watched k g ≢ none
        → find g (erase fd s.map) ≢ none
    erased-covered k fd ctl g w n = elim (Bool-cases (fd == g)) [
      | inl q ↦ w (ctl g ∙ rw q refl)
      | inr q ↦
          t.covered g (λ e. w (ctl g ∙ rw q e))
            (sym (find-erase fd s.map t.distinct g ∙ rw q refl) ∙ n)
    ]

    del-Action : (fd : ℕ) → ActionResult kernel s (del_fd fd) (del kernel (noted fd) fd)
    del-Action fd =
        let to : (r : Ending (Runner K))
            → del kernel (noted fd) fd ≡ r
            → ActionResult kernel s (del_fd fd) r
            → ActionResult kernel s (del_fd fd) (del kernel (noted fd) fd) =
          λ r e. subst (ActionResult kernel s (del_fd fd)) (sym e) in
        elim (Option-cases (find fd s.map)) [
          | inl at ↦ to _ (del-eq-none kernel (noted fd) fd at) (noted-IsKept fd)
          | inr (m, at) ↦ elim (CtlReply-cases (kernel.ctl ctl_del fd 0 s.kernel)) [
            | inl (k, r) ↦
                let e = del-eq-accepted kernel (noted fd) fd m at k r in
                let s' : Runner K = record (noted fd) {
                  map = erase fd s.map;
                  kernel = k;
                  add_count = s.add_count - 1;
                } in
                to (done s') e (
                  del-IsValid fd s' e,
                  record {
                    tracked = record {
                      distinct = erase-Distinct fd s.map t.distinct;
                      covered = erased-covered k fd (kernel.removed fd 0 s.kernel k r);
                    };
                    on = mon;
                    same_set = refl;
                    known = λ g. erased-Known s' fd g refl (find-erase fd s.map t.distinct g);
                  },
                )
            | inr (inl r) ↦ to _ (del-eq-refused kernel (noted fd) fd m at r) (noted-IsKept fd)
            | inr (inr r) ↦ to _ (del-eq-aborted kernel (noted fd) fd m at r) tt
          ]
        ]

  del_fd_listener-eq :
      (s : Runner K) (fd : ℕ)
      → s.monitoring ≡ true
      → del_fd_listener kernel s fd ≡ del kernel (record s { set = fd ∷ s.set }) fd
  unfolding del_fd_listener
  del_fd_listener-eq s fd mon = ap (λ r. del kernel r fd) (monitor-eq s fd mon)

  pub perform_lem :
      (s : Runner K) (a : Action)
      → IsTracked kernel s
      → s.monitoring ≡ true
      → ActionResult kernel s a (perform kernel s a)
  unfolding perform
  perform_lem s (add_fd fl fd events) t mon = add-Action kernel s t mon fl fd events
  perform_lem s (modify_fd fd events) t mon = modify-Action kernel s t mon fd events
  perform_lem s (del_fd fd) t mon =
      subst (ActionResult kernel s (del_fd fd)) (sym (del_fd_listener-eq s fd mon))
        (del-Action s t mon fd)
