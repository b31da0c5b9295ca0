-- ===== src/Fds/Tracking.antt =====
-- What one call of a listener leaves of the map and the monitor, whether it returns or throws.
use bb_eventloop.Common.{
  ℕ, ◌≡◌, ◌≢◌, ◌⊎◌, refl, ap, subst, sym, ◌∙◌, inl, inr, Option, none, some, List, ◌∷◌, true, false,
  suc, ◌==◌, arith, update, Bool-cases, Option-cases,
}
use bb_eventloop.Fds.Defs.{
  ctl_add, ctl_mod, Kernel, MapEntry, Runner, Ending, done, failed, aborted, find, has, set_events,
  add, modify,
}
use bb_eventloop.Fds.Entries.{none-find, find-set_events, set_events-Distinct}
use bb_eventloop.Fds.Registry.{CtlReply-cases, IsValid, IsTracked}
use bb_eventloop.Fds.Adding.{
  AddResult, add_lem, find_cons, add-eq-already, add-eq-accepted, add-eq-refused, add-eq-aborted,
}
use bb_eventloop.Fds.Modifying.{
  ModifyResult, modify_lem, modify-eq-same, modify-eq-accepted, modify-eq-refused,
  modify-eq-aborted, modify-eq-none,
}
use bb_eventloop.Fds.Dispatch.{Action, add_fd, modify_fd, del_fd}

-- The loop can tell what to do with an event of the descriptor.
abbrev pub Known : {K : Type 0} → Runner K → ℕ → Type 0
Known s g = (has s.set g ≡ true) ⊎ (find g s.map ≢ none)

abbrev pub after : Action → List ℕ → List ℕ
after (add_fd fl fd events) ds = ds
after (modify_fd fd events) ds = ds
after (del_fd fd) ds = fd ∷ ds

known_update :
    {A : Type 0} (f : ℕ → Option A) (fd g : ℕ) (a : A) → f g ≢ none → update f fd (some a) g ≢ none
known_update f fd g a h = elim (Bool-cases (fd == g)) [ inl k ↦ rw k (λ n. cc) | inr k ↦ rw k h ]

module _ {K : Type 0} (kernel : Kernel K) where
  -- After a call the map has the listeners of what the kernel watches, and the monitor what was deleted.
  pub record IsKept (s : Runner K) (a : Action) (s' : Runner K) : Type 0 where
    pub tracked : IsTracked kernel s'
    pub on : s'.monitoring ≡ true
    pub same_set : s'.set ≡ after a s.set
    pub known : (g : ℕ) → Known s g → Known s' g

  abbrev pub ActionResult : Runner K → Action → Ending (Runner K) → Type 0
  ActionResult s a (done s') = (IsValid kernel s → IsValid kernel s') × IsKept s a s'
  ActionResult s a (failed s' e) = IsKept s a s'
  ActionResult s a aborted = Unit

  -- An entry for the descriptor is put in the map.
  put-Known :
      (s s' : Runner K) (fd : ℕ) (m : MapEntry)
      → ((g : ℕ) → find g s'.map ≡ update (λ h. find h s.map) fd (some m) g)
      → s'.set ≡ s.set
      → (g : ℕ) → Known s g
      → Known s' g
  put-Known s s' fd m put same g (inl h) = inl (ap (λ ds. has ds g) same ∙ h)
  put-Known s s' fd m put same g (inr h) =
      inr (λ n. known_update (λ k. find k s.map) fd g m h (sym (put g) ∙ n))

  put-covered :
      (s s' : Runner K) (fd : ℕ) (m : MapEntry)
      → IsTracked kernel s
      → ((g : ℕ) → find g s'.map ≡ update (λ h. find h s.map) fd (some m) g)
      → ((g : ℕ) → (fd == g) ≡ false → kernel.watched s'.kernel g ≡ kernel.watched s.kernel g)
      → (g : ℕ) → kernel.watched s'.kernel g ≢ none
      → find g s'.map ≢ none
  put-covered s s' fd m t put others g w n = elim (Bool-cases (fd == g)) [
    | inl k ↦ let q : some m ≡ none = sym (put g ∙ rw k refl) ∙ n in cc
    | inr k ↦ t.covered g (λ e. w (others g k ∙ e)) (sym (put g ∙ rw k refl) ∙ n)
  ]

  others_of-update :
      (k k' : K) (fd events : ℕ)
      → ((g : ℕ) → kernel.watched k' g ≡ update (kernel.watched k) fd (some events) g)
      → (g : ℕ) → (fd == g) ≡ false
      → kernel.watched k' g ≡ kernel.watched k g
  others_of-update k k' fd events h g e = h g ∙ rw e

  module _ (s : Runner K) (t : IsTracked kernel s) (mon : s.monitoring ≡ true) where
    add-IsValid :
        (fl fd events : ℕ) (s' : Runner K)
        → add kernel s fl fd events ≡ done s'
        → IsValid kernel s
        → IsValid kernel s'
    add-IsValid fl fd events s' e v =
        let r : AddResult kernel s fl fd events (done s') =
          subst (AddResult kernel s fl fd events) e (add_lem kernel s fl fd events v) in
        r.1.valid

    pub add-Action :
        (fl fd events : ℕ) → ActionResult s (add_fd fl fd events) (add kernel s fl fd events)
    add-Action fl fd events = elim (Option-cases (find fd s.map)) [
      | inr (m, at) ↦
          subst (ActionResult s (add_fd fl fd events))
            (sym (add-eq-already kernel s fl fd events m at))
            (record { tracked = t; on = mon; same_set = refl; known = λ g h. h })
      | inl at ↦
          let m : MapEntry = record { fd = fd; fl = fl; events = events } in
          let put = find_cons kernel m s.map in
          elim (CtlReply-cases (kernel.ctl ctl_add fd events s.kernel)) [
            | inl (k, r) ↦
                let e = add-eq-accepted kernel s fl fd events k at r in
                let s' : Runner K = record s {
                  map = m ∷ s.map;
                  kernel = k;
                  add_count = suc s.add_count;
                } in
                subst (ActionResult s (add_fd fl fd events)) (sym e) (
                  add-IsValid fl fd events _ e,
                  record {
                    tracked = record {
                      distinct = (none-find fd s.map at, t.distinct);
                      covered = put-covered s s' fd m t put (
                          others_of-update s.kernel k fd events
                            (kernel.added fd events s.kernel k r).1);
                    };
                    on = mon;
                    same_set = refl;
                    known = put-Known s s' fd m put refl;
                  },
                )
            | inr (inl r) ↦
                let s' : Runner K = record s { map = m ∷ s.map } in
                subst (ActionResult s (add_fd fl fd events))
                  (sym (add-eq-refused kernel s fl fd events at r))
                  (record {
                    tracked = record {
                      distinct = (none-find fd s.map at, t.distinct);
                      covered = put-covered s s' fd m t put (λ g e. refl);
                    };
                    on = mon;
                    same_set = refl;
                    known = put-Known s s' fd m put refl;
                  })
            | inr (inr r) ↦
                subst (ActionResult s (add_fd fl fd events))
                  (sym (add-eq-aborted kernel s fl fd events at r)) tt
          ]
    ]

    modify-IsValid :
        (fd events : ℕ) (s' : Runner K)
        → modify kernel s fd events ≡ done s'
        → IsValid kernel s
        → IsValid kernel s'
    modify-IsValid fd events s' e v =
        let r : ModifyResult kernel s fd events (done s') =
          subst (ModifyResult kernel s fd events) e (modify_lem kernel s fd events v) in
        r.2.valid

    same-IsKept : (fd events : ℕ) → IsKept s (modify_fd fd events) s
    same-IsKept fd events = record { tracked = t; on = mon; same_set = refl; known = λ g h. h }

    pub modify-Action :
        (fd events : ℕ) → ActionResult s (modify_fd fd events) (modify kernel s fd events)
    modify-Action fd events =
        let to : (r : Ending (Runner K))
            → modify kernel s fd events ≡ r
            → ActionResult s (modify_fd fd events) r
            → ActionResult s (modify_fd fd events) (modify kernel s fd events) =
          λ r e. subst (ActionResult s (modify_fd fd events)) (sym e) in
        elim (Option-cases (find fd s.map)) [
          | inl at ↦ to _ (modify-eq-none kernel s fd events at) (same-IsKept fd events)
          | inr (m, at) ↦ elim (Bool-cases (m.events == events)) [
            | inl q ↦
                let same : m.events ≡ events = ground arith in
                to _ (modify-eq-same kernel s fd events m at same) ((λ v. v), same-IsKept fd events)
            | inr q ↦
                let other : m.events ≢ events = λ w. ground arith in
                elim (CtlReply-cases (kernel.ctl ctl_mod fd events s.kernel)) [
                  | inl (k, r) ↦
                      let e = modify-eq-accepted kernel s fd events m at k other r in
                      let put = find-set_events fd events s.map m at in
                      let s' : Runner K = record s {
                        map = set_events fd events s.map;
                        kernel = k;
                      } in
                      to _ e (
                        modify-IsValid fd events _ e,
                        record {
                          tracked = record {
                            distinct = set_events-Distinct fd events s.map t.distinct;
                            covered =
                                put-covered s s' fd (record m { events = events }) t put
                                  (others_of-update s.kernel k fd events
                                    (kernel.modified fd events s.kernel k r));
                          };
                          on = mon;
                          same_set = refl;
                          known = put-Known s s' fd (record m { events = events }) put refl;
                        },
                      )
                  | inr (inl r) ↦
                      to _ (modify-eq-refused kernel s fd events m at other r)
                        (same-IsKept fd events)
                  | inr (inr r) ↦ to _ (modify-eq-aborted kernel s fd events m at other r) tt
                ]
          ]
        ]
