-- ===== src/Fds/Modifying.antt =====
-- FDListenerMap::modify, with epoll_ctl: how it ends, and what it leaves in the map and the kernel.
use bb_eventloop.Common.{
  ℕ, ◌≡◌, ◌≢◌, ◌⊎◌, refl, sym, ◌∙◌, inl, inr, none, some, true, false, ◌==◌, subst, arith,
  non_existing_fd_listener, system_exception, Bool-cases, Option-cases,
}
use bb_eventloop.Fds.Defs.{
  accepted, refused, bad_fd, ctl_mod, Kernel, MapEntry, Runner, Ending, done, failed, aborted, find,
  set_events, epoll_modify, modify,
}
use bb_eventloop.Fds.Entries.{find-set_events, length-set_events, set_events-Distinct}
use bb_eventloop.Fds.Registry.{CtlReply-cases, some≢none, IsValid, IsPut, synced_after}

module _ {K : Type 0} (kernel : Kernel K) where
  abbrev pub ModifyResult : Runner K → ℕ → ℕ → Ending (Runner K) → Type 0
  ModifyResult s fd events (done s') =
      (m : MapEntry) × (find fd s.map ≡ some m)
      × IsPut kernel s fd (some (record m { events = events })) s'
  ModifyResult s fd events (failed s' e) =
      (s' ≡ s)
      × (((e ≡ non_existing_fd_listener) × (find fd s.map ≡ none))
          ⊎ ((e ≡ system_exception) × (find fd s.map ≢ none)))
  ModifyResult s fd events aborted = Unit

  module _ (s : Runner K) (fd events : ℕ) (m : MapEntry) (at : find fd s.map ≡ some m) where
    pub modify-eq-same : m.events ≡ events → modify kernel s fd events ≡ done s
    unfolding modify
    modify-eq-same e =
        let same : (m.events == events) ≡ true = ground arith in rw (at, modify, same)

    pub modify-eq-accepted :
        (k : K)
        → m.events ≢ events
        → kernel.ctl ctl_mod fd events s.kernel ≡ accepted k
        → modify kernel s fd events
          ≡ done (record s { map = set_events fd events s.map; kernel = k })
    unfolding modify epoll_modify
    modify-eq-accepted k e r =
        let other : (m.events == events) ≡ false = ground arith in
        rw (at, modify, other, epoll_modify, r)

    pub modify-eq-refused :
        m.events ≢ events
        → kernel.ctl ctl_mod fd events s.kernel ≡ refused
        → modify kernel s fd events ≡ failed s system_exception
    unfolding modify epoll_modify
    modify-eq-refused e r =
        let other : (m.events == events) ≡ false = ground arith in
        rw (at, modify, other, epoll_modify, r)

    pub modify-eq-aborted :
        m.events ≢ events
        → kernel.ctl ctl_mod fd events s.kernel ≡ bad_fd
        → modify kernel s fd events ≡ aborted
    unfolding modify epoll_modify
    modify-eq-aborted e r =
        let other : (m.events == events) ≡ false = ground arith in
        rw (at, modify, other, epoll_modify, r)

    modify-same-IsPut :
        IsValid kernel s
        → m.events ≡ events
        → IsPut kernel s fd (some (record m { events = events })) s
    modify-same-IsPut v e = record {
      valid = v;
      put = λ g. elim (Bool-cases (fd == g)) [
        | inl k ↦ let same : fd ≡ g = ground arith in rw (k, ← same, ← e) at
        | inr k ↦ rw k
      ];
      same_monitoring = refl;
      same_set = refl;
    }

    modify-IsPut :
        (k : K)
        → IsValid kernel s
        → kernel.ctl ctl_mod fd events s.kernel ≡ accepted k
        → IsPut kernel s fd
            (some (record m { events = events }))
            (record s { map = set_events fd events s.map; kernel = k })
    modify-IsPut k v r =
        let ctl = kernel.modified fd events s.kernel k r in
        let put = find-set_events fd events s.map m at in
        record {
          valid = record {
            distinct = set_events-Distinct fd events s.map v.distinct;
            counted = v.counted ∙ sym (length-set_events fd events s.map);
            synced =
                synced_after kernel s k _ fd (some (record m { events = events })) v.synced ctl put;
          };
          put = put;
          same_monitoring = refl;
          same_set = refl;
        }

  pub modify-eq-none :
      (s : Runner K) (fd events : ℕ)
      → find fd s.map ≡ none
      → modify kernel s fd events ≡ failed s non_existing_fd_listener
  unfolding modify
  modify-eq-none s fd events at = rw (at, modify)

  -- The events of a listener are changed: the listener is in the map with the new events, in the kernel's
  -- epoll instance too, and nothing else is changed. A call that throws changes nothing, and it
  -- throws NonExistingFDListener for a descriptor that is not in the map, SystemException where
  -- epoll_ctl fails.
  pub modify_lem :
      (s : Runner K) (fd events : ℕ)
      → IsValid kernel s
      → ModifyResult s fd events (modify kernel s fd events)
  modify_lem s fd events v = elim (Option-cases (find fd s.map)) [
    | inl at ↦
        subst (ModifyResult s fd events) (sym (modify-eq-none s fd events at))
          (refl, inl (refl, at))
    | inr (m, at) ↦
        let to : (r : Ending (Runner K))
            → modify kernel s fd events ≡ r
            → ModifyResult s fd events r
            → ModifyResult s fd events (modify kernel s fd events) =
          λ r e. subst (ModifyResult s fd events) (sym e) in
        elim (Bool-cases (m.events == events)) [
          | inl same ↦
              let e : m.events ≡ events = ground arith in
              to _ (modify-eq-same s fd events m at e)
                (m, at, modify-same-IsPut s fd events m at v e)
          | inr other ↦
              let e : m.events ≢ events = λ q. ground arith in
              elim (CtlReply-cases (kernel.ctl ctl_mod fd events s.kernel)) [
                | inl (k, r) ↦
                    to _ (modify-eq-accepted s fd events m at k e r)
                      (m, at, modify-IsPut s fd events m at k v r)
                | inr (inl r) ↦
                    to _ (modify-eq-refused s fd events m at e r) (refl, inr (refl, some≢none at))
                | inr (inr r) ↦ to _ (modify-eq-aborted s fd events m at e r) tt
              ]
        ]
  ]
