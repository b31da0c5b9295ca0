-- ===== src/Fds/Deleting.antt =====
-- FDListenerMap::del, with epoll_ctl: how it ends, and what it leaves in the map and the kernel.
use bb_eventloop.Common.{
  ℕ, ◌-◌, ◌≡◌, ◌≢◌, ◌⊎◌, refl, sym, inl, inr, none, some, subst, arith, non_existing_fd_listener,
  system_exception, Option-cases,
}
use bb_eventloop.Fds.Defs.{
  accepted, refused, bad_fd, ctl_del, Kernel, MapEntry, Runner, Ending, done, failed, aborted, find,
  erase, epoll_del, del,
}
use bb_eventloop.Fds.Entries.{find-erase, length-erase, erase-Distinct}
use bb_eventloop.Fds.Registry.{CtlReply-cases, some≢none, IsValid, IsPut, synced_after}

module _ {K : Type 0} (kernel : Kernel K) where
  pub del-eq-none :
      (s : Runner K) (fd : ℕ)
      → find fd s.map ≡ none
      → del kernel s fd ≡ failed s non_existing_fd_listener
  unfolding del
  del-eq-none s fd at = rw (at, del)

  abbrev pub DelResult : Runner K → ℕ → Ending (Runner K) → Type 0
  DelResult s fd (done s') = (find fd s.map ≢ none) × IsPut kernel s fd none s'
  DelResult s fd (failed s' e) =
      (s' ≡ s)
      × (((e ≡ non_existing_fd_listener) × (find fd s.map ≡ none))
          ⊎ ((e ≡ system_exception) × (find fd s.map ≢ none)))
  DelResult s fd aborted = Unit

  module _ (s : Runner K) (fd : ℕ) (m : MapEntry) (at : find fd s.map ≡ some m) where
    pub del-eq-accepted :
        (k : K)
        → kernel.ctl ctl_del fd 0 s.kernel ≡ accepted k
        → del kernel s fd
          ≡ done (record s { map = erase fd s.map; kernel = k; add_count = s.add_count - 1 })
    unfolding del epoll_del
    del-eq-accepted k r = rw (at, del, epoll_del, r)

    pub del-eq-refused :
        kernel.ctl ctl_del fd 0 s.kernel ≡ refused → del kernel s fd ≡ failed s system_exception
    unfolding del epoll_del
    del-eq-refused r = rw (at, del, epoll_del, r)

    pub del-eq-aborted : kernel.ctl ctl_del fd 0 s.kernel ≡ bad_fd → del kernel s fd ≡ aborted
    unfolding del epoll_del
    del-eq-aborted r = rw (at, del, epoll_del, r)

    del-IsPut :
        (k : K)
        → IsValid kernel s
        → kernel.ctl ctl_del fd 0 s.kernel ≡ accepted k
        → IsPut kernel s fd none
            (record s { map = erase fd s.map; kernel = k; add_count = s.add_count - 1 })
    del-IsPut k v r =
        let put = find-erase fd s.map v.distinct in
        record {
          valid = record {
            distinct = erase-Distinct fd s.map v.distinct;
            counted = omega (arith, v.counted, length-erase fd s.map m at);
            synced =
                synced_after kernel s k _ fd none v.synced (kernel.removed fd 0 s.kernel k r) put;
          };
          put = put;
          same_monitoring = refl;
          same_set = refl;
        }

  -- A listener is removed: its descriptor was in the map and is now neither there nor in the kernel's
  -- epoll instance, and nothing else is changed. A call that throws changes nothing, and it throws
  -- NonExistingFDListener for a descriptor that is not in the map, SystemException where
  -- epoll_ctl fails.
  pub del_lem : (s : Runner K) (fd : ℕ) → IsValid kernel s → DelResult s fd (del kernel s fd)
  del_lem s fd v = elim (Option-cases (find fd s.map)) [
    | inl at ↦ subst (DelResult s fd) (sym (del-eq-none s fd at)) (refl, inl (refl, at))
    | inr (m, at) ↦ elim (CtlReply-cases (kernel.ctl ctl_del fd 0 s.kernel)) [
      | inl (k, r) ↦
          subst (DelResult s fd) (sym (del-eq-accepted s fd m at k r))
            (some≢none at, del-IsPut s fd m at k v r)
      | inr (inl r) ↦
          subst (DelResult s fd) (sym (del-eq-refused s fd m at r)) (refl, inr (refl, some≢none at))
      | inr (inr r) ↦ subst (DelResult s fd) (sym (del-eq-aborted s fd m at r)) tt
    ]
  ]
