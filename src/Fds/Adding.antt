-- ===== src/Fds/Adding.antt =====
-- FDListenerMap::add, with epoll_ctl: how it ends, and what it leaves in the map and the kernel.
use bb_eventloop.Common.{
  ℕ, suc, ◌≡◌, ◌≢◌, ◌⊎◌, refl, ap, sym, ◌∙◌, inl, inr, none, some, List, ◌∷◌, subst, update, arith,
  fd_already_added, system_exception, Option-cases, update_self,
}
use bb_eventloop.Fds.Defs.{
  accepted, refused, bad_fd, ctl_add, Kernel, MapEntry, Runner, Ending, done, failed, aborted, find,
  epoll_add, add,
}
use bb_eventloop.Fds.Entries.{none-find}
use bb_eventloop.Fds.Registry.{CtlReply-cases, some≢none, IsValid, IsPut, synced_after}

module _ {K : Type 0} (kernel : Kernel K) where
  abbrev pub AddResult : Runner K → ℕ → ℕ → ℕ → Ending (Runner K) → Type 0
  AddResult s fl fd events (done s') =
      (find fd s.map ≡ none)
      × IsPut kernel s fd (some (record { fd = fd; fl = fl; events = events })) s'
  AddResult s fl fd events (failed s' e) =
      ((e ≡ fd_already_added) × (find fd s.map ≢ none) × (s' ≡ s))
      ⊎ ((e ≡ system_exception)
          × (find fd s.map ≡ none)
          × (find fd s'.map ≡ some (record { fd = fd; fl = fl; events = events }))
          × (s'.add_count ≡ s.add_count)
          × ¬ IsValid kernel s')
  AddResult s fl fd events aborted = Unit

  pub find_cons :
      (m : MapEntry) (ms : List MapEntry) (g : ℕ)
      → find g (m ∷ ms) ≡ update (λ h. find h ms) m.fd (some m) g
  unfolding find
  find_cons m ms g = refl

  module _ (s : Runner K) (fl fd events : ℕ) where
    abbrev pub entry : MapEntry
    entry = record { fd = fd; fl = fl; events = events }

    pub add-eq-already :
        (m : MapEntry)
        → find fd s.map ≡ some m
        → add kernel s fl fd events ≡ failed s fd_already_added
    unfolding add
    add-eq-already m at = rw (at, add)

    pub add-eq-accepted :
        (k : K)
        → find fd s.map ≡ none
        → kernel.ctl ctl_add fd events s.kernel ≡ accepted k
        → add kernel s fl fd events
          ≡ done (record s { map = entry ∷ s.map; kernel = k; add_count = suc s.add_count })
    unfolding add epoll_add
    add-eq-accepted k at r = rw (at, add, epoll_add, r)

    pub add-eq-refused :
        find fd s.map ≡ none
        → kernel.ctl ctl_add fd events s.kernel ≡ refused
        → add kernel s fl fd events ≡ failed (record s { map = entry ∷ s.map }) system_exception
    unfolding add epoll_add
    add-eq-refused at r = rw (at, add, epoll_add, r)

    pub add-eq-aborted :
        find fd s.map ≡ none
        → kernel.ctl ctl_add fd events s.kernel ≡ bad_fd
        → add kernel s fl fd events ≡ aborted
    unfolding add epoll_add
    add-eq-aborted at r = rw (at, add, epoll_add, r)

    add-IsPut :
        (k : K)
        → IsValid kernel s
        → find fd s.map ≡ none
        → kernel.ctl ctl_add fd events s.kernel ≡ accepted k
        → IsPut kernel s fd
            (some entry)
            (record s { map = entry ∷ s.map; kernel = k; add_count = suc s.add_count })
    add-IsPut k v at r =
        let (fresh, ctl) = kernel.added fd events s.kernel k r in
        record {
          valid = record {
            distinct = (none-find fd s.map at, v.distinct);
            counted = ap suc v.counted;
            synced =
                synced_after kernel s k (entry ∷ s.map) fd (some entry) v.synced ctl
                  (find_cons entry s.map);
          };
          put = find_cons entry s.map;
          same_monitoring = refl;
          same_set = refl;
        }

  pub add_lem :
      (s : Runner K) (fl fd events : ℕ)
      → IsValid kernel s
      → AddResult s fl fd events (add kernel s fl fd events)
  add_lem s fl fd events v = elim (Option-cases (find fd s.map)) [
    | inr (m, at) ↦
        subst (AddResult s fl fd events) (sym (add-eq-already s fl fd events m at))
          (inl (refl, some≢none at, refl))
    | inl at ↦ elim (CtlReply-cases (kernel.ctl ctl_add fd events s.kernel)) [
      | inl (k, r) ↦
          subst (AddResult s fl fd events) (sym (add-eq-accepted s fl fd events k at r))
            (at, add-IsPut s fl fd events k v at r)
      | inr (inl r) ↦
          let put = find_cons (record { fd = fd; fl = fl; events = events }) s.map fd in
          let found =
            put
            ∙ update_self (λ h. find h s.map) fd
                (some (record { fd = fd; fl = fl; events = events })) in
          subst (AddResult s fl fd events) (sym (add-eq-refused s fl fd events at r))
            (inr (refl, at, found, refl, λ w. omega (arith, w.counted, v.counted)))
      | inr (inr r) ↦ subst (AddResult s fl fd events) (sym (add-eq-aborted s fl fd events at r)) tt
    ]
  ]
