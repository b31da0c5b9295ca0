-- ===== src/Fds/Registry.antt =====
-- The map of listeners and the kernel's epoll instance agree, after every call that does not throw.
use bb_eventloop.Common.{
  ℕ, ◌≡◌, ◌≢◌, ◌⊎◌, refl, ap, sym, ◌∙◌, inl, inr, Option, none, some, List, ◌==◌, length, update,
  Bool-cases,
}
use bb_eventloop.Fds.Defs.{CtlReply, accepted, refused, bad_fd, Kernel, MapEntry, Runner, find}
use bb_eventloop.Fds.Entries.{Distinct}

abbrev pub events_of : Option MapEntry → Option ℕ
events_of none = none
events_of (some m) = some m.events

pub CtlReply-cases :
    {K : Type 0} (r : CtlReply K) → ((k : K) × (r ≡ accepted k)) ⊎ ((r ≡ refused) ⊎ (r ≡ bad_fd))
CtlReply-cases (accepted k) = inl (k, refl)
CtlReply-cases refused = inr (inl refl)
CtlReply-cases bad_fd = inr (inr refl)

events_of-update :
    (f : ℕ → Option MapEntry) (fd g : ℕ) (o : Option MapEntry)
    → events_of (update f fd o g) ≡ update (λ h. events_of (f h)) fd (events_of o) g
events_of-update f fd g o = elim (Bool-cases (fd == g)) [ inl k ↦ rw k | inr k ↦ rw k ]

update-cong :
    (f f' : ℕ → Option ℕ) (fd : ℕ) (o : Option ℕ)
    → ((g : ℕ) → f g ≡ f' g)
    → (g : ℕ) → update f fd o g ≡ update f' fd o g
update-cong f f' fd o h g = elim (Bool-cases (fd == g)) [ inl k ↦ rw k | inr k ↦ rw k (h g) ]

pub some≢none : {A : Type 0} {o : Option A} {a : A} → o ≡ some a → o ≢ none
some≢none h n = cc

module _ {K : Type 0} (kernel : Kernel K) where
  -- The kernel watches the descriptors of the map, for the events that the map says.
  pub record IsValid (s : Runner K) : Type 0 where
    pub distinct : Distinct s.map
    pub counted : s.add_count ≡ length s.map
    pub synced : (g : ℕ) → kernel.watched s.kernel g ≡ events_of (find g s.map)

  -- Every descriptor that the kernel watches has its listener in the map.
  pub record IsTracked (s : Runner K) : Type 0 where
    pub distinct : Distinct s.map
    pub covered : (g : ℕ) → kernel.watched s.kernel g ≢ none → find g s.map ≢ none

  pub IsValid-IsTracked : (s : Runner K) → IsValid s → IsTracked s
  IsValid-IsTracked s v = record {
    distinct = v.distinct;
    covered = λ g w n. w (v.synced g ∙ ap events_of n);
  }

  pub synced_after :
      (s : Runner K) (k : K) (ms : List MapEntry) (fd : ℕ) (o : Option MapEntry)
      → ((g : ℕ) → kernel.watched s.kernel g ≡ events_of (find g s.map))
      → ((g : ℕ) → kernel.watched k g ≡ update (kernel.watched s.kernel) fd (events_of o) g)
      → ((g : ℕ) → find g ms ≡ update (λ h. find h s.map) fd o g)
      → (g : ℕ) → kernel.watched k g ≡ events_of (find g ms)
  synced_after s k ms fd o old ctl put g =
      ctl g
      ∙ update-cong (kernel.watched s.kernel) (λ h. events_of (find h s.map)) fd (events_of o) old g
      ∙ sym (events_of-update (λ h. find h s.map) fd g o)
      ∙ ap events_of (sym (put g))

  -- What a call leaves behind: the invariant, and a map that differs at one descriptor.
  pub record IsPut (s : Runner K) (fd : ℕ) (o : Option MapEntry) (s' : Runner K) : Type 0 where
    pub valid : IsValid s'
    pub put : (g : ℕ) → find g s'.map ≡ update (λ h. find h s.map) fd o g
    pub same_monitoring : s'.monitoring ≡ s.monitoring
    pub same_set : s'.set ≡ s.set
