-- ===== src/Examples/Rounds.antt =====
-- A kernel that refuses what epoll_ctl(2) refuses, and the descriptors 4 and 6, which it watches. The
-- listener of 4 catches the exception of adding 4 again, and deletes 6.
use bb_eventloop.Common.{
  ℕ, ◌≡◌, sym, ap, Bool-cases, inl, inr, refl, Option, none, some, List, [], ◌∷◌, true, false, ◌==◌,
  if◌then◌else◌, update, arith,
}
use bb_eventloop.Fds.Defs.{
  Op, ctl_add, ctl_mod, ctl_del, CtlReply, accepted, refused, Kernel, Runner, find,
}
use bb_eventloop.Fds.Registry.{IsValid, events_of}
use bb_eventloop.Fds.Dispatch.{Call, add_fd, del_fd, handle_events}
use bb_eventloop.Fds.Round.{RoundResult, handle_events_lem}

abbrev pub Watches : Type 0
Watches = ℕ → Option ℕ

abbrev if_free : Option ℕ → Watches → CtlReply Watches
if_free none k = accepted k
if_free (some events) k = refused

abbrev if_there : Option ℕ → Watches → CtlReply Watches
if_there none k = refused
if_there (some events) k = accepted k

abbrev ctl : Op → ℕ → ℕ → Watches → CtlReply Watches
ctl ctl_add fd events k = if_free (k fd) (update k fd (some events))
ctl ctl_mod fd events k = if_there (k fd) (update k fd (some events))
ctl ctl_del fd events k = if_there (k fd) (update k fd none)

pub if_free-accepted :
    (o : Option ℕ) (k k' : Watches) → if_free o k ≡ accepted k' → (o ≡ none) × (k ≡ k')
if_free-accepted none k k' h = (refl, cc)
if_free-accepted (some events) k k' h = absurd cc

pub if_there-accepted : (o : Option ℕ) (k k' : Watches) → if_there o k ≡ accepted k' → k ≡ k'
if_there-accepted none k k' h = cc
if_there-accepted (some events) k k' h = cc

abbrev pub kernel : Kernel Watches
kernel = record {
  ctl = ctl;
  watched = λ k. k;
  added = λ fd events k k' h.
      let (fresh, same) = if_free-accepted (k fd) _ k' h in
      (fresh, λ g. ap (λ (f : Watches). f g) (sym same));
  modified =
      λ fd events k k' h g. ap (λ (f : Watches). f g) (sym (if_there-accepted (k fd) _ k' h));
  removed = λ fd events k k' h g. ap (λ (f : Watches). f g) (sym (if_there-accepted (k fd) _ k' h));
}

abbrev pub runner : Runner Watches
runner = record {
  map = record { fd = 6; fl = 60; events = 1 } ∷ record { fd = 4; fl = 40; events = 1 } ∷ [];
  kernel = λ g. if 6 == g then some 1 else if 4 == g then some 1 else none;
  add_count = 2;
  monitoring = false;
  set = [];
}

runner-synced : (g : ℕ) → runner.kernel g ≡ events_of (find g runner.map)
unfolding find
runner-synced g = elim (Bool-cases (6 == g)) [
  | inl k ↦ rw k
  | inr k ↦ elim (Bool-cases (4 == g)) [ inl l ↦ rw (k, l) | inr l ↦ rw (k, l) ]
]

pub runner-IsValid : IsValid kernel runner
runner-IsValid = record {
  distinct = (((λ e. omega (arith, e)), tt), (tt, tt));
  counted = refl;
  synced = runner-synced;
}

abbrev handle : ℕ → ℕ → ℕ → Runner Watches → List Call
handle fl fd events s = if fl == 40 then (add_fd 41 4 1, true) ∷ (del_fd 6, false) ∷ [] else []

handle_events_example :
    RoundResult kernel
      ((4, 1) ∷ (6, 1) ∷ [])
      (handle_events kernel handle runner ((4, 1) ∷ (6, 1) ∷ []))
handle_events_example =
    handle_events_lem kernel handle runner ((4, 1) ∷ (6, 1) ∷ []) runner-IsValid refl
      ((λ e. cc), ((λ e. cc), tt))
