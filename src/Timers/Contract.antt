-- ===== src/Timers/Contract.antt =====
-- What the operations of TimerQueue and Timer promise their callers.
use bb_eventloop.Common.{
  update, update_self, ℕ, ◌≡◌, ◌≢◌, ◌↔◌, refl, ap, subst, ◌∙◌, sym, inl, inr, Option, none, some,
  List, [], ◌∷◌, ◌++◌, arith, ◌==◌, Bool-cases, Option-cases, if◌then◌else◌, All, All-map, returns,
  true, false,
}
use bb_eventloop.Common.Int.{ℤ, pos, ◌+ℤ◌, ◌-ℤ◌, ◌≤ℤ◌, ltb_ℤ, -ℤ_parts}
use bb_eventloop.Timers.Defs.{
  Entry, TimerQueue, no_timeout, remove_node, insert_entry, empty, erase, cancel_entry,
  insert_timer, schedule_entry, pop_first, schedule, cancel, execute, execute_first_timer,
  timeout_of, get_timeout, is_scheduled, is_duration, find_node,
}
use bb_eventloop.Timers.Entries.{IsSorted, From}
use bb_eventloop.Timers.Invariant.{
  IsValid, Linked, Armed, unlinked, erase-eq, without, without-IsValid, insert_timer-IsValid,
  set_cb-IsValid, drop_cb-IsValid,
}

pub empty-IsValid : IsValid empty
unfolding empty
empty-IsValid = record {
  sorted = tt;
  distinct = tt;
  old = tt;
  linked = tt;
  owned = λ t n p. let q : none ≡ some n = p in cc;
  armed = tt;
}

remove_head : (e : Entry) (es : List Entry) → remove_node e.node (e ∷ es) ≡ es
unfolding remove_node
remove_head e es = ground arith

-- What the timers are after a change at timer `t` alone.
abbrev pub ChangedAt : TimerQueue → ℕ → Option ℕ → Option ℕ → TimerQueue → Type 0
ChangedAt tq t node cb tq' =
    (s : ℕ) → (tq'.position s ≡ update tq.position t node s) × (tq'.cb s ≡ update tq.cb t cb s)

-- The entries of the timers other than `t`, in their order.
abbrev pub others_of : ℕ → List Entry → List Entry
others_of t [] = []
others_of t (e ∷ es) = let rest = others_of t es in if e.timer == t then rest else e ∷ rest

others_of-All : (t : ℕ) (es : List Entry) → All (λ e. e.timer ≢ t) es → es ≡ others_of t es
others_of-All t [] h = refl
others_of-All t (e ∷ es) h = elim (Bool-cases (e.timer == t)) [
  | inl k ↦ absurd (h.0 (ground arith))
  | inr k ↦ rw k (ap (◌∷◌ e) (others_of-All t es h.1))
]

-- Of a timer with one entry, the removal of its node leaves those of the others.
remove_node-others :
    (t n : ℕ) (es : List Entry) (d : Entry)
    → find_node n es ≡ some d
    → d.timer ≡ t
    → All (λ e. e.timer ≢ t) (remove_node n es)
    → remove_node n es ≡ others_of t es
unfolding find_node remove_node
remove_node-others t n [] d at own h = cc
remove_node-others t n (e ∷ es) d at own h = elim (Bool-cases (e.node == n)) [
  | inl k ↦
      let same : e ≡ d = ground arith in
      let mine : (e.timer == t) ≡ true = ground arith in
      let rest : All (λ x. x.timer ≢ t) es =
        subst (λ b. All (λ x. x.timer ≢ t) (if b then es else e ∷ remove_node n es)) k h in
      rw (k, mine) (others_of-All t es rest)
  | inr k ↦
      let rest : All (λ x. x.timer ≢ t) (e ∷ remove_node n es) =
        subst (λ b. All (λ x. x.timer ≢ t) (if b then es else e ∷ remove_node n es)) k h in
      let found : find_node n es ≡ some d = ground arith in
      elim (Bool-cases (e.timer == t)) [
        | inl q ↦ absurd (rest.0 (ground arith))
        | inr q ↦ rw (k, q) (ap (◌∷◌ e) (remove_node-others t n es d found own rest.1))
      ]
]

record IsOut (tq : TimerQueue) (t : ℕ) (tq' : TimerQueue) : Type 0 where
  valid : IsValid tq'
  out : tq'.position t ≡ none
  same_cb : tq'.cb ≡ tq.cb
  same_node : tq'.next_node ≡ tq.next_node
  others : (s : ℕ) → tq'.position s ≡ update tq.position t none s
  left : tq'.queue ≡ others_of t tq.queue

update_same : {A : Type 0} (f : ℕ → A) (t : ℕ) (v : A) → f t ≡ v → (s : ℕ) → f s ≡ update f t v s
update_same f t v h s = elim (Bool-cases (t == s)) [
  | inl q ↦ let same : t ≡ s = ground arith in rw q (ap f (sym same) ∙ h)
  | inr q ↦ rw q
]

update-update :
    {A : Type 0} (g f : ℕ → A) (t : ℕ) (v w : A)
    → ((s : ℕ) → g s ≡ update f t v s)
    → (s : ℕ) → update g t w s ≡ update f t w s
update-update g f t v w h s = elim (Bool-cases (t == s)) [
  | inl q ↦ rw q
  | inr q ↦ rw q (h s ∙ rw q)
]

cancel_entry_lem :
    (tq : TimerQueue) (t : ℕ)
    → IsValid tq
    → (tq' : TimerQueue) × (cancel_entry tq t ≡ returns tq') × IsOut tq t tq'
unfolding cancel_entry
cancel_entry_lem tq t v = elim (Option-cases (tq.position t)) [
  | inl out ↦ (
    tq,
    rw (out, cancel_entry),
    record {
      valid = v;
      out = out;
      same_cb = refl;
      same_node = refl;
      others = update_same tq.position t none out;
      left = others_of-All t tq.queue (unlinked tq t v out);
    },
  )
  | inr (n, at) ↦
      let w = without-IsValid tq n t v at in
      let gone = update_self tq.position t none in
      let (e, found, own) = v.owned t n at in
      (
        without tq n t,
        rw (at, cancel_entry, erase-eq tq n t v at),
        record {
          valid = w;
          out = gone;
          same_cb = refl;
          same_node = refl;
          others = λ s. refl;
          left = remove_node-others t n tq.queue e found own (unlinked (without tq n t) t w gone);
        },
      )
]

-- Timer::cancel of a valid queue returns. The timer is then not scheduled: it points nowhere and has no
-- callback, every other timer is as before, and the queue is valid.
pub cancel_lem :
    (tq : TimerQueue) (t : ℕ)
    → IsValid tq
    → (tq' : TimerQueue) × (cancel tq t ≡ returns tq')
      × IsValid tq'
      × (is_scheduled tq' t ≡ false)
      × ChangedAt tq t none none tq'
unfolding cancel is_scheduled
cancel_lem tq t v =
    let (tq', done, o) = cancel_entry_lem tq t v in
    (
      record tq' { cb = update tq'.cb t none },
      rw done,
      drop_cb-IsValid tq' t o.valid o.out,
      rw (o.out, is_scheduled),
      λ s. (o.others s, ap (λ (c : ℕ → Option ℕ). update c t none s) o.same_cb),
    )

-- Timer::schedule(timeout, f) of a valid queue returns, whether or not the timer was scheduled
-- before, where the clock's time and `timeout` have a sum that is a finite duration. The queue is
-- then the old one without the timer's entry, with one new entry of the timer put in, due at that
-- sum, and it is valid; the timer is scheduled, with callback `f`, and every other timer has its
-- callback and its place as before.
pub schedule_lem :
    (tq : TimerQueue) (t f : ℕ) (timeout now : ℤ)
    → IsValid tq
    → is_duration (now +ℤ timeout) ≡ true
    → (tq' : TimerQueue) × (e : Entry) × (schedule tq t timeout (some f) now ≡ returns tq')
      × IsValid tq'
      × (tq'.queue ≡ insert_entry e (others_of t tq.queue))
      × (e.timer ≡ t)
      × (e.tte ≡ now +ℤ timeout)
      × (is_scheduled tq' t ≡ true)
      × ChangedAt tq t (some e.node) (some f) tq'
unfolding schedule schedule_entry insert_timer is_scheduled
schedule_lem tq t f timeout now v finite =
    let (tq', done, o) = cancel_entry_lem _ t (set_cb-IsValid tq t f v) in
    let tte = now +ℤ timeout in
    let arm : tq'.cb t ≡ some f =
      ap (λ (c : ℕ → Option ℕ). c t) o.same_cb ∙ update_self tq.cb t (some f) in
    (
      insert_timer tq' t tte,
      record { tte = tte; timer = t; node = tq'.next_node },
      rw (done, finite),
      insert_timer-IsValid tq' t f tte o.valid o.out arm,
      ap (insert_entry _) o.left,
      refl,
      refl,
      rw (update_self tq'.position t (some tq'.next_node), is_scheduled),
      λ s. (
        update-update tq'.position tq.position t none (some tq'.next_node) o.others s,
        ap (λ (c : ℕ → Option ℕ). c s) o.same_cb,
      ),
    )

pop_first-eq :
    (tq : TimerQueue) (e : Entry) (es : List Entry) (tq' : TimerQueue)
    → tq.queue ≡ e ∷ es
    → erase tq e.node ≡ returns tq'
    → pop_first tq ≡ returns (tq', some e.timer)
unfolding pop_first
pop_first-eq tq e es tq' at er = ground arith

-- popFirstTimerToExecute and the timer's execute(), for a valid queue that is not empty: the callback
-- of the first entry is called, and no other entry is due before it. That timer is then not
-- scheduled and has no callback, the rest of the queue is as before, and the queue is valid.
pub execute_first_timer_lem :
    (tq : TimerQueue) (e : Entry) (es : List Entry)
    → IsValid tq
    → tq.queue ≡ e ∷ es
    → (tq' : TimerQueue) × (f : ℕ) × (execute_first_timer tq ≡ returns (tq', some f))
      × (tq.cb e.timer ≡ some f)
      × All (From e.tte) es
      × IsValid tq'
      × (tq'.queue ≡ es)
      × (is_scheduled tq' e.timer ≡ false)
      × (tq'.cb e.timer ≡ none)
unfolding execute_first_timer pop_first execute is_scheduled
execute_first_timer_lem tq e es v at =
    let linked : All (Linked tq) (e ∷ es) = subst (All (Linked tq)) at v.linked in
    let armed : All (Armed tq) (e ∷ es) = subst (All (Armed tq)) at v.armed in
    let sorted : IsSorted (e ∷ es) = subst IsSorted at v.sorted in
    let t = e.timer in
    let tq' = without tq e.node t in
    let (f, arm) = armed.0 in
    let popped = pop_first-eq tq e es tq' at (erase-eq tq e.node t v linked.0) in
    let out = update_self tq.position t none in
    (
      record tq' { cb = update tq'.cb t none },
      f,
      rw (popped, arm, execute),
      arm,
      sorted.0,
      drop_cb-IsValid tq' t (without-IsValid tq e.node t v linked.0) out,
      ap (remove_node e.node) at ∙ remove_head e es,
      rw (out, is_scheduled),
      update_self tq.cb t none,
    )

-- A new entry of a queue in order stands behind all entries that are due before it or at the same
-- time, and before all that are due later: timers for the same time fire in the order of their
-- scheduling.
pub insert_entry_lem :
    (e : Entry) (fs : List Entry)
    → IsSorted fs
    → (before : List Entry) × (after : List Entry) × (fs ≡ before ++ after)
      × (insert_entry e fs ≡ before ++ e ∷ after)
      × All (λ f. f.tte ≤ℤ e.tte) before
      × All (λ f. ltb_ℤ e.tte f.tte ≡ true) after
unfolding insert_entry
insert_entry_lem e [] h = ([], [], refl, refl, tt, tt)
insert_entry_lem e (f ∷ fs) h = elim (Bool-cases (ltb_ℤ e.tte f.tte)) [
  | inl k ↦ (
    [],
    f ∷ fs,
    refl,
    rw k,
    tt,
    (k, All-map (From f.tte) (λ g. ltb_ℤ e.tte g.tte ≡ true) (λ g le. ground arith) fs h.0),
  )
  | inr k ↦
      let (before, after, split, put, lo, hi) = insert_entry_lem e fs h.1 in
      (f ∷ before, after, ap (◌∷◌ f) split, rw k (ap (◌∷◌ f) put), (ground arith, lo), hi)
]

timeout_of-nonneg : (e : Entry) (es : List Entry) (now : ℤ) → pos 0 ≤ℤ timeout_of (e ∷ es) now
unfolding timeout_of
timeout_of-nonneg e es now = ground arith

timeout_of-ne : (e : Entry) (es : List Entry) (now : ℤ) → timeout_of (e ∷ es) now ≢ no_timeout
timeout_of-ne e es now h =
    let n : pos 0 ≤ℤ no_timeout = subst (λ k. pos 0 ≤ℤ k) h (timeout_of-nonneg e es now) in
    omega arith

timeout_of-left :
    (e : Entry) (es : List Entry) (now : ℤ)
    → timeout_of (e ∷ es) now ≡ (if ltb_ℤ e.tte now then pos 0 else e.tte -ℤ now)
unfolding timeout_of
timeout_of-left e es now = ground (arith, -ℤ_parts e.tte now)

timeout_of_iff : (es : List Entry) (now : ℤ) → (timeout_of es now ≡ no_timeout) ↔ (es ≡ [])
unfolding timeout_of
timeout_of_iff [] now = ((λ h. refl), (λ h. refl))
timeout_of_iff (e ∷ es) now = ((λ h. absurd (timeout_of-ne e es now h)), (λ h. cc))

-- getTimeout is NO_TIMEOUT for an empty queue, and for no other.
pub get_timeout-eq-no_timeout :
    (tq : TimerQueue) (now : ℤ) → (get_timeout tq now ≡ no_timeout) ↔ (tq.queue ≡ [])
unfolding get_timeout
get_timeout-eq-no_timeout tq now = timeout_of_iff tq.queue now

-- For a queue in order whose first entry is `e`: getTimeout is the time until `e` is due, or zero if
-- `e` is late, so that no entry of the queue is due sooner.
pub get_timeout_lem :
    (tq : TimerQueue) (now : ℤ) (e : Entry) (es : List Entry)
    → IsValid tq
    → tq.queue ≡ e ∷ es
    → (get_timeout tq now ≡ (if ltb_ℤ e.tte now then pos 0 else e.tte -ℤ now))
      × (pos 0 ≤ℤ get_timeout tq now)
      × All (From e.tte) es
unfolding get_timeout
get_timeout_lem tq now e es v at =
    let same : timeout_of tq.queue now ≡ timeout_of (e ∷ es) now = ap (λ q. timeout_of q now) at in
    let sorted : IsSorted (e ∷ es) = subst IsSorted at v.sorted in
    (
      same ∙ timeout_of-left e es now,
      subst (λ k. pos 0 ≤ℤ k) (sym same) (timeout_of-nonneg e es now),
      sorted.0,
    )
