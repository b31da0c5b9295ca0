-- ===== src/Timers/Invariant.antt =====
-- The invariant that ties the timers to the nodes of the queue, and that every operation keeps.
use bb_eventloop.Common.{
  update, update_self, update_ne, ℕ, suc, ◌≡◌, ◌≢◌, ◌<◌, ap, ◌∙◌, sym, inl, inr, none, some, arith,
  ◌==◌, Bool-cases, All, All-map, All-zip, returns, false,
}
use bb_eventloop.Common.Int.{ℤ}
use bb_eventloop.Timers.Defs.{
  Entry, TimerQueue, find_node, remove_node, insert_entry, erase, insert_timer,
}
use bb_eventloop.Timers.Entries.{
  IsSorted, Other, Distinct, All-remove, All-insert, remove-IsSorted, insert-IsSorted,
  remove-Distinct, insert-Distinct, remove-Other, find-remove_ne, find-insert_ne, find-insert_self,
  All-find,
}

abbrev pub Linked : TimerQueue → Entry → Type 0
Linked tq e = tq.position e.timer ≡ some e.node

abbrev pub Armed : TimerQueue → Entry → Type 0
Armed tq e = (f : ℕ) × (tq.cb e.timer ≡ some f)

abbrev pub Old : ℕ → Entry → Type 0
Old n e = e.node < n

pub record IsValid (tq : TimerQueue) : Type 0 where
  pub sorted : IsSorted tq.queue
  pub distinct : Distinct tq.queue
  pub old : All (Old tq.next_node) tq.queue
  -- every entry of the queue is where its timer points, and every timer points to an entry of its own
  pub linked : All (Linked tq) tq.queue
  pub owned :
      (t n : ℕ)
      → tq.position t ≡ some n
      → (e : Entry) × (find_node n tq.queue ≡ some e) × (e.timer ≡ t)
  -- a scheduled timer has a callback
  pub armed : All (Armed tq) tq.queue

-- The queue without timer `t`, which stood at node `n`.
abbrev pub without : TimerQueue → ℕ → ℕ → TimerQueue
without tq n t = record tq { queue = remove_node n tq.queue; position = update tq.position t none }

module _ (tq : TimerQueue) (n t : ℕ) (v : IsValid tq) (at : tq.position t ≡ some n) where
  pub erase-eq : erase tq n ≡ returns (without tq n t)
  unfolding erase
  erase-eq = let (e, found, own) = v.owned t n at in rw (found, erase, own)

  without-owned :
      (s k : ℕ)
      → (without tq n t).position s ≡ some k
      → (e : Entry) × (find_node k (without tq n t).queue ≡ some e) × (e.timer ≡ s)
  without-owned s k p = elim (Bool-cases (t == s)) [
    | inl q ↦
        let same : t ≡ s = ground arith in
        let gone : none ≡ some k =
          sym (update_self tq.position t none) ∙ ap (update tq.position t none) same ∙ p in
        cc
    | inr q ↦
        let (e, found, own) = v.owned s k (sym (update_ne tq.position t s none (ne q)) ∙ p) in
        let (e', found', own') = v.owned t n at in
        (
          e,
          find-remove_ne k n tq.queue (λ r.
                let twice : some e ≡ some e' =
                  sym found ∙ ap (λ j. find_node j tq.queue) r ∙ found' in
                let one : e ≡ e' = cc in
                ne q (sym own' ∙ ap (λ (d : Entry). d.timer) (sym one) ∙ own))
              ∙ found,
          own,
        )
  ]
    where
      ne : (t == s) ≡ false → t ≢ s
      ne q r = ground arith

  Linked-without : (e : Entry) → Linked tq e × Other n e → Linked (without tq n t) e
  Linked-without e h =
      update_ne tq.position t e.timer none (λ s.
        let twice : some e.node ≡ some n = sym h.0 ∙ ap tq.position (sym s) ∙ at in
        let one : e.node ≡ n = cc in h.1 one)
      ∙ h.0

  pub without-IsValid : IsValid (without tq n t)
  without-IsValid = record {
    sorted = remove-IsSorted n tq.queue v.sorted;
    distinct = remove-Distinct n tq.queue v.distinct;
    old = All-remove (Old tq.next_node) n tq.queue v.old;
    linked =
        All-map (λ e. Linked tq e × Other n e) (Linked (without tq n t)) Linked-without
          (remove_node n tq.queue)
          (All-zip (Linked tq) (Other n) (remove_node n tq.queue)
            (All-remove (Linked tq) n tq.queue v.linked) (remove-Other n tq.queue v.distinct));
    owned = without-owned;
    armed = All-remove (Armed tq) n tq.queue v.armed;
  }

-- A timer that points nowhere has no entry.
pub unlinked :
    (tq : TimerQueue) (t : ℕ) → IsValid tq → tq.position t ≡ none → All (λ e. e.timer ≢ t) tq.queue
unlinked tq t v out =
    All-map (Linked tq) (λ e. e.timer ≢ t)
      (λ e l r. let both : none ≡ some e.node = sym out ∙ ap tq.position (sym r) ∙ l in cc) tq.queue
      v.linked

-- The callback of a timer may be set at any time.
pub set_cb-IsValid :
    (tq : TimerQueue) (t f : ℕ) → IsValid tq → IsValid (record tq { cb = update tq.cb t (some f) })
set_cb-IsValid tq t f v = record {
  sorted = v.sorted;
  distinct = v.distinct;
  old = v.old;
  linked = v.linked;
  owned = v.owned;
  armed =
      All-map (Armed tq) _
        (λ e a. elim (Bool-cases (t == e.timer)) [ inl q ↦ (f, rw q) | inr q ↦ (a.0, rw q a.1) ])
        tq.queue v.armed;
}

-- The callback of a timer that is not scheduled may be dropped.
pub drop_cb-IsValid :
    (tq : TimerQueue) (t : ℕ)
    → IsValid tq
    → tq.position t ≡ none
    → IsValid (record tq { cb = update tq.cb t none })
drop_cb-IsValid tq t v out = record {
  sorted = v.sorted;
  distinct = v.distinct;
  old = v.old;
  linked = v.linked;
  owned = v.owned;
  armed =
      All-map (λ e. Armed tq e × (e.timer ≢ t)) _
        (λ e h. (h.0.0, update_ne tq.cb t e.timer none (λ q. h.1 (sym q)) ∙ h.0.1)) tq.queue
        (All-zip (Armed tq) (λ e. e.timer ≢ t) tq.queue v.armed (unlinked tq t v out));
}

module _ (tq : TimerQueue) (t f : ℕ) (tte : ℤ) (v : IsValid tq) (out : tq.position t ≡ none)
    (arm : tq.cb t ≡ some f) where
  new_entry : Entry
  new_entry = record { tte = tte; timer = t; node = tq.next_node }

  insert-owned :
      (s k : ℕ)
      → (insert_timer tq t tte).position s ≡ some k
      → (e : Entry) × (find_node k (insert_timer tq t tte).queue ≡ some e) × (e.timer ≡ s)
  unfolding insert_timer new_entry
  insert-owned s k p =
      let others =
        All-map (Old tq.next_node) (Other tq.next_node) (λ e o. omega (arith, o)) tq.queue v.old in
      elim (Bool-cases (t == s)) [
        | inl q ↦
            let same : t ≡ s = ground arith in
            let found : some tq.next_node ≡ some k =
              sym (update_self tq.position t (some tq.next_node))
              ∙ ap (update tq.position t (some tq.next_node)) same
              ∙ p in
            let node : tq.next_node ≡ k = cc in
            (
              new_entry,
              ap (λ j. find_node j (insert_entry new_entry tq.queue)) (sym node)
                  ∙ find-insert_self new_entry tq.queue others,
              same,
            )
        | inr q ↦
            let (e, found, own) =
              v.owned s k
                (sym (update_ne tq.position t s (some tq.next_node) (λ r. ground arith)) ∙ p) in
            let known = All-find (Old tq.next_node) k tq.queue e v.old found in
            (e, find-insert_ne k new_entry tq.queue (λ r. omega (arith, known, r)) ∙ found, own)
      ]

  pub insert_timer-IsValid : IsValid (insert_timer tq t tte)
  unfolding insert_timer new_entry
  insert_timer-IsValid =
      let others =
        All-map (Old tq.next_node) (Other tq.next_node) (λ e o. omega (arith, o)) tq.queue v.old in
      record {
        sorted = insert-IsSorted new_entry tq.queue v.sorted;
        distinct = insert-Distinct new_entry tq.queue others v.distinct;
        old = All-insert (Old (suc tq.next_node)) new_entry tq.queue (omega arith) (
            All-map (Old tq.next_node) (Old (suc tq.next_node)) (λ e o. omega (arith, o)) tq.queue
              v.old);
        linked = All-insert _ new_entry tq.queue (update_self tq.position t (some tq.next_node)) (
            All-map (λ e. Linked tq e × (e.timer ≢ t)) _
              (λ e h. update_ne tq.position t e.timer (some tq.next_node) (λ q. h.1 (sym q)) ∙ h.0)
              tq.queue
              (All-zip (Linked tq) (λ e. e.timer ≢ t) tq.queue v.linked (unlinked tq t v out)));
        owned = insert-owned;
        armed = All-insert (Armed tq) new_entry tq.queue (f, arm) v.armed;
      }
