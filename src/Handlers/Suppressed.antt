-- ===== src/Handlers/Suppressed.antt =====
-- No SIGPIPE while a SigPipeSuppressor lives, and the thread is as before at its end.
use bb_eventloop.Common.{◌≡◌, refl, ◌∙◌, inl, inr, true, false, Bool-cases}
use bb_eventloop.Handlers.Pipe.{Thread, suppress, take_pending, restore}

-- What a thread does that may cause SIGPIPE, such as a write: where the signal is blocked it stays so and none is
-- delivered, and one that is pending stays pending.
pub record IsWrite {K : Type 0} (thread : Thread K) (write : K → K) : Type 0 where
  pub keeps : (k : K) → thread.blocked (write k) ≡ thread.blocked k
  pub delivers_none :
      (k : K) → thread.blocked k ≡ true → thread.delivered (write k) ≡ thread.delivered k
  pub stays : (k : K) → thread.pending k ≡ true → thread.pending (write k) ≡ true

module _ {K : Type 0} (thread : Thread K) where
  abbrev pub IsUnchanged : K → K → Type 0
  IsUnchanged k k' =
      (thread.delivered k' ≡ thread.delivered k)
      × (thread.blocked k' ≡ thread.blocked k)
      × (thread.pending k' ≡ thread.pending k)

  take_pending_lem :
      (k : K)
      → thread.blocked k ≡ true
      → (thread.delivered (take_pending thread k) ≡ thread.delivered k)
        × (thread.blocked (take_pending thread k) ≡ true)
        × (thread.pending (take_pending thread k) ≡ false)
  take_pending_lem k b = elim (Bool-cases (thread.pending k)) [
    | inl p ↦ (
      rw p (thread.timed_wait-delivered k b),
      rw p (thread.timed_wait-blocked k ∙ b),
      rw p (thread.timed_wait-pending k b),
    )
    | inr p ↦ (rw p refl, rw p b, rw p p)
  ]

  -- A write between the constructor and the destructor, in a thread where SIGPIPE is blocked if it is pending:
  -- no SIGPIPE is delivered, the signal is blocked afterwards if and only if it was before, and it is
  -- pending if and only if it was before.
  pub suppress_lem :
      (write : K → K) (k : K)
      → IsWrite thread write
      → (thread.pending k ≡ true → thread.blocked k ≡ true)
      → IsUnchanged k (restore thread (suppress thread k).1 (write (suppress thread k).0))
  unfolding suppress restore
  suppress_lem write k w consistent = elim (Bool-cases (thread.pending k)) [
    | inl p ↦ rw p (w.delivers_none k (consistent p), w.keeps k, w.stays k p)
    | inr p ↦
        let on = thread.block-blocked k in
        let written = write (thread.block k) in
        let still = w.keeps (thread.block k) ∙ on in
        let (none_more, off, taken) = take_pending_lem written still in
        let none_yet = w.delivers_none (thread.block k) on ∙ thread.block-delivered k in
        elim (Bool-cases (thread.blocked k)) [
          | inl b ↦ rw (p, b) (none_more ∙ none_yet, off, taken)
          | inr b ↦
              rw (p, b)
                (
                  thread.unblock-delivered (take_pending thread written) taken
                      ∙ none_more
                      ∙ none_yet,
                  thread.unblock-blocked (take_pending thread written),
                  thread.unblock-pending (take_pending thread written) taken,
                )
        ]
  ]
