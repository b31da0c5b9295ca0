-- ===== src/Handlers/Pipe.antt =====
-- The class SigPipeSuppressor, for the signals of one thread. What the kernel does is the record `Thread`.
use bb_eventloop.Common.{ℕ, ◌≡◌, Bool, true, false, not, if◌then◌else◌}

-- The state of a thread: whether SIGPIPE is blocked, whether it is pending, and how often it was delivered; with
-- sigMask for SIGPIPE alone and sigTimedWait without a time, and what is documented of them.
pub record Thread (K : Type 0) : Type 0 where
  pub blocked : K → Bool
  pub pending : K → Bool
  pub delivered : K → ℕ
  pub block : K → K
  pub unblock : K → K
  pub timed_wait : K → K
  pub block-blocked : (k : K) → blocked (block k) ≡ true
  pub block-pending : (k : K) → pending (block k) ≡ pending k
  pub block-delivered : (k : K) → delivered (block k) ≡ delivered k
  pub unblock-blocked : (k : K) → blocked (unblock k) ≡ false
  pub unblock-pending : (k : K) → pending k ≡ false → pending (unblock k) ≡ false
  pub unblock-delivered : (k : K) → pending k ≡ false → delivered (unblock k) ≡ delivered k
  pub timed_wait-blocked : (k : K) → blocked (timed_wait k) ≡ blocked k
  pub timed_wait-pending : (k : K) → blocked k ≡ true → pending (timed_wait k) ≡ false
  pub timed_wait-delivered : (k : K) → blocked k ≡ true → delivered (timed_wait k) ≡ delivered k

pub record SigPipeSuppressor : Type 0 where
  pub was_pending : Bool
  pub do_unblock : Bool

module _ {K : Type 0} (thread : Thread K) where
  -- The constructor
  unfoldable pub suppress : K → K × SigPipeSuppressor
  suppress k =
      if thread.pending k
      then (k, record { was_pending = true; do_unblock = false })
      else (thread.block k, record { was_pending = false; do_unblock = not (thread.blocked k) })

  abbrev pub take_pending : K → K
  take_pending k = if thread.pending k then thread.timed_wait k else k

  -- The destructor
  unfoldable pub restore : SigPipeSuppressor → K → K
  restore s k =
      if s.was_pending
      then k
      else (let taken = take_pending k in if s.do_unblock then thread.unblock taken else taken)
