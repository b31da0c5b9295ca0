-- ===== src/MainLoop/Waits.antt =====
-- What epoll_wait is told for the first timer.
use bb_eventloop.Common.{
  ℕ, suc, ◌+◌, ◌-◌, ◌*◌, ◌/◌, ◌<◌, ◌≤◌, ◌≡◌, refl, sym, ap, subst, ◌∙◌, ◌⊎◌, inl, inr, List, [],
  ◌∷◌, Bool, true, false, Bool-cases, if◌then◌else◌, arith,
}
use bb_eventloop.Common.Int.{ℤ, pos, negsuc, ◌-ℤ◌, ◌≤ℤ◌, ltb_ℤ, -ℤ_parts}
use bb_eventloop.Timers.Defs.{Entry, TimerQueue, no_timeout, get_timeout}
use bb_eventloop.Timers.Invariant.{IsValid}
use bb_eventloop.Timers.Contract.{get_timeout_lem, get_timeout-eq-no_timeout}
use bb_eventloop.Runners.{min_timeout}
use bb_eventloop.MainLoop.Defs.{total_milliseconds, signed, to_int, is_timeout, wait_argument}

-- Less than 2 ^ 31 milliseconds, so that the milliseconds fit an int.
abbrev pub near : ℕ
near = 2147483648000

pub is_timeout_lem : (n : ℕ) → is_timeout (pos n) ≡ ltb_ℤ (pos n) min_timeout
unfolding is_timeout
is_timeout_lem n = refl

pub wait_argument-pos : (n : ℕ) → n < near → wait_argument (pos n) ≡ pos (n / 1000)
unfolding wait_argument total_milliseconds to_int signed
wait_argument-pos n h = ground arith

-- A timeout of 2 ^ 32 milliseconds and less than one more.
pub wait_argument-wraps :
    (n d : ℕ) → d < 1000 → n ≡ 4294967296000 + d → wait_argument (pos n) ≡ pos 0
unfolding wait_argument total_milliseconds to_int signed
wait_argument-wraps n d h e = ground arith

pub wait_argument-negative :
    (n : ℕ) → near ≤ n → n < 4294967296000 → (k : ℕ) × (wait_argument (pos n) ≡ negsuc k)
unfolding wait_argument total_milliseconds to_int signed
wait_argument-negative n h k = (4294967296 - n / 1000 - 1, ground arith)

-- The wait for the entries of the queue: none at all where the first is due in less than a
-- millisecond, and otherwise one of the milliseconds that are left to it, without the fraction.
abbrev pub WaitsFor : List Entry → ℤ → ℤ → Type 0
WaitsFor [] now timeout = (is_timeout timeout ≡ false) × (wait_argument timeout ≡ negsuc 0)
WaitsFor (e ∷ es) now timeout =
    ((is_timeout timeout ≡ true) × (e.tte -ℤ now ≤ℤ pos 999))
    ⊎ ((is_timeout timeout ≡ false)
        × ((m : ℕ) × (wait_argument timeout ≡ pos (suc m))
            × (pos (suc m * 1000) ≤ℤ e.tte -ℤ now)
            × (e.tte -ℤ now ≤ℤ pos (suc m * 1000 + 999))))

-- The first entry is due in less than 2 ^ 31 milliseconds.
abbrev pub IsNear : List Entry → ℤ → Type 0
IsNear [] now = Unit {0}
IsNear (e ∷ es) now = e.tte -ℤ now ≤ℤ pos 2147483647999

-- The timeout, a number of microseconds, and what is left to the first entry.
abbrev IsLeft : ℤ → ℤ → Type 0
IsLeft t left = (n : ℕ) × (t ≡ pos n) × (left ≤ℤ pos n) × ((n ≡ 0) ⊎ (left ≡ pos n))

timeout-IsLeft :
    (t left : ℤ) (late : Bool)
    → t ≡ (if late then pos 0 else left)
    → (late ≡ true → left ≤ℤ pos 0)
    → (late ≡ false → pos 0 ≤ℤ left)
    → IsLeft t left
timeout-IsLeft t left true e f g = (0, e, f refl, inl refl)
timeout-IsLeft t (pos n) false e f g = (n, e, omega arith, inr refl)
timeout-IsLeft t (negsuc n) false e f g = absurd (omega (arith, g refl))

short : (n : ℕ) → ltb_ℤ (pos n) min_timeout ≡ true → n < 1000
short n h = ground arith

long : (n : ℕ) → ltb_ℤ (pos n) min_timeout ≡ false → 1000 ≤ n
long n h = ground arith

quotient : (n : ℕ) → 1000 ≤ n → n / 1000 ≡ suc (n / 1000 - 1)
quotient n h = omega arith

waits :
    (t : ℤ) (e : Entry) (es : List Entry) (now : ℤ)
    → IsLeft t (e.tte -ℤ now)
    → IsNear (e ∷ es) now
    → WaitsFor (e ∷ es) now t
waits t e es now (n, same, le, from) h = elim (Bool-cases (ltb_ℤ (pos n) min_timeout)) [
  | inl q ↦
      let less = short n q in
      inl (ap is_timeout same ∙ is_timeout_lem n ∙ q, omega (arith, le, less))
  | inr q ↦
      let more = long n q in
      elim from [
        | inl z ↦ absurd (omega (arith, z, more))
        | inr z ↦
            let near_left : pos n ≤ℤ pos 2147483647999 = subst (λ l. l ≤ℤ pos 2147483647999) z h in
            let below : n < near = omega (arith, near_left) in
            inr (
              ap is_timeout same ∙ is_timeout_lem n ∙ q,
              (
                n / 1000 - 1,
                ap wait_argument same ∙ wait_argument-pos n below ∙ ap pos (quotient n more),
                subst (λ l. pos (suc (n / 1000 - 1) * 1000) ≤ℤ l) (sym z)
                    (omega (arith, quotient n more)),
                subst (λ l. l ≤ℤ pos (suc (n / 1000 - 1) * 1000 + 999)) (sym z)
                    (omega (arith, quotient n more)),
              ),
            )
      ]
]

late_left : (a b : ℤ) → ltb_ℤ a b ≡ true → a -ℤ b ≤ℤ pos 0
late_left a b h = ground (arith, -ℤ_parts a b)

early_left : (a b : ℤ) → ltb_ℤ a b ≡ false → pos 0 ≤ℤ a -ℤ b
early_left a b h = ground (arith, -ℤ_parts a b)

no_timers : (now : ℤ) → WaitsFor [] now no_timeout
unfolding is_timeout wait_argument total_milliseconds to_int signed
no_timers now = (refl, refl)

-- The wait of a turn, with valid timers of which the first is due in less than 2 ^ 31 milliseconds.
-- Where no timer is scheduled, epoll_wait is told to wait without a limit. Where the first one is due in less
-- than a millisecond, there is no wait. Otherwise the wait is a positive number of milliseconds,
-- not more than what is left to the first timer, and less than a millisecond short of it.
pub wait_lem :
    (tq : TimerQueue) (now : ℤ)
    → IsValid tq
    → IsNear tq.queue now
    → WaitsFor tq.queue now (get_timeout tq now)
wait_lem tq now v h = go tq.queue refl
  where
    go : (es : List Entry) → tq.queue ≡ es → WaitsFor tq.queue now (get_timeout tq now)
    go [] at =
        subst (λ es. WaitsFor es now (get_timeout tq now)) (sym at)
          (subst (WaitsFor [] now) (sym ((get_timeout-eq-no_timeout tq now).1 at)) (no_timers now))
    go (e ∷ es) at =
        let (left, nonneg, first) = get_timeout_lem tq now e es v at in
        subst (λ ds. WaitsFor ds now (get_timeout tq now)) (sym at)
          (waits (get_timeout tq now) e es now
            (timeout-IsLeft (get_timeout tq now) (e.tte -ℤ now) (ltb_ℤ e.tte now) left
              (late_left e.tte now) (early_left e.tte now))
            (subst (λ ds. IsNear ds now) at h))
