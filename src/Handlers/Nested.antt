-- ===== src/Handlers/Nested.antt =====
-- What enable and disable do to the handlers, once and nested.
use bb_eventloop.Common.{ℕ, zero, suc, ◌≡◌, refl, none, some, returns, undefined}
use bb_eventloop.Common.Int.{pos, ◌+ℤ◌, ◌-ℤ◌}
use bb_eventloop.Handlers.Terminate.{own, other, null, Hooks, enable, disable, call_handler}

-- The handlers of a program that did not enable the library's.
abbrev pub plain : ℕ → ℕ → Hooks
plain n m = record {
  unexpected = other n;
  terminate = other m;
  original_unexpected = null;
  original_terminate = null;
  reference_count = pos 0;
}

once : (n m : ℕ) → disable (enable (plain n m)) ≡ plain n m
unfolding enable disable ◌+ℤ◌ ◌-ℤ◌
once n m = refl

calls_original :
    (n m fuel : ℕ)
    → call_handler (suc (suc fuel)) (enable (plain n m)).original_terminate own ≡ some (returns m)
unfolding enable call_handler
calls_original n m fuel = refl

calls_itself : (fuel : ℕ) → call_handler fuel own own ≡ none
unfolding call_handler
calls_itself zero = refl
calls_itself (suc fuel) = calls_itself fuel

-- A program that enables the handlers once gets its own ones called, and has them back after disable. A program
-- that enables them twice does neither: the library's handler calls itself without an end, and after both
-- calls of disable it is still set, with no handler to call.
pub enable_nested :
    (n m fuel : ℕ)
    → (disable (enable (plain n m)) ≡ plain n m)
      × (call_handler
            (suc (suc fuel))
            (enable (plain n m)).original_terminate
            (enable (plain n m)).terminate
          ≡ some (returns m))
      × (call_handler fuel
            (enable (enable (plain n m))).original_terminate
            (enable (enable (plain n m))).terminate
          ≡ none)
      × (disable (disable (enable (enable (plain n m))))
          ≡ record (plain n m) { unexpected = own; terminate = own })
      × (call_handler (suc (suc fuel)) null own ≡ some undefined)
unfolding enable disable call_handler ◌+ℤ◌ ◌-ℤ◌
enable_nested n m fuel = (once n m, refl, calls_itself fuel, refl, refl)
