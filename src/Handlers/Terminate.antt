-- ===== src/Handlers/Terminate.antt =====
-- The functions of UncaughtExceptionHandler. The runtime keeps one handler for unexpected and one for terminate;
-- std::set_unexpected and std::set_terminate give the one that was set before.
use bb_eventloop.Common.{
  ℕ, zero, suc, Option, none, some, if◌then◌else◌, Outcome, returns, undefined,
}
use bb_eventloop.Common.Int.{ℤ, pos, ◌+ℤ◌, ◌-ℤ◌}
use bb_eventloop.Runners.{eqb_ℤ}

-- The library's handler, one of the program, or the null pointer.
pub data Handler : Type 0 where
  own : Handler
  other : ℕ → Handler
  null : Handler

pub record Hooks : Type 0 where
  pub unexpected : Handler
  pub terminate : Handler
  pub original_unexpected : Handler
  pub original_terminate : Handler
  pub reference_count : ℤ

unfoldable pub enable : Hooks → Hooks
enable h = record {
  unexpected = own;
  terminate = own;
  original_unexpected = h.unexpected;
  original_terminate = h.terminate;
  reference_count = h.reference_count +ℤ pos 1;
}

unfoldable pub disable : Hooks → Hooks
disable h =
    let count = h.reference_count -ℤ pos 1 in
    if eqb_ℤ count (pos 0)
    then record {
      unexpected = h.original_unexpected;
      terminate = h.original_terminate;
      original_unexpected = null;
      original_terminate = null;
      reference_count = count;
    }
    else record h { reference_count = count }

-- The handler of the program that is called in the end, where handleTerminate and handleUnexpected call the
-- original one: `none` when the fuel runs out.
unfoldable pub call_handler : ℕ → Handler → Handler → Option (Outcome ℕ)
call_handler zero original h = none
call_handler (suc fuel) original own = call_handler fuel original original
call_handler (suc fuel) original (other n) = some (returns n)
call_handler (suc fuel) original null = some undefined
