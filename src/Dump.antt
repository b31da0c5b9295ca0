-- ===== src/Dump.antt =====
-- src/lib/DumpFormatter.cpp, the stream sink that indents the dumps. A character is its code, and the
-- text that goes to the target is a list of them.
pub mod Layout
use bb_eventloop.Common.{
  ℕ, zero, suc, ◌*◌, List, [], ◌∷◌, ◌++◌, Bool, true, false, ◌==◌, if◌then◌else◌,
}
use bb_eventloop.Common.Int.{ℤ, pos, ◌+ℤ◌, ◌-ℤ◌, pos_part}

pub record Sink : Type 0 where
  pub level : ℤ
  pub indent_next : Bool

abbrev pub start : Sink
start = record { level = pos 0; indent_next = false }

abbrev pub open_brace : ℕ
open_brace = 123

abbrev pub close_brace : ℕ
close_brace = 125

abbrev pub newline : ℕ
newline = 10

-- The loop of indentIfNeeded, four spaces a time; it does nothing below level one.
abbrev pub spaces : ℕ → List ℕ
spaces zero = []
spaces (suc n) = 32 ∷ 32 ∷ 32 ∷ 32 ∷ spaces n

-- indentIfNeeded: what it puts.
abbrev pub indent_if_needed : Sink → List ℕ
indent_if_needed s = if s.indent_next then spaces (pos_part s.level) else []

-- One turn of the loop of write.
unfoldable pub put : Sink → ℕ → Sink × List ℕ
put s c =
    if c == open_brace
    then (record { level = s.level +ℤ pos 1; indent_next = false }, indent_if_needed s ++ c ∷ [])
    else if c == close_brace
    then (
      record { level = s.level -ℤ pos 1; indent_next = false },
      indent_if_needed (record s { level = s.level -ℤ pos 1 }) ++ c ∷ [],
    )
    else if c == newline
    then (record s { indent_next = true }, c ∷ [])
    else (record s { indent_next = false }, indent_if_needed s ++ c ∷ [])

unfoldable pub write : Sink → List ℕ → Sink × List ℕ
write s [] = (s, [])
write s (c ∷ cs) = let rest = write (put s c).0 cs in (rest.0, (put s c).1 ++ rest.1)
