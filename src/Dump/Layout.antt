-- ===== src/Dump/Layout.antt =====
-- The indentation of a dump, told from the text that stands before a character.
use bb_eventloop.Common.{
  ℕ, suc, ◌+◌, ◌≡◌, refl, ap, ap₂, sym, ◌∙◌, inl, inr, List, [], ◌∷◌, ◌++◌, append_assoc,
  append-nil, Bool, false, ◌==◌, if◌then◌else◌, Bool-cases, arith,
}
use bb_eventloop.Common.Int.{ℤ, pos, ◌+ℤ◌, ◌-ℤ◌, pos_part}
use bb_eventloop.Dump.{Sink, start, open_brace, close_brace, newline, spaces, put, write}

abbrev pub count : ℕ → List ℕ → ℕ
count d [] = 0
count d (c ∷ cs) = if c == d then suc (count d cs) else count d cs

-- The braces that are open behind a text.
abbrev pub depth : List ℕ → ℤ
depth cs = pos (count open_brace cs) -ℤ pos (count close_brace cs)

-- Behind a text, a new line begins.
abbrev pub ends_line : List ℕ → Bool
ends_line [] = false
ends_line (c ∷ []) = c == newline
ends_line (c ∷ d ∷ cs) = ends_line (d ∷ cs)

count-append : (d : ℕ) (cs ds : List ℕ) → count d (cs ++ ds) ≡ count d cs + count d ds
count-append d [] ds = omega arith
count-append d (c ∷ cs) ds = ground (arith, count-append d cs ds)

depth_up : (cs : List ℕ) → depth (cs ++ open_brace ∷ []) ≡ depth cs +ℤ pos 1
unfolding ◌-ℤ◌ ◌+ℤ◌
depth_up cs = ground (
  arith,
  count-append open_brace cs (open_brace ∷ []),
  count-append close_brace cs (open_brace ∷ []),
)

depth_down : (cs : List ℕ) → depth (cs ++ close_brace ∷ []) ≡ depth cs -ℤ pos 1
unfolding ◌-ℤ◌
depth_down cs = ground (
  arith,
  count-append open_brace cs (close_brace ∷ []),
  count-append close_brace cs (close_brace ∷ []),
)

depth_same :
    (cs : List ℕ) (c : ℕ)
    → (c == open_brace) ≡ false
    → (c == close_brace) ≡ false
    → depth (cs ++ c ∷ []) ≡ depth cs
depth_same cs c o d =
    ap₂ (λ a b. pos a -ℤ pos b) (ground (arith, count-append open_brace cs (c ∷ [])))
      (ground (arith, count-append close_brace cs (c ∷ [])))

ends_line-append : (cs : List ℕ) (c : ℕ) → ends_line (cs ++ c ∷ []) ≡ (c == newline)
ends_line-append [] c = refl
ends_line-append (d ∷ []) c = refl
ends_line-append (d ∷ e ∷ cs) c = ends_line-append (e ∷ cs) c

-- What stands between a text and the character behind it: at the beginning of a line four spaces for
-- every brace that is open, where a closing brace counts itself, and nothing in an empty line.
abbrev pub indentation : List ℕ → ℕ → List ℕ
indentation before c =
    if c == newline
    then []
    else if ends_line before
    then spaces (pos_part (if c == close_brace then depth (before ++ c ∷ []) else depth before))
    else []

-- A text, laid out behind another one.
abbrev pub layout : List ℕ → List ℕ → List ℕ
layout before [] = []
layout before (c ∷ cs) = (indentation before c ++ c ∷ []) ++ layout (before ++ c ∷ []) cs

abbrev pub sink_behind : List ℕ → Sink
sink_behind cs = record { level = depth cs; indent_next = ends_line cs }

put_lem :
    (cs : List ℕ) (c : ℕ)
    → put (sink_behind cs) c ≡ (sink_behind (cs ++ c ∷ []), indentation cs c ++ c ∷ [])
unfolding put
put_lem cs c =
    let ends = ends_line-append cs c in
    elim (Bool-cases (c == open_brace)) [
      | inl k ↦
          let same : c ≡ open_brace = ground arith in
          let up : depth (cs ++ c ∷ []) ≡ depth cs +ℤ pos 1 = rw same (depth_up cs) in
          let no_close : (c == close_brace) ≡ false = ground arith in
          let no_line : (c == newline) ≡ false = ground arith in
          rw (k, no_close, no_line, up, ends, no_line)
      | inr k ↦ elim (Bool-cases (c == close_brace)) [
        | inl d ↦
            let same : c ≡ close_brace = ground arith in
            let down : depth (cs ++ c ∷ []) ≡ depth cs -ℤ pos 1 = rw same (depth_down cs) in
            let no_line : (c == newline) ≡ false = ground arith in
            rw (k, d, no_line, down, ends, no_line)
        | inr d ↦
            let flat = depth_same cs c k d in
            elim (Bool-cases (c == newline)) [
              | inl l ↦ rw (k, d, l, flat, ends, l)
              | inr l ↦ rw (k, d, l, flat, ends, l)
            ]
      ]
    ]

write-sink_behind :
    (before cs : List ℕ)
    → write (sink_behind before) cs ≡ (sink_behind (before ++ cs), layout before cs)
unfolding write
write-sink_behind before [] = ap (λ l. (sink_behind l, [])) (sym (append-nil before))
write-sink_behind before (c ∷ cs) =
    let p = put_lem before c in
    let ih = write-sink_behind (before ++ c ∷ []) cs in rw (p, ih, append_assoc before (c ∷ []) cs)

write-start : (before : List ℕ) → (write start before).0 ≡ sink_behind before
unfolding ◌-ℤ◌
write-start before = ap (λ (p : Sink × List ℕ). p.0) (write-sink_behind [] before)

-- A dump may be written in pieces: behind any text `before` that was written to a new sink, a text `cs`
-- is laid out by what stands before each of its characters, and by nothing else. Every line that
-- is not empty begins with four spaces for each brace that is open there, where a closing brace at
-- the beginning of a line is no longer counted. The level is then the number of open braces.
pub write_lem :
    (before cs : List ℕ)
    → ((write (write start before).0 cs).1 ≡ layout before cs)
      × ((write (write start before).0 cs).0.level ≡ depth (before ++ cs))
write_lem before cs =
    let at = ap (λ s. write s cs) (write-start before) ∙ write-sink_behind before cs in
    (ap (λ (p : Sink × List ℕ). p.1) at, ap (λ (p : Sink × List ℕ). p.0.level) at)
