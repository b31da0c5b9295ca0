-- ===== src/Streams/Writing.antt =====
-- Writing to the output of a StreamSocket, and starting to send it.
use bb_eventloop.Common.{
  ℕ, ◌≡◌, refl, sym, ap, ◌∙◌, some, List, [], ◌∷◌, ◌++◌, append_assoc, Bool, true, false, not, ◌&&◌,
  ◌⊎◌, inl, inr, arith, Bool-cases,
}
use bb_eventloop.Common.Attempts.{Attempt, returns}
use bb_eventloop.Streams.Defs.{StreamSocket, Callbacks, is_empty, start_sending, write}
use bb_eventloop.Streams.Sending.{Status, is_open, is_closed, Waits, try_send-open, try_send-closed}

-- Writing adds the bytes behind the others; a socket that is closed by it, or before, still has output, or
-- is not sending.
abbrev pub WriteResult : List ℕ → StreamSocket → Attempt StreamSocket → Type 0
WriteResult all s o =
    (t : StreamSocket) × (o ≡ returns t)
    × Status t
    × Waits t
    × (t.sent ++ t.output ≡ all)
    × (t.connecting ≡ s.connecting)
    × (t.incoming ≡ s.incoming)
    × ((t.fd ≡ true) ⊎ ((s.fd ≡ false) ⊎ (is_empty t.output ≡ false)))

abbrev is_starting : StreamSocket → Bool
is_starting s = not s.sending && (not s.connecting && not (is_empty s.output))

is_empty-append : (xs ys : List ℕ) → is_empty xs ≡ false → is_empty (xs ++ ys) ≡ false
is_empty-append [] ys h = cc
is_empty-append (x ∷ xs) ys h = refl

armed_lem :
    (s : StreamSocket) (bytes : List ℕ)
    → (is_starting (record s { output = s.output ++ bytes })) ≡ false
    → s.fd ≡ true
    → (is_empty s.output ≡ false → s.events ≡ some 5)
    → (s.sending ≡ true → is_empty s.output ≡ false)
    → Waits s
    → is_empty (s.output ++ bytes) ≡ false
    → s.events ≡ some 5
armed_lem s bytes k v a b w h = elim (Bool-cases s.sending) [
  | inl x ↦ a (b x)
  | inr x ↦ elim (Bool-cases s.connecting) [
    | inl y ↦ w y v
    | inr y ↦ absurd (ground (arith, x, y, k, h))
  ]
]

module _ (c : Callbacks) where
  pub write_lem :
      (bytes all : List ℕ) (s : StreamSocket)
      → Status s
      → Waits s
      → s.sent ++ s.output ≡ all
      → WriteResult (all ++ bytes) s (write c bytes s)
  unfolding write start_sending
  write_lem bytes all s (is_closed d) w h =
      let s' = record s { output = s.output ++ bytes } in
      (
        s',
        ground (arith, try_send-closed c s' d.closed_fd),
        is_closed
            (record { closed_fd = d.closed_fd; unheard = d.unheard; one_closing = d.one_closing }),
        w,
        sym (append_assoc s.sent s.output bytes) ∙ ap (λ l. l ++ bytes) h,
        refl,
        refl,
        inr (inl d.closed_fd),
      )
  write_lem bytes all s (is_open d) w h =
      let s' = record s { output = s.output ++ bytes } in
      let h' : s'.sent ++ s'.output ≡ all ++ bytes =
        sym (append_assoc s.sent s.output bytes) ∙ ap (λ l. l ++ bytes) h in
      elim (Bool-cases (is_starting s')) [
        | inl k ↦
            let (t, e, v, p, q, r, i) =
              try_send-open c s' s'.replies refl d.open_fd d.accepting d.listened d.no_closing in
            (
              t,
              rw k e,
              v,
              (λ y z. absurd (ground (arith, k, q, y))),
              p ∙ h',
              q,
              i,
              elim r [ inl x ↦ inl x | inr x ↦ inr (inr (ap is_empty x ∙ ground (arith, k))) ],
            )
        | inr k ↦ (
          s',
          rw k refl,
          is_open (record {
            open_fd = d.open_fd;
            accepting = d.accepting;
            listened = d.listened;
            armed = armed_lem s bytes k d.open_fd d.armed d.busy w;
            busy = λ x. is_empty-append s.output bytes (d.busy x);
            no_closing = d.no_closing;
          }),
          w,
          h',
          refl,
          refl,
          inl d.open_fd,
        )
      ]
