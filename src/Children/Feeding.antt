-- ===== src/Children/Feeding.antt =====
-- The input of a child process.
use bb_eventloop.Common.{
  ℕ, zero, suc, ◌-◌, ◌*◌, ◌<◌, ◌≤◌, ◌≡◌, refl, ap, ◌∙◌, none, some, [], ◌++◌, append_assoc,
  take-append-drop, take-all, drop-all, true, false, leb, length, length-drop, take, drop, arith,
  Bool-cases, inl, inr,
}
use bb_eventloop.Children.Defs.{ChildProcess, handle_event_out}

-- EVENT_OUT where the pipe takes the bytes, while it is open, once and for a number of times.
abbrev feed_once : ChildProcess → ChildProcess
feed_once p = elim p.in_fd [ none ↦ p | some fd ↦ handle_event_out true p ]

abbrev pub feed : ℕ → ChildProcess → ChildProcess
feed zero p = p
feed (suc n) p = feed n (feed_once p)

feed-closed : (n : ℕ) (p : ChildProcess) → p.in_fd ≡ none → feed n p ≡ p
feed-closed zero p h = refl
feed-closed (suc n) p h =
    let closed : feed_once p ≡ p =
      ap (λ o. elim o [ none ↦ p | some fd ↦ handle_event_out true p ]) h in
    ap (feed n) closed ∙ feed-closed n p h

feed_once-good :
    (fd : ℕ) (p : ChildProcess)
    → p.in_fd ≡ some fd
    → p.good ≡ true
    → feed_once p ≡ record p {
      source = drop 4096 p.source;
      good = leb 4096 (length p.source);
      fed = p.fed ++ take 4096 p.source;
    }
unfolding handle_event_out
feed_once-good fd p h g = ground (arith, h, g)

feed_last :
    (n fd : ℕ) (p : ChildProcess)
    → p.in_fd ≡ some fd
    → p.good ≡ false
    → feed (suc n) p ≡ record p { in_fd = none }
unfolding handle_event_out
feed_last n fd p h g =
    let closed : feed_once p ≡ record p { in_fd = none } = ground (arith, h, g) in
    ap (feed n) closed ∙ feed-closed n (record p { in_fd = none }) refl

le_of_leb : (m n : ℕ) → leb m n ≡ true → m ≤ n
le_of_leb m n h = ground arith

rest_bound : (n l d : ℕ) → d ≡ l - 4096 → leb 4096 l ≡ true → l < suc n * 4096 → d < n * 4096
rest_bound n l d e h k = let le = le_of_leb 4096 l h in omega arith

-- An input that is not at its end, and EVENT_OUT more often than it has full blocks of PIPE_BUF bytes, by
-- two, while the pipe takes the bytes: all of it was written, in order and behind what was written before,
-- and the pipe is closed.
pub feed_lem :
    (n fd : ℕ) (p : ChildProcess)
    → p.in_fd ≡ some fd
    → p.good ≡ true
    → length p.source < n * 4096
    → feed (suc n) p ≡ record p { in_fd = none; source = []; good = false; fed = p.fed ++ p.source }
feed_lem zero fd p h g k = absurd (omega arith)
feed_lem (suc n) fd p h g k =
    ap (feed (suc n)) (feed_once-good fd p h g) ∙ elim (Bool-cases (leb 4096 (length p.source))) [
      | inl b ↦
          let rest = length-drop 4096 p.source in
          feed_lem n fd
            (record p {
              source = drop 4096 p.source;
              good = leb 4096 (length p.source);
              fed = p.fed ++ take 4096 p.source;
            })
            h b (rest_bound n (length p.source) (length (drop 4096 p.source)) rest b k)
          ∙ ap (λ l. record p { in_fd = none; source = []; good = false; fed = l })
              (append_assoc p.fed (take 4096 p.source) (drop 4096 p.source)
                ∙ ap (◌++◌ p.fed) (take-append-drop 4096 p.source))
      | inr b ↦
          feed_last n fd
            (record p {
              source = drop 4096 p.source;
              good = leb 4096 (length p.source);
              fed = p.fed ++ take 4096 p.source;
            })
            h b
          ∙ (λ i. record p {
            in_fd = none;
            source = drop-all 4096 p.source (ground (arith, b)) i;
            good = b i;
            fed = p.fed ++ take-all 4096 p.source (ground (arith, b)) i;
          })
    ]
