-- ===== src/Callees/Copied.antt =====
-- A copy of a callee keeps the callbacks of the one that it was copied from.
use bb_eventloop.Common.{ℕ, ◌≡◌, refl, some, ◌∷◌, false, ◌==◌, returns, ◌>>=◌, arith}
use bb_eventloop.Callees.Defs.{
  Heap, WeakCallback, find, remove, copy, destroy, weak_callback, expired, execute,
}

-- A callee is copied to another object and destroyed, and then a callback of the callee is executed, in any heap:
-- its function is called, though the callee is gone.
pub copied_lem :
    (o other cb l : ℕ) (h : Heap)
    → find o h.callees ≡ some l
    → (other == o) ≡ false
    → (w : WeakCallback) × (h' : Heap) × (weak_callback o cb h ≡ some w)
      × ((copy other o h >>= destroy o) ≡ returns h')
      × (h'.callees ≡ record { object = other; life = l } ∷ remove o h.callees)
      × (execute w h' ≡ some cb)
unfolding weak_callback copy destroy execute expired
copied_lem o other cb l h at apart = (
  record { weak_life = l; callback = cb },
  record h { callees = record { object = other; life = l } ∷ remove o h.callees },
  rw (at, weak_callback) refl,
  ground (arith, at, apart),
  refl,
  ground arith,
)
