-- ===== src/Callees/Defs.antt =====
-- The classes Callee and WeakCallback. A callee is a number, and so is a Life, the object that the callees
-- share that were copied from one another. A weak pointer has expired when no callee shares its Life.
use bb_eventloop.Common.{
  ℕ, suc, Option, none, some, List, [], ◌∷◌, Bool, false, ◌||◌, not, ◌==◌, if◌then◌else◌, Outcome,
  returns, undefined, ◌>>=◌,
}

pub record Callee : Type 0 where
  pub object : ℕ
  pub life : ℕ

-- The callees that exist, and the Life that the next constructor makes.
pub record Heap : Type 0 where
  pub callees : List Callee
  pub next_life : ℕ

pub record WeakCallback : Type 0 where
  pub weak_life : ℕ
  pub callback : ℕ

abbrev pub find : ℕ → List Callee → Option ℕ
find o [] = none
find o (c ∷ cs) = if c.object == o then some c.life else find o cs

abbrev pub shares : ℕ → List Callee → Bool
shares l [] = false
shares l (c ∷ cs) = c.life == l || shares l cs

abbrev pub remove : ℕ → List Callee → List Callee
remove o [] = []
remove o (c ∷ cs) = if c.object == o then cs else c ∷ remove o cs

unfoldable pub construct : ℕ → Heap → Heap
construct o h = record {
  callees = record { object = o; life = h.next_life } ∷ h.callees;
  next_life = suc h.next_life;
}

abbrev pub with_life : Option ℕ → (ℕ → Heap) → Outcome Heap
with_life none f = undefined
with_life (some l) f = returns (f l)

-- The copy constructor, which is the default one
unfoldable pub copy : ℕ → ℕ → Heap → Outcome Heap
copy o from h =
    with_life (find from h.callees)
      (λ l. record h { callees = record { object = o; life = l } ∷ h.callees })

unfoldable pub destroy : ℕ → Heap → Outcome Heap
destroy o h = with_life (find o h.callees) (λ l. record h { callees = remove o h.callees })

-- The constructor of a WeakCallback for a callee
unfoldable pub weak_callback : ℕ → ℕ → Heap → Option WeakCallback
weak_callback o cb h = elim (find o h.callees) [
  | none ↦ none
  | some l ↦ some (record { weak_life = l; callback = cb })
]

unfoldable pub expired : ℕ → Heap → Bool
expired l h = not (shares l h.callees)

-- WeakCallback::execute: what is called
unfoldable pub execute : WeakCallback → Heap → Option ℕ
execute w h = if not (expired w.weak_life h) then some w.callback else none

pub data Op : Type 0 where
  constructs : ℕ → Op
  destroys : ℕ → Op

unfoldable pub apply : Op → Heap → Outcome Heap
apply (constructs o) h = returns (construct o h)
apply (destroys o) h = destroy o h

unfoldable pub run : List Op → Heap → Outcome Heap
run [] h = returns h
run (o ∷ os) h = apply o h >>= run os
