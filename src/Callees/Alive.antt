-- ===== src/Callees/Alive.antt =====
-- A weak callback is executed as long as its callee is not destroyed, where no callee is copied.
use bb_eventloop.Common.{
  ℕ, suc, ◌<◌, ◌≤◌, ◌≡◌, refl, sym, subst, ◌∙◌, inl, inr, Option, none, some, List, [], ◌∷◌, Bool,
  true, false, ◌||◌, not, ◌==◌, if◌then◌else◌, Bool-cases, returns, arith, >>=-eq-returns,
}
use bb_eventloop.Callees.Defs.{
  Callee, Heap, WeakCallback, find, shares, remove, construct, with_life, destroy, weak_callback,
  expired, execute, Op, constructs, destroys, apply, run,
}

abbrev IsOld : ℕ → List Callee → Type 0
IsOld n [] = Unit {0}
IsOld n (c ∷ cs) = (c.life < n) × IsOld n cs

abbrev IsDistinct : List Callee → Type 0
IsDistinct [] = Unit {0}
IsDistinct (c ∷ cs) = (shares c.life cs ≡ false) × IsDistinct cs

-- No two callees share a Life, and the next one is new.
pub record IsValid (h : Heap) : Type 0 where
  pub old : IsOld h.next_life h.callees
  pub distinct : IsDistinct h.callees

shares-IsOld : (n l : ℕ) (cs : List Callee) → IsOld n cs → n ≤ l → shares l cs ≡ false
shares-IsOld n l [] h k = refl
shares-IsOld n l (c ∷ cs) h k = let ih = shares-IsOld n l cs h.1 k in ground (arith, ih, h.0)

IsOld-suc : (n : ℕ) (cs : List Callee) → IsOld n cs → IsOld (suc n) cs
IsOld-suc n [] h = tt
IsOld-suc n (c ∷ cs) h = (omega (arith, h.0), IsOld-suc n cs h.1)

shares-remove : (l o : ℕ) (cs : List Callee) → shares l cs ≡ false → shares l (remove o cs) ≡ false
shares-remove l o [] h = refl
shares-remove l o (c ∷ cs) h = ground (arith, h, shares-remove l o cs)

remove-IsOld : (n o : ℕ) (cs : List Callee) → IsOld n cs → IsOld n (remove o cs)
remove-IsOld n o [] h = tt
remove-IsOld n o (c ∷ cs) h = elim (Bool-cases (c.object == o)) [
  | inl q ↦ rw q h.1
  | inr q ↦ rw q (h.0, remove-IsOld n o cs h.1)
]

remove-IsDistinct : (o : ℕ) (cs : List Callee) → IsDistinct cs → IsDistinct (remove o cs)
remove-IsDistinct o [] h = tt
remove-IsDistinct o (c ∷ cs) h = elim (Bool-cases (c.object == o)) [
  | inl q ↦ rw q h.1
  | inr q ↦ rw q (shares-remove c.life o cs h.0, remove-IsDistinct o cs h.1)
]

find-shares : (o l : ℕ) (cs : List Callee) → find o cs ≡ some l → shares l cs ≡ true
find-shares o l [] h = absurd cc
find-shares o l (c ∷ cs) h = ground (arith, h, find-shares o l cs)

remove-shares :
    (o l : ℕ) (cs : List Callee)
    → IsDistinct cs
    → find o cs ≡ some l
    → shares l (remove o cs) ≡ false
remove-shares o l [] d h = absurd cc
remove-shares o l (c ∷ cs) d h = elim (Bool-cases (c.object == o)) [
  | inl q ↦
      let same : c.life ≡ l = ground (arith, q, h) in
      rw q (subst (λ k. shares k cs ≡ false) same d.0)
  | inr q ↦
      let at : find o cs ≡ some l = ground (arith, q, h) in
      let ih = remove-shares o l cs d.1 at in
      let other : (c.life == l) ≡ false = different c.life l cs d.0 (find-shares o l cs at) in
      rw q (ground (arith, ih, other))
]
  where
    different :
        (k l : ℕ) (cs : List Callee) → shares k cs ≡ false → shares l cs ≡ true → (k == l) ≡ false
    different k l cs h t = elim (Bool-cases (k == l)) [
      | inl q ↦
          let same : k ≡ l = ground arith in
          let both : shares l cs ≡ false = subst (λ j. shares j cs ≡ false) same h in absurd cc
      | inr q ↦ q
    ]

find-remove : (o p : ℕ) (cs : List Callee) → (p == o) ≡ false → find o (remove p cs) ≡ find o cs
find-remove o p [] h = refl
find-remove o p (c ∷ cs) h = ground (arith, h, find-remove o p cs h)

returns_inj : {h k : Heap} → returns h ≡ returns k → h ≡ k
returns_inj h = cc

destroy_inv :
    (o : ℕ) (h h' : Heap)
    → destroy o h ≡ returns h'
    → (l : ℕ) × (find o h.callees ≡ some l) × (record h { callees = remove o h.callees } ≡ h')
unfolding destroy
destroy_inv o h h' e = go (find o h.callees) refl e
  where
    go :
        (m : Option ℕ)
        → find o h.callees ≡ m
        → with_life m (λ l. record h { callees = remove o h.callees }) ≡ returns h'
        → (l : ℕ) × (find o h.callees ≡ some l) × (record h { callees = remove o h.callees } ≡ h')
    go none at e = absurd cc
    go (some l) at e = (l, at, returns_inj e)

apply-IsValid : (o : Op) (h h' : Heap) → apply o h ≡ returns h' → IsValid h → IsValid h'
unfolding apply construct
apply-IsValid (constructs o) h h' e v = subst IsValid (returns_inj e) (record {
  old = (omega arith, IsOld-suc h.next_life h.callees v.old);
  distinct = (shares-IsOld h.next_life h.next_life h.callees v.old (omega arith), v.distinct);
})
apply-IsValid (destroys o) h h' e v =
    let (l, at, done) = destroy_inv o h h' e in
    subst IsValid done (record {
      old = remove-IsOld h.next_life o h.callees v.old;
      distinct = remove-IsDistinct o h.callees v.distinct;
    })

-- Nobody has the Life, and nobody gets it.
abbrev IsGone : ℕ → Heap → Type 0
IsGone l h = (shares l h.callees ≡ false) × (l < h.next_life)

apply-IsGone : (l : ℕ) (o : Op) (h h' : Heap) → apply o h ≡ returns h' → IsGone l h → IsGone l h'
unfolding apply construct
apply-IsGone l (constructs o) h h' e (gone, old) =
    subst (IsGone l) (returns_inj e) (ground (arith, gone, old), omega (arith, old))
apply-IsGone l (destroys o) h h' e (gone, old) =
    let (k, at, done) = destroy_inv o h h' e in
    subst (IsGone l) done (shares-remove l o h.callees gone, old)

run-IsGone : (l : ℕ) (os : List Op) (h h' : Heap) → run os h ≡ returns h' → IsGone l h → IsGone l h'
unfolding run
run-IsGone l [] h h' e g = subst (IsGone l) (returns_inj e) g
run-IsGone l (o ∷ os) h h' e g =
    let (k, first, rest) = >>=-eq-returns (apply o h) (run os) e in
    run-IsGone l os k h' rest (apply-IsGone l o h k first g)

-- Whether the object is destroyed, and whether one is constructed in its place.
abbrev pub ends : ℕ → List Op → Bool
ends o [] = false
ends o (constructs p ∷ os) = ends o os
ends o (destroys p ∷ os) = p == o || ends o os

abbrev pub begins : ℕ → List Op → Bool
begins o [] = false
begins o (constructs p ∷ os) = p == o || begins o os
begins o (destroys p ∷ os) = begins o os

or_right : (a b : Bool) → a || b ≡ false → (a ≡ false) × (b ≡ false)
or_right a b h = (ground (arith, h), ground (arith, h))

find-IsOld : (n o l : ℕ) (cs : List Callee) → IsOld n cs → find o cs ≡ some l → l < n
find-IsOld n o l [] old h = absurd cc
find-IsOld n o l (c ∷ cs) old h = ground (arith, h, old.0, find-IsOld n o l cs old.1)

run-shares :
    (o l : ℕ) (os : List Op) (h h' : Heap)
    → run os h ≡ returns h'
    → IsValid h
    → find o h.callees ≡ some l
    → begins o os ≡ false
    → shares l h'.callees ≡ not (ends o os)
unfolding run apply construct
run-shares o l [] h h' e v at once =
    subst (λ k. shares l k.callees ≡ true) (returns_inj e) (find-shares o l h.callees at)
run-shares o l (constructs p ∷ os) h h' e v at once =
    let (apart, later) = or_right (p == o) (begins o os) once in
    run-shares o l os (construct p h) h' e (apply-IsValid (constructs p) h (construct p h) refl v)
      (rw apart at) later
run-shares o l (destroys p ∷ os) h h' e v at once =
    let (k, first, rest) = >>=-eq-returns (destroy p h) (run os) e in
    let (j, there, done) = destroy_inv p h k first in
    elim (Bool-cases (p == o)) [
      | inl q ↦
          let same : p ≡ o = ground arith in
          let gone : shares l k.callees ≡ false =
            subst (λ g. shares l g.callees ≡ false) done
              (subst (λ n. shares l (remove n h.callees) ≡ false) (sym same)
                (remove-shares o l h.callees v.distinct at)) in
          let old : l < k.next_life =
            subst (λ g. l < g.next_life) done (find-IsOld h.next_life o l h.callees v.old at) in
          rw q (run-IsGone l os k h' rest (gone, old)).0
      | inr q ↦
          let still : find o k.callees ≡ some l =
            subst (λ g. find o g.callees ≡ some l) done (find-remove o p h.callees q ∙ at) in
          rw q (run-shares o l os k h' rest (apply-IsValid (destroys p) h k first v) still once)
    ]

-- A callback that is made for a callee, in a heap whose callees share no Life, and then any constructions and
-- destructions of callees, none of them copied or made in the place of that one: the callback is
-- executed if and only if the callee was not destroyed.
pub alive_lem :
    (o cb l : ℕ) (os : List Op) (h h' : Heap)
    → IsValid h
    → find o h.callees ≡ some l
    → begins o os ≡ false
    → run os h ≡ returns h'
    → (w : WeakCallback) × (weak_callback o cb h ≡ some w)
      × (execute w h' ≡ (if ends o os then none else some cb))
unfolding weak_callback execute expired
alive_lem o cb l os h h' v at once e =
    let shared = run-shares o l os h h' e v at once in
    (record { weak_life = l; callback = cb }, rw (at, weak_callback) refl, ground (arith, shared))
