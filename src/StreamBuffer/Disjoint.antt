-- ===== src/StreamBuffer/Disjoint.antt =====
-- Addresses that differ: what a cut, an extension and a fresh block do to `Apart` and `Distinct`.
use bb_eventloop.Common.{ℕ, zero, suc, ◌+◌, ◌<◌, ◌≡◌, ap, List, [], ◌∷◌, ◌++◌, arith, take, drop}
use bb_eventloop.StreamBuffer.Memory.{Addr, span, NotIn, Apart, Distinct}

-- Every address lies in a block below `n`.
abbrev pub Below : ℕ → List Addr → Type 0
Below n [] = Unit {0}
Below n (p ∷ ps) = (p.0 < n) × Below n ps

pub NotIn-append : (p : Addr) (qs rs : List Addr) → NotIn p qs → NotIn p rs → NotIn p (qs ++ rs)
NotIn-append p [] rs h k = k
NotIn-append p (q ∷ qs) rs h k = (h.0, NotIn-append p qs rs h.1 k)

pub NotIn-append_left : (p : Addr) (qs rs : List Addr) → NotIn p (qs ++ rs) → NotIn p qs
NotIn-append_left p [] rs h = tt
NotIn-append_left p (q ∷ qs) rs h = (h.0, NotIn-append_left p qs rs h.1)

pub NotIn-append_right : (p : Addr) (qs rs : List Addr) → NotIn p (qs ++ rs) → NotIn p rs
NotIn-append_right p [] rs h = h
NotIn-append_right p (q ∷ qs) rs h = NotIn-append_right p qs rs h.1

-- `Apart` in its second list.
pub Apart-append : (ps qs rs : List Addr) → Apart ps qs → Apart ps rs → Apart ps (qs ++ rs)
Apart-append [] qs rs h k = tt
Apart-append (p ∷ ps) qs rs h k = (NotIn-append p qs rs h.0 k.0, Apart-append ps qs rs h.1 k.1)

pub Apart-append_left : (ps qs rs : List Addr) → Apart ps (qs ++ rs) → Apart ps qs
Apart-append_left [] qs rs h = tt
Apart-append_left (p ∷ ps) qs rs h = (NotIn-append_left p qs rs h.0, Apart-append_left ps qs rs h.1)

pub Apart-append_right : (ps qs rs : List Addr) → Apart ps (qs ++ rs) → Apart ps rs
Apart-append_right [] qs rs h = tt
Apart-append_right (p ∷ ps) qs rs h =
    (NotIn-append_right p qs rs h.0, Apart-append_right ps qs rs h.1)

-- `Apart` in its first list.
pub append-Apart : (ps qs rs : List Addr) → Apart ps rs → Apart qs rs → Apart (ps ++ qs) rs
append-Apart [] qs rs h k = k
append-Apart (p ∷ ps) qs rs h k = (h.0, append-Apart ps qs rs h.1 k)

pub append-Apart_left : (ps qs rs : List Addr) → Apart (ps ++ qs) rs → Apart ps rs
append-Apart_left [] qs rs h = tt
append-Apart_left (p ∷ ps) qs rs h = (h.0, append-Apart_left ps qs rs h.1)

pub append-Apart_right : (ps qs rs : List Addr) → Apart (ps ++ qs) rs → Apart qs rs
append-Apart_right [] qs rs h = h
append-Apart_right (p ∷ ps) qs rs h = append-Apart_right ps qs rs h.1

pub Distinct-append :
    (ps qs : List Addr) → Distinct ps → Distinct qs → Apart ps qs → Distinct (ps ++ qs)
Distinct-append [] qs h k a = k
Distinct-append (p ∷ ps) qs h k a = (NotIn-append p ps qs h.0 a.0, Distinct-append ps qs h.1 k a.1)

pub Distinct-append_left : (ps qs : List Addr) → Distinct (ps ++ qs) → Distinct ps
Distinct-append_left [] qs h = tt
Distinct-append_left (p ∷ ps) qs h = (NotIn-append_left p ps qs h.0, Distinct-append_left ps qs h.1)

pub Distinct-append_right : (ps qs : List Addr) → Distinct (ps ++ qs) → Distinct qs
Distinct-append_right [] qs h = h
Distinct-append_right (p ∷ ps) qs h = Distinct-append_right ps qs h.1

pub Distinct-Apart : (ps qs : List Addr) → Distinct (ps ++ qs) → Apart ps qs
Distinct-Apart [] qs h = tt
Distinct-Apart (p ∷ ps) qs h = (NotIn-append_right p ps qs h.0, Distinct-Apart ps qs h.1)

-- A block that is not in use yet is apart from all that is.
NotIn-span : (p : Addr) (b o k : ℕ) → p.0 < b → NotIn p (span b o k)
unfolding span
NotIn-span p b o zero h = tt
NotIn-span p b o (suc k) h =
    ((λ e. let f : p.0 ≡ b = ap (λ (q : Addr). q.0) e in omega arith), NotIn-span p b (o + 1) k h)

pub Apart-span : (n o k : ℕ) (ps : List Addr) → Below n ps → Apart ps (span n o k)
Apart-span n o k [] h = tt
Apart-span n o k (p ∷ ps) h = (NotIn-span p n o k h.0, Apart-span n o k ps h.1)

NotIn-span_lt : (b o o' k : ℕ) → o < o' → NotIn (b, o) (span b o' k)
unfolding span
NotIn-span_lt b o o' zero h = tt
NotIn-span_lt b o o' (suc k) h = (
  (λ e. let f : o ≡ o' = ap (λ (q : Addr). q.1) e in omega arith),
  NotIn-span_lt b o (o' + 1) k (omega arith),
)

pub Distinct-span : (b o k : ℕ) → Distinct (span b o k)
unfolding span
Distinct-span b o zero = tt
Distinct-span b o (suc k) = (NotIn-span_lt b o (o + 1) k (omega arith), Distinct-span b (o + 1) k)

pub Below-append : (n : ℕ) (ps qs : List Addr) → Below n ps → Below n qs → Below n (ps ++ qs)
Below-append n [] qs h k = k
Below-append n (p ∷ ps) qs h k = (h.0, Below-append n ps qs h.1 k)

pub Below-take : (n k : ℕ) (ps : List Addr) → Below n ps → Below n (take k ps)
Below-take n zero ps h = tt
Below-take n (suc k) [] h = tt
Below-take n (suc k) (p ∷ ps) h = (h.0, Below-take n k ps h.1)

pub Below-drop : (n k : ℕ) (ps : List Addr) → Below n ps → Below n (drop k ps)
Below-drop n zero ps h = h
Below-drop n (suc k) [] h = tt
Below-drop n (suc k) (p ∷ ps) h = Below-drop n k ps h.1

pub Below-span : (n b o k : ℕ) → b < n → Below n (span b o k)
unfolding span
Below-span n b o zero h = tt
Below-span n b o (suc k) h = (h, Below-span n b (o + 1) k h)
