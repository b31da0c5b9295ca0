-- ===== src/StreamBuffer/Locate.antt =====
-- `findLocation` finds the buffer that holds a given byte of the data.
use bb_eventloop.Common.{
  ℕ, ◌+◌, ◌-◌, ◌≤◌, ◌<◌, ◌∙◌, ◌≡◌, ◌⊎◌, refl, ap, inl, inr, List, [], ◌∷◌, ◌++◌, arith, ltb, ◌==◌,
  Bool-cases, take, drop, take-append_ge, drop-append_ge, returns,
}
use bb_eventloop.StreamBuffer.Defs.{Buffer, Location, find_location}
use bb_eventloop.StreamBuffer.Cells.{cells, sizes-append, sizes, length-cells, cells-append}

abbrev pub OffsetFits : List Buffer → ℕ → Type 0
OffsetFits [] n = n ≡ 0
OffsetFits (b ∷ bs) n = (n ≡ 0) ⊎ (n < b.size)

-- What findLocation(left) has found.
pub record IsLocated (bs : List Buffer) (left : ℕ) (l : Location) : Type 0 where
  pub split : bs ≡ l.before ++ l.at
  pub sum : left ≡ sizes l.before + l.offset
  pub fits : OffsetFits l.at l.offset

-- findLocation stays inside the list for every amount of data that the buffers can hold.
pub find_location_lem :
    (bs : List Buffer) (left : ℕ)
    → left ≤ sizes bs
    → (l : Location) × (find_location bs left ≡ returns l) × IsLocated bs left l
unfolding find_location
find_location_lem [] left h = (
  record { before = []; at = []; offset = 0 },
  ground arith,
  record { split = refl; sum = omega arith; fits = refl },
)
find_location_lem (b ∷ bs) left h = elim (Bool-cases (left == 0)) [
  | inl e ↦ (
    record { before = []; at = b ∷ bs; offset = 0 },
    rw e,
    record { split = refl; sum = ground arith; fits = inl refl },
  )
  | inr e ↦ elim (Bool-cases (ltb left b.size)) [
    | inl f ↦ (
      record { before = []; at = b ∷ bs; offset = left },
      rw (e, f),
      record { split = refl; sum = omega arith; fits = inr (ground arith) },
    )
    | inr f ↦
        let (l, found, at) = find_location_lem bs (left - b.size) (ground arith) in
        (
          record l { before = b ∷ l.before },
          rw (e, f, found),
          record { split = ap (◌∷◌ b) at.split; sum = ground (arith, at.sum); fits = at.fits },
        )
  ]
]

-- The free room is what lies at the location and behind it.
pub drop-located :
    {bs : List Buffer} {left : ℕ} {l : Location}
    → IsLocated bs left l
    → drop left (cells bs) ≡ drop l.offset (cells l.at)
drop-located {bs} {left} {l} h =
    rw (h.split, cells-append l.before l.at)
      (drop-append_ge l.offset left (cells l.before) (cells l.at)
        (omega (arith, h.sum, length-cells l.before)))

pub take-located :
    {bs : List Buffer} {left : ℕ} {l : Location}
    → IsLocated bs left l
    → take left (cells bs) ≡ cells l.before ++ take l.offset (cells l.at)
take-located {bs} {left} {l} h =
    rw (h.split, cells-append l.before l.at)
      (take-append_ge l.offset left (cells l.before) (cells l.at)
        (omega (arith, h.sum, length-cells l.before)))

-- Before the end of the buffers, the location is inside one of them.
pub pointed_lem :
    (bs : List Buffer) (left : ℕ)
    → left < sizes bs
    → (l : Location) × (b : Buffer) × (cs : List Buffer) × (find_location bs left ≡ returns l)
      × IsLocated bs left l
      × (l.at ≡ b ∷ cs)
      × (l.offset ≤ b.size)
pointed_lem bs left h =
    let (l, found, at) = find_location_lem bs left (omega arith) in
    pointed l found at (ap sizes at.split ∙ sizes-append l.before l.at) l.at refl
  where
    pointed :
        (l : Location)
        → (find_location bs left ≡ returns l)
        → IsLocated bs left l
        → sizes bs ≡ sizes l.before + sizes l.at
        → (ds : List Buffer) → l.at ≡ ds
        → (l' : Location) × (b : Buffer) × (cs : List Buffer) × (find_location bs left ≡ returns l')
          × IsLocated bs left l'
          × (l'.at ≡ b ∷ cs)
          × (l'.offset ≤ b.size)
    pointed l found at s [] e =
        let f : l.offset ≡ 0 = rw e at at.fits in
        let z : sizes l.at ≡ 0 = rw e in absurd (omega (arith, at.sum))
    pointed l found at s (b ∷ cs) e =
        let f : (l.offset ≡ 0) ⊎ (l.offset < b.size) = rw e at at.fits in
        (l, b, cs, found, at, e, omega (arith, f))
