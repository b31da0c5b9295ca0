-- ===== src/Descriptors/Defs.antt =====
-- The class FileDescriptor. An object is a number; it holds a descriptor, or nothing where its number is
-- negative. What is closed and what is given away is written down.
use bb_eventloop.Common.{
  ℕ, ◌≡◌, Option, none, some, List, [], ◌∷◌, ◌++◌, ◌==◌, if◌then◌else◌, Outcome, returns, throws,
  undefined, invalid_fd,
}

pub record Slot : Type 0 where
  pub object : ℕ
  pub fd : Option ℕ

pub record Process : Type 0 where
  pub slots : List Slot
  pub closed : List ℕ
  pub released : List ℕ

abbrev pub find : ℕ → List Slot → Option Slot
find o [] = none
find o (s ∷ ss) = if s.object == o then some s else find o ss

abbrev pub set_fd : ℕ → Option ℕ → List Slot → List Slot
set_fd o fd [] = []
set_fd o fd (s ∷ ss) = if s.object == o then record s { fd = fd } ∷ ss else s ∷ set_fd o fd ss

abbrev pub remove : ℕ → List Slot → List Slot
remove o [] = []
remove o (s ∷ ss) = if s.object == o then ss else s ∷ remove o ss

-- What a constructor or an assignment is given: a raw number, `none` if it is negative.
unfoldable pub construct : ℕ → Option ℕ → Process → Process
construct o fd p = record p { slots = record { object = o; fd = fd } ∷ p.slots }

abbrev pub close_if_valid : Option ℕ → Process → Process
close_if_valid none p = p
close_if_valid (some fd) p = record p { closed = fd ∷ p.closed }

abbrev pub destroy_at : Option Slot → Process → Outcome Process
destroy_at none p = undefined
destroy_at (some s) p =
    let q = close_if_valid s.fd p in returns (record q { slots = remove s.object p.slots })

unfoldable pub destroy : ℕ → Process → Outcome Process
destroy o p = destroy_at (find o p.slots) p

-- The object and its descriptor, for an operation that throws InvalidFD where there is none.
abbrev pub with_fd : Option Slot → (ℕ → Outcome Process) → Outcome Process
with_fd none f = undefined
with_fd (some s) f = elim s.fd [ none ↦ throws invalid_fd | some fd ↦ f fd ]

unfoldable pub close : ℕ → Process → Outcome Process
close o p = with_fd (find o p.slots) (λ fd.
    returns
      (record { slots = set_fd o none p.slots; closed = fd ∷ p.closed; released = p.released }))

-- release, which gives the descriptor to its caller
unfoldable pub release : ℕ → Process → Outcome Process
release o p = with_fd (find o p.slots) (λ fd.
    returns
      (record { slots = set_fd o none p.slots; closed = p.closed; released = fd ∷ p.released }))

abbrev pub swap_at : Option Slot → Option Slot → Process → Outcome Process
swap_at none t p = undefined
swap_at (some s) none p = undefined
swap_at (some s) (some t) p =
    returns (record p { slots = set_fd t.object s.fd (set_fd s.object t.fd p.slots) })

unfoldable pub swap : ℕ → ℕ → Process → Outcome Process
swap o other p = swap_at (find o p.slots) (find other p.slots) p

abbrev pub assign_at : Option ℕ → Option Slot → Process → Outcome Process
assign_at fd none p = undefined
assign_at fd (some s) p =
    let q = close_if_valid s.fd p in returns (record q { slots = set_fd s.object fd p.slots })

-- operator = of a raw number
unfoldable pub assign : ℕ → Option ℕ → Process → Outcome Process
assign o fd p = assign_at fd (find o p.slots) p

pub data Op : Type 0 where
  constructs : ℕ → Option ℕ → Op
  destroys : ℕ → Op
  closes : ℕ → Op
  releases : ℕ → Op
  swaps : ℕ → ℕ → Op
  assigns : ℕ → Option ℕ → Op

unfoldable pub apply : Op → Process → Outcome Process
apply (constructs o fd) p = returns (construct o fd p)
apply (destroys o) p = destroy o p
apply (closes o) p = close o p
apply (releases o) p = release o p
apply (swaps o other) p = swap o other p
apply (assigns o fd) p = assign o fd p

abbrev pub as_list : Option ℕ → List ℕ
as_list none = []
as_list (some fd) = fd ∷ []

-- What an operation gives an object to own.
abbrev pub given_by : Op → List ℕ
given_by (constructs o fd) = as_list fd
given_by (destroys o) = []
given_by (closes o) = []
given_by (releases o) = []
given_by (swaps o other) = []
given_by (assigns o fd) = as_list fd

-- The states that operations lead to, with all that was given until then. An operation that throws changes nothing.
pub data Reaches : List ℕ → Process → Type 0 where
  starts : Reaches [] (record { slots = []; closed = []; released = [] })
  then_op :
      {given : List ℕ} {p q : Process} (o : Op)
      → Reaches given p
      → apply o p ≡ returns q
      → Reaches (given ++ given_by o) q
