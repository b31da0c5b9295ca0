-- ===== src/Common/Attempts.antt =====
-- What a call of a socket does: it returns, it throws an exception that ends the handling of the socket, or it throws
-- a SystemException, by its error number, with the state that it leaves, as the sockets catch it.
use Prim.Native.Nat.{ℕ}
use bb_eventloop.Common.Effects.{Exception}

pub data Attempt {ℓ} (A : Type ℓ) : Type ℓ where
  returns : A → Attempt A
  throws : Exception → Attempt A
  fails : ℕ → A → Attempt A

-- On a state that is passed on.
infixl 5 ◌>>=◌
abbrev pub ◌>>=◌ {ℓ} : {A : Type ℓ} → Attempt A → (A → Attempt A) → Attempt A
returns a >>= f = f a
throws e >>= f = throws e
fails x a >>= f = fails x a
