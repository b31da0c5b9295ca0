-- ===== src/Common/Effects.antt =====
-- What a call of the library does: it returns, it throws one of the library's exceptions, or aborts (`aborted`), or it
-- runs into behaviour that C++ leaves undefined, such as `front()` of an empty list.
use mathlib.Core.Path.{◌≡◌, refl}

pub data Exception : Type 0 where
  underflow overflow invalid_fd null_callback fd_already_added non_existing_fd_listener
        bad_function_call no_timers no_signal_handling bad_cmsg truncated_cmsg system_exception
        too_long_unix_socket_path translation_error aborted :
      Exception

pub data Outcome {ℓ} (A : Type ℓ) : Type ℓ where
  returns : A → Outcome A
  throws : Exception → Outcome A
  undefined : Outcome A

infixl 5 ◌>>=◌
abbrev pub ◌>>=◌ {ℓ κ} : {A : Type ℓ} {B : Type κ} → Outcome A → (A → Outcome B) → Outcome B
returns a >>= f = f a
throws e >>= f = throws e
undefined >>= f = undefined

-- Inversion of a call that goes on after another one.
pub >>=-eq-returns {ℓ κ} :
    {A : Type ℓ} {B : Type κ} (m : Outcome A) (f : A → Outcome B) {b : B}
    → (m >>= f) ≡ returns b
    → (a : A) × (m ≡ returns a) × (f a ≡ returns b)
>>=-eq-returns (returns a) f h = (a, refl, h)
>>=-eq-returns (throws e) f h = cc
>>=-eq-returns undefined f h = cc
