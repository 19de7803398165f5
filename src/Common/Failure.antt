-- ===== src/Common/Failure.antt =====
-- Fallible code: the exceptions that the library and its servers throw, as values.
use Prim.Native.Nat.{ℕ}
use mathlib.Core.Path.{◌≡◌, refl}
use mathlib.Core.Logic.{◌⊎◌, inl, inr}

-- The `std::runtime_error`s of the sources, told apart by their text, `std::bad_function_call`, and what
-- client code throws.
pub data Exception : Type 0 where
  invalid_message_size handler_already_set session_gone bad_function_call : Exception
  client_error : ℕ → Exception

pub data Result {ℓ} (A : Type ℓ) : Type ℓ where
  ok : A → Result A
  throws : Exception → Result A

pub Result-cases {ℓ} :
    {A : Type ℓ} (r : Result A) → ((a : A) × (r ≡ ok a)) ⊎ ((e : Exception) × (r ≡ throws e))
Result-cases (ok a) = inl (a, refl)
Result-cases (throws e) = inr (e, refl)
