-- ===== src/Prelude/Results.antt =====
-- Results of calls that may throw.

use mathlib.Core.Path.{◌≡◌, refl}
use mathlib.Core.Logic.{◌⊎◌, inl, inr}

-- `std::errc` of the `std::system_error`s thrown, the exceptions of the standard library, and the
-- use of a null pointer, which the code does not catch.
pub data Error : Type 0 where
  io_error invalid_argument file_exists no_such_file_or_directory no_such_device : Error
  operation_not_permitted not_connected out_of_range runtime_error null_pointer : Error

pub data Result {ℓ} (A : Type ℓ) : Type ℓ where
  ok : A → Result A
  throw : Error → Result A

-- An exception ends the chain.
infixl 5 ◌>>=◌
abbrev pub ◌>>=◌ {ℓ ℓ'} : {A : Type ℓ} {C : Type ℓ'} → Result A → (A → Result C) → Result C
throw e >>= next = throw e
ok value >>= next = next value

pub Result-cases {ℓ} :
    {A : Type ℓ} (r : Result A) → ((a : A) × (r ≡ ok a)) ⊎ ((e : Error) × (r ≡ throw e))
Result-cases (ok a) = inl (a, refl)
Result-cases (throw e) = inr (e, refl)
