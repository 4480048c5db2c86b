-- ===== src/Prelude/Results.antt =====
-- `Result<T>` and `VelociError` of src/types.rs. The error texts are not modelled. `panic` is the
-- outcome of a Rust panic, such as a slice out of range.
use mathlib.Core.Path.{◌≡◌, refl}
use mathlib.Core.Logic.{◌⊎◌, inl, inr}

pub data VelociError : Type 0 where
  io io_error corruption busy not_found constraint_violation : VelociError
  parse_error transaction_error type_mismatch storage_error not_implemented : VelociError

pub data Result {ℓ} (A : Type ℓ) : Type ℓ where
  ok : A → Result A
  err : VelociError → Result A
  panic : Result A

pub Result-cases {ℓ} :
    {A : Type ℓ} (r : Result A)
    → ((a : A) × (r ≡ ok a)) ⊎ (((e : VelociError) × (r ≡ err e)) ⊎ (r ≡ panic))
Result-cases (ok a) = inl (a, refl)
Result-cases (err e) = inr (inl (e, refl))
Result-cases panic = inr (inr refl)
