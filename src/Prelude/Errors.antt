-- ===== src/Prelude/Errors.antt =====
-- Go's errors and results. `errors.New(s)` is `new s`, and `fmt.Errorf("s: %w", err)` is
-- `wrap s err`. A function that returns a value and an error gives a `Reply`, and one that may
-- panic besides a `Result`.
use Prim.Native.String.{String}
use mathlib.Core.Path.{◌≡◌, refl}
use mathlib.Core.Logic.{◌⊎◌, inl, inr}

pub data Error : Type 0 where
  new : String → Error
  wrap : String → Error → Error

pub data Result {ℓ} (A : Type ℓ) : Type ℓ where
  ok : A → Result A
  err : Error → Result A
  panic : Result A

pub data Reply {ℓ} (A : Type ℓ) : Type ℓ where
  reply : A → Reply A
  failed : Error → Reply A

pub Reply-cases {ℓ} :
    {A : Type ℓ} (r : Reply A) → ((a : A) × (r ≡ reply a)) ⊎ ((e : Error) × (r ≡ failed e))
Reply-cases (reply a) = inl (a, refl)
Reply-cases (failed e) = inr (e, refl)

pub Result-cases {ℓ} :
    {A : Type ℓ} (r : Result A)
    → ((a : A) × (r ≡ ok a)) ⊎ (((e : Error) × (r ≡ err e)) ⊎ (r ≡ panic))
Result-cases (ok a) = inl (a, refl)
Result-cases (err e) = inr (inl (e, refl))
Result-cases panic = inr (inr refl)
