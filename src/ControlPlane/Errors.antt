-- ===== src/ControlPlane/Errors.antt =====
-- The errors of internal/controlplane (repository.go, claims.go) and results that carry them.
use roambench.Base.{◌≡◌, refl, ◌⊎◌, inl, inr}

-- ErrNotFound, ErrConflict, ErrValidation, ErrLeaseConflict, and any error of the database that is
-- passed on; the texts that they wrap are left out.
pub data Error : Type 0 where
  not_found conflict validation lease_conflict storage : Error

pub data Result {ℓ} (A : Type ℓ) : Type ℓ where
  ok : A → Result A
  err : Error → Result A

pub Result-cases {ℓ} :
    {A : Type ℓ} (r : Result A) → ((a : A) × (r ≡ ok a)) ⊎ ((e : Error) × (r ≡ err e))
Result-cases (ok a) = inl (a, refl)
Result-cases (err e) = inr (e, refl)
