-- ===== src/Exception.antt =====
-- The application's errors: pkg/exception/codes.go and pkg/exception/exception.go. An error is its
-- builder with the arguments; the message texts are not modelled.
use spacetrek.Prelude.{◌≡◌, refl, ◌⊎◌, inl, inr, ℕ, Text, Option, none, some}

pub data AppError : Type 0 where
  not_found : Text → Text → AppError
  unauthorized forbidden bad_request conflict unavailable too_many : Text → AppError
  validation_failed : AppError
  internal : AppError

pub data Result {ℓ} (A : Type ℓ) : Type ℓ where
  ok : A → Result A
  err : AppError → Result A

-- A bare `error` result.
abbrev pub Outcome : Type 0
Outcome = Result {0} Unit

pub Result-cases {ℓ} :
    {A : Type ℓ} (r : Result A) → ((a : A) × (r ≡ ok a)) ⊎ ((e : AppError) × (r ≡ err e))
Result-cases (ok a) = inl (a, refl)
Result-cases (err e) = inr (e, refl)

infixl 5 ◌>>=◌ ◌>>◌
abbrev pub ◌>>=◌ {ℓ κ} : {A : Type ℓ} {B : Type κ} → Result A → (A → Result B) → Result B
ok a >>= f = f a
err e >>= f = err e

abbrev pub ◌>>◌ {ℓ κ} : {A : Type ℓ} {B : Type κ} → Result A → Result B → Result B
m >> k = m >>= λ _. k

abbrev pub or_err {ℓ} : {A : Type ℓ} → Option A → AppError → Result A
or_err none e = err e
or_err (some a) e = ok a

-- `AppError.StatusCode`, as the builders set it.
unfoldable pub status_code : AppError → ℕ
status_code (not_found resource id) = 404
status_code (unauthorized msg) = 401
status_code (forbidden msg) = 403
status_code (bad_request msg) = 400
status_code (conflict msg) = 409
status_code (unavailable msg) = 503
status_code (too_many msg) = 429
status_code validation_failed = 422
status_code internal = 500
