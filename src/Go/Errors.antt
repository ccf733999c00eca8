-- ===== src/Go/Errors.antt =====
-- Go's error values and the test `errors.Is`.
use investor_cache.Base.{
  ℕ, ◌≡◌, refl, Bool, true, false, String, Option, none, some, ◌==◌, ◌⊎◌, inl, inr,
}

-- The error variables that code compares with: those of the libraries, and the repository's own.
pub data Sentinel : Type 0 where
  redis_nil : Sentinel
  open_state : Sentinel
  too_many_requests : Sentinel
  canceled : Sentinel
  no_rows : Sentinel
  tx_done : Sentinel
  not_found : Sentinel
  email_exists : Sentinel

abbrev pub tag : Sentinel → ℕ
tag redis_nil = 0
tag open_state = 1
tag too_many_requests = 2
tag canceled = 3
tag no_rows = 4
tag tx_done = 5
tag not_found = 6
tag email_exists = 7

-- `wrap` is `fmt.Errorf("…: %w", err)`, `message` an error made of a text alone (as `errors.New`
-- and every error of a library that no code here compares with), `pq_error` a `*pq.Error` with its
-- SQLSTATE, `num_error` a `*strconv.NumError` with its input, and `validation` a
-- `*profile.ValidationError` with its field and message.
pub data Error : Type 0 where
  sentinel : Sentinel → Error
  wrap : String → Error → Error
  message : String → Error
  pq_error : String → Error
  num_error : String → Error
  validation : String → String → Error

-- `errors.Is(err, target)`
unfoldable pub errors_is : Error → Sentinel → Bool
errors_is (sentinel s) t = tag s == tag t
errors_is (wrap _ e) t = errors_is e t
errors_is (message _) t = false
errors_is (pq_error _) t = false
errors_is (num_error _) t = false
errors_is (validation _ _) t = false

-- `errors.As(err, &pqErr)`, and the SQLSTATE of what it finds.
unfoldable pub pq_code : Error → Option String
pq_code (sentinel _) = none
pq_code (wrap _ e) = pq_code e
pq_code (message _) = none
pq_code (pq_error code) = some code
pq_code (num_error _) = none
pq_code (validation _ _) = none

-- `errors.As(err, &ve)` for a validation error.
unfoldable pub as_validation : Error → Bool
as_validation (sentinel _) = false
as_validation (wrap _ e) = as_validation e
as_validation (message _) = false
as_validation (pq_error _) = false
as_validation (num_error _) = false
as_validation (validation _ _) = true

-- A Go pair `(value, error)`: the code never reads the value of a call that returned an error.
pub data Result (A : Type 0) : Type 0 where
  ok : A → Result A
  err : Error → Result A

pub Result-cases :
    {A : Type 0} (r : Result A) → ((a : A) × (r ≡ ok a)) ⊎ ((e : Error) × (r ≡ err e))
Result-cases (ok a) = inl (a, refl)
Result-cases (err e) = inr (e, refl)

abbrev pub is_ok : {A : Type 0} → Result A → Bool
is_ok (ok _) = true
is_ok (err _) = false
