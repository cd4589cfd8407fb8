-- ===== src/RateLimit/Tests.antt =====
-- The limiter at seven logins in a second.
use labaiacinghiala.Common.{
  ℕ, ◌+◌, List, [], ◌∷◌, Text, codes, ◌≡◌, refl, arith, ok, text_eq, map_get, map_set, map_delete,
}
use labaiacinghiala.RateLimit.{
  default_limits, assert_allowed, record_failure, is_relevant, failed_once, current_entry,
  record_success,
}
use labaiacinghiala.RateLimit.Release.{
  LimiterCall, asks, fails, succeeds, calls, By, calls-assert_allowed,
}
use labaiacinghiala.RateLimit.Guesses.{Attempt, attempt, guesses}

abbrev phone : Text
phone = codes "phone"

-- Each password takes 60 milliseconds to check.
abbrev login : Text → ℕ → Attempt
login key now = record { key = key; asked = now; failed = now + 60 }

abbrev logins : List Attempt
logins =
    login phone 1000
    ∷ login phone 1100
    ∷ login (codes "tablet") 1150
    ∷ login phone 1200
    ∷ login phone 1300
    ∷ login phone 1400
    ∷ login phone 1500
    ∷ []

counted : guesses default_limits phone logins [] ≡ 5
unfolding guesses text_eq attempt assert_allowed map_get record_failure map_set is_relevant
    failed_once current_entry
counted = refl

-- Two logins are let in before the failure of the first is recorded, and the fifth failure blocks
-- the device.
abbrev side_by_side : List LimiterCall
side_by_side =
    asks phone 1000
    ∷ asks phone 1010
    ∷ fails phone 1060
    ∷ fails phone 1070
    ∷ fails phone 1080
    ∷ asks (codes "tablet") 1100
    ∷ fails phone 1200
    ∷ succeeds (codes "tablet")
    ∷ fails phone 1300
    ∷ []

calls-assert_allowed_example :
    (assert_allowed default_limits phone 901300 (calls default_limits side_by_side [])).1 ≡ ok tt
unfolding By
calls-assert_allowed_example =
    calls-assert_allowed default_limits phone side_by_side 1300 901300
      (
        (λ e. omega arith),
        ((λ e. omega arith), ((λ e. omega arith), ((λ e. omega arith), ((λ e. omega arith), tt)))),
      )
      (omega arith)

-- A success forgets the failures.
forgotten :
    record_success phone
      ((phone, record { failures = 2; window_started_at = 1; blocked_until = 0 }) ∷ [])
    ≡ []
unfolding record_success map_delete text_eq
forgotten = refl
