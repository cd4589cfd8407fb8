-- ===== src/RateLimit/Guesses.antt =====
-- How many passwords a device can try: logins that fail, one after the other, as the login route
-- handles each.
use labaiacinghiala.Common.{
  ℕ, ◌+◌, ◌≤◌, ◌<◌, Bool, true, false, Option, none, some, List, [], ◌∷◌, ◌≡◌, Text, text_eq,
  if◌then◌else◌, is_ok,
}
use labaiacinghiala.RateLimit.{Limits, Entry, Entries, assert_allowed, record_failure}

-- A login of a device with a wrong password: when the limiter is asked, and when the failure is
-- recorded, after the password was checked.
pub record Attempt : Type 0 where
  pub key : Text
  pub asked : ℕ
  pub failed : ℕ

-- The limiter is asked, and where it lets the attempt pass, the failure is recorded. No other login
-- comes between the two.
unfoldable pub attempt : Limits → Attempt → Entries → Entries × Bool
attempt limits a entries =
    let answer = assert_allowed limits a.key a.asked entries in
    if is_ok answer.1
    then (record_failure limits a.key a.failed answer.0, true)
    else (answer.0, false)

-- How many attempts of a device get their password checked.
unfoldable pub guesses : Limits → Text → List Attempt → Entries → ℕ
guesses limits key [] entries = 0
guesses limits key (a ∷ rest) entries =
    let done = attempt limits a entries in
    (if text_eq a.key key then (if done.1 then 1 else 0) else 0) + guesses limits key rest done.0

-- All attempts stand in one stretch of time.
unfoldable pub Between : ℕ → ℕ → List Attempt → Type 0
Between from to [] = Unit
Between from to (a ∷ rest) =
    (from ≤ a.asked) × (a.asked ≤ a.failed) × (a.failed ≤ to) × Between from to rest

module _ (limits : Limits) (from to : ℕ) (window : to ≤ from + limits.window_ms)
    (block : to < from + limits.block_ms) (positive : 0 < limits.max_failures) where
  -- What is known of a device's entry after `used` guesses since `from`.
  Counted : ℕ → Option Entry → Type 0
  Counted used none = used ≡ 0
  Counted used (some e) =
      (from ≤ e.window_started_at)
      × (e.failures ≡ used)
      × (limits.max_failures ≤ used → to < e.blocked_until)
      × (used ≤ limits.max_failures)

  bit : Text → Text → Bool → ℕ
  bit k key guessed = if text_eq k key then (if guessed then 1 else 0) else 0
