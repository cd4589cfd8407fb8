-- ===== src/RateLimit.antt =====
-- LoginRateLimiter of src/services/account-auth-service.js: the entries per key of failed logins and
-- the block after too many of them. Times are in milliseconds and are arguments.
pub mod Guesses
pub mod Release
mod Tests
use labaiacinghiala.Common.{
  ℕ, ◌*◌, ◌+◌, ◌-◌, ◌/◌, max, Bool, true, false, not, Option, none, some, List, [], ◌∷◌, Text,
  map_get, map_set, map_delete, keep_values, ltb, leb, if◌then◌else◌, Result, ok, err,
}

pub record Limits : Type 0 where
  pub max_failures : ℕ
  pub window_ms : ℕ
  pub block_ms : ℕ

abbrev pub default_limits : Limits
default_limits = record { max_failures = 5; window_ms = 5 * 60000; block_ms = 15 * 60000 }

pub record Entry : Type 0 where
  pub failures : ℕ
  pub window_started_at : ℕ
  pub blocked_until : ℕ

abbrev pub Entries : Type 0
Entries = List (Text × Entry)

module _ (limits : Limits) where
  pub is_relevant : ℕ → Entry → Bool
  is_relevant now e =
      not (ltb (max e.window_started_at e.blocked_until + max limits.window_ms limits.block_ms) now)

  pub clean : ℕ → Entries → Entries
  clean now = keep_values (is_relevant now)

  -- The error LOGIN_RATE_LIMITED, with the seconds to wait: at least one, rounded up.
  pub check_entry : ℕ → Option Entry → Result ℕ (Unit {0})
  check_entry now none = ok tt
  check_entry now (some e) =
      if leb e.blocked_until now then ok tt else err (max 1 ((e.blocked_until - now + 999) / 1000))

  -- assertAllowed, which cleans the entries first.
  pub assert_allowed : Text → ℕ → Entries → Entries × Result ℕ (Unit {0})
  unfolding clean check_entry
  assert_allowed key now entries =
      (clean now entries, check_entry now (map_get key (clean now entries)))

  -- The entry to count in: a new one outside the window. A clock that was set back stays inside.
  pub current_entry : ℕ → Option Entry → Entry
  current_entry now none = record { failures = 0; window_started_at = now; blocked_until = 0 }
  current_entry now (some e) =
      if ltb limits.window_ms (now - e.window_started_at)
      then record { failures = 0; window_started_at = now; blocked_until = 0 }
      else e

  pub failed_once : ℕ → Entry → Entry
  failed_once now e = record e {
    failures = e.failures + 1;
    blocked_until =
        if leb limits.max_failures (e.failures + 1) then now + limits.block_ms else e.blocked_until;
  }

  pub record_failure : Text → ℕ → Entries → Entries
  record_failure key now entries =
      map_set key (failed_once now (current_entry now (map_get key entries))) entries

pub record_success : Text → Entries → Entries
record_success key entries = map_delete key entries
