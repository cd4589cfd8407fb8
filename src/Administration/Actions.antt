-- ===== src/Administration/Actions.antt =====
-- The operations of an administrator as a data type, and one after the other. An operation that throws
-- leaves the tables as they were.
use labaiacinghiala.Common.{
  ℕ, Bool, Option, none, some, List, [], ◌∷◌, Text, Result, ok, err, Returns,
}
use labaiacinghiala.Store.{Db}
use labaiacinghiala.Accounts.Rows.{Unicode, NewAccount, Changes}
use labaiacinghiala.Sessions.{Passwords}
use labaiacinghiala.Administration.{
  AdminError, create_managed_account, update_managed_account, reset_managed_password,
  delete_managed_account, logout_managed_account_devices,
}

pub data Action : Type 0 where
  creates : NewAccount → Text → Option (Option Bool) → Action
  updates : Text → Changes → Action
  -- With the tables that the request found when it came.
  resets : Text → Text → Option (Option Bool) → ℕ → Db → Action
  deletes : ℕ → Text → ℕ → Action
  logs_out : Text → Action

abbrev pub tables {ℓ} : {A : Type ℓ} → Result AdminError (Db × A) → Result AdminError Db
tables (ok out) = ok out.0
tables (err e) = err e

pub tables-Returns {ℓ} :
    {A : Type ℓ} (P : Db → Type 0) (m : Result AdminError (Db × A))
    → Returns (λ out. P out.0) m
    → Returns P (tables m)
tables-Returns P (ok out) h = h
tables-Returns P (err e) h = tt

unfoldable pub perform : Unicode → Passwords → Text → Action → Db → Result AdminError Db
perform unicode passwords actor (creates new password must_change) db =
    tables (create_managed_account unicode passwords new password must_change actor db)
perform unicode passwords actor (updates id changes) db =
    tables (update_managed_account unicode passwords actor id changes db)
perform unicode passwords actor (resets id password must_change now before) db =
    tables (reset_managed_password unicode passwords actor id password must_change now before db)
perform unicode passwords actor (deletes fuel id now) db =
    tables (delete_managed_account unicode passwords fuel actor id now db)
perform unicode passwords actor (logs_out id) db =
    tables (logout_managed_account_devices actor id db)

unfoldable pub kept : Db → Result AdminError Db → Db
kept db (ok after) = after
kept db (err e) = db

unfoldable pub run : Unicode → Passwords → Text → List Action → Db → Db
run unicode passwords actor [] db = db
run unicode passwords actor (a ∷ rest) db =
    run unicode passwords actor rest (kept db (perform unicode passwords actor a db))

-- The account whose devices an operation signs out in any case.
unfoldable pub dismissed : Action → Option Text
dismissed (creates new password must_change) = none
dismissed (updates id changes) = none
dismissed (resets id password must_change now before) = some id
dismissed (deletes fuel id now) = some id
dismissed (logs_out id) = some id
