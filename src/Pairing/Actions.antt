-- ===== src/Pairing/Actions.antt =====
-- The operations of the pairing service one after the other, as the routes call them.
use labaiacinghiala.Common.{ℕ, Option, List, [], ◌∷◌, Text, Result, ok, err, JsNumber, Returns}
use labaiacinghiala.Store.{Db}
use labaiacinghiala.Pairing.Tokens.{PairingError, PairingCrypto, Payload}
use labaiacinghiala.Pairing.{
  create_pairing_invite, redeem_pairing_invite, revoke_pairing_invite, revoke_paired_device,
}

-- A call with what it draws and the time at which it runs.
pub data Action : Type 0 where
  invites : JsNumber → Text → List ℕ → ℕ → Action
  redeems : Payload → Text → ℕ → Action
  revokes_invite : Option Text → ℕ → Action
  revokes_device : Option Text → ℕ → Action

abbrev pub clock : Action → ℕ
clock (invites ttl id secret now) = now
clock (redeems payload new_id now) = now
clock (revokes_invite id now) = now
clock (revokes_device id now) = now

-- The tables after a call: an error leaves the old ones.
pub written : Db → Result PairingError Db → Db
written db (ok db2) = db2
written db (err e) = db

pub made : Db → Result PairingError (Db × Text) → Db
made db (ok (db2, value)) = db2
made db (err e) = db

unfoldable pub step : PairingCrypto → Db → Action → Db
step crypto db (invites ttl id secret now) =
    made db (create_pairing_invite crypto ttl id secret now db)
step crypto db (redeems payload new_id now) =
    made db (redeem_pairing_invite crypto payload new_id now db)
step crypto db (revokes_invite id now) = written db (revoke_pairing_invite id now db)
step crypto db (revokes_device id now) = written db (revoke_paired_device id now db)

unfoldable pub run : PairingCrypto → Db → List Action → Db
run crypto db [] = db
run crypto db (a ∷ rest) = run crypto (step crypto db a) rest

-- What an operation keeps, whether it returns or throws.
pub written-keeps :
    (P : Db → Type 0) (db : Db) (m : Result PairingError Db) → P db → Returns P m → P (written db m)
unfolding written
written-keeps P db (ok db2) p h = h
written-keeps P db (err e) p h = p

pub made-keeps :
    (P : Db → Type 0) (db : Db) (m : Result PairingError (Db × Text))
    → P db
    → Returns (λ (out : Db × Text). P out.0) m
    → P (made db m)
unfolding made
made-keeps P db (ok (db2, value)) p h = h
made-keeps P db (err e) p h = p
