-- ===== src/TransactionPin/Controller.antt =====
-- `TransactionPinController`. `now` and `later` are the readings of the clock, `salt` is bcrypt's.
-- Source: src/transaction-pin/transaction-pin.controller.ts.
use vault_api.Prelude.{ℕ, String, Bool, true, Option}
use vault_api.Http.Action.{Action, ◌>>=◌, ◌>>◌, pure}
use vault_api.App.{App}
use vault_api.Orm.{Repository}
use vault_api.Users.Hashing.{Bcrypt}
use vault_api.Users.Entity.{User}
use vault_api.Auth.Guards.{Principal, Access, signed_in, user_id_of}
use vault_api.TransactionPin.Entity.{SetPinDto, ChangePinDto, VerifyPinDto}

pub data Route : Type 0 where
  set_pin : SetPinDto → Route
  change_pin : ChangePinDto → Route
  verify_pin : VerifyPinDto → Route

unfoldable pub access : Route → Access
access _ = signed_in

-- The message of the answer, or its field `valid`.
abbrev pub Reply : Route → Type 0
Reply (verify_pin dto) = Bool
Reply _ = String

module _ {Db : Type 0} (show : ℕ → String) (bcrypt : Bcrypt) (users : Repository User Db) where
  unfoldable pub handle :
      ℕ → ℕ → String → Option Principal → (route : Route) → Action (App Db) (Reply route)
  handle now later salt user (set_pin dto) = do
    u ← user_id_of user
    vault_api.TransactionPin.set_pin show bcrypt users salt u dto
    pure "PIN set successfully"
  handle now later salt user (change_pin dto) = do
    u ← user_id_of user
    vault_api.TransactionPin.change_pin show bcrypt users salt u dto now later
    pure "PIN changed successfully"
  handle now later salt user (verify_pin dto) = do
    u ← user_id_of user
    vault_api.TransactionPin.verify_pin show bcrypt users u dto now later
    pure true
