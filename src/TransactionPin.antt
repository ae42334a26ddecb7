-- ===== src/TransactionPin.antt =====
-- `TransactionPinService`. A method is given the clock's reading at its check of the lock and, where
-- it reads the clock again for a wrong PIN, that later reading; in milliseconds. `show` is
-- JavaScript's text of a number.
-- Source: src/transaction-pin/transaction-pin.service.ts.
pub mod Entity
pub mod Lockout
pub mod Change
pub mod Controller
use vault_api.Prelude.{
  ℕ, String, ◌+◌, ◌-◌, ◌*◌, ◌/◌, ◌<>◌, Bool, true, false, Option, none, some, ltb, leb, ◌==◌,
  nat_eq, if◌then◌else◌,
}
use vault_api.Prelude.Dict.{get, set, remove}
use vault_api.Http.Exception.{Exception, not_found, bad_request, unauthorized}
use vault_api.Http.Action.{
  Result, ok, err, Action, ◌>>=◌, ◌>>◌, pure, throw, throw_if, or_throw, gets, modify,
}
use vault_api.App.{App, on_db}
use vault_api.Orm.{Repository}
use vault_api.Users.Hashing.{Bcrypt}
use vault_api.Users.Entity.{User, present}
use vault_api.TransactionPin.Entity.{Attempts, SetPinDto, ChangePinDto, VerifyPinDto}

abbrev pub max_attempts : ℕ
max_attempts = 3

abbrev pub lockout_ms : ℕ
lockout_ms = 15 * 60 * 1000

-- `this.attempts.get(userId)`
abbrev pub state_of : {Db : Type 0} → ℕ → App Db → Option Attempts
state_of user_id s = get user_id s.attempts

abbrev pub or_fresh : Option Attempts → Attempts
or_fresh none = record { count = 0; locked_until = 0 }
or_fresh (some state) = state

abbrev pub counted : ℕ → Attempts → Attempts
counted now state = record {
  count = state.count + 1;
  locked_until =
      if leb max_attempts (state.count + 1) then now + lockout_ms else state.locked_until;
}

module _ {Db : Type 0} (show : ℕ → String) (bcrypt : Bcrypt) (users : Repository User Db) where
  abbrev pub locked_message : ℕ → ℕ → String
  locked_message locked_until now =
      "PIN is locked. Try again in " <> show ((locked_until - now + 59999) / 60000) <> " minute(s)."

  -- `Math.ceil` of the minutes that are left.
  unfoldable pub check_lockout : ℕ → ℕ → Action (App Db) (Unit {0})
  check_lockout user_id now s = elim (state_of user_id s) [
    | none ↦ (ok tt, s)
    | some state ↦ (
      if ltb now state.locked_until
          then err (unauthorized (locked_message state.locked_until now))
          else ok tt,
      s,
    )
  ]

  unfoldable pub record_failed_attempt : ℕ → ℕ → Action (App Db) (Unit {0})
  record_failed_attempt user_id now s = (
    ok tt,
    record s { attempts = set user_id (counted now (or_fresh (state_of user_id s))) s.attempts },
  )

  unfoldable pub clear_attempts : ℕ → Action (App Db) (Unit {0})
  clear_attempts user_id s = (ok tt, record s { attempts = remove user_id s.attempts })

  abbrev pub wrong_pin : Attempts → Exception
  wrong_pin state =
      if ltb 0 (max_attempts - state.count)
      then unauthorized
          ("Incorrect PIN. " <> show (max_attempts - state.count) <> " attempt(s) remaining.")
      else unauthorized "PIN locked for 15 minutes due to too many failed attempts."

  abbrev refuse : ℕ → ℕ → Action (App Db) (Unit {0})
  refuse user_id later = do
    record_failed_attempt user_id later
    state ← gets (λ s. or_fresh (state_of user_id s))
    throw (wrong_pin state)

  unfoldable pub verify_pin : ℕ → VerifyPinDto → ℕ → ℕ → Action (App Db) (Unit {0})
  unfolding check_lockout record_failed_attempt clear_attempts
  verify_pin user_id dto now later = do
    check_lockout user_id now
    user ←
        or_throw (← gets (λ s. users.find_one (λ u. u.id == user_id) s.db))
          (not_found "User not found")
    stored_pin ←
        or_throw (present user.transaction_pin)
          (bad_request "Transaction PIN not set. Please set a PIN before transacting.")
    if bcrypt.compare dto.pin stored_pin then clear_attempts user_id else refuse user_id later

  abbrev store_pin : ℕ → String → Action (App Db) (Unit {0})
  store_pin user_id hashed = on_db (
      modify
        (users.update (λ u. u.id == user_id) (λ u. record u { transaction_pin = some hashed })))

  unfoldable pub set_pin : String → ℕ → SetPinDto → Action (App Db) (Unit {0})
  set_pin salt user_id dto = do
    user ←
        or_throw (← gets (λ s. users.find_one (λ u. u.id == user_id) s.db))
          (not_found "User not found")
    store_pin user_id (bcrypt.hash salt dto.pin)

  unfoldable pub change_pin : String → ℕ → ChangePinDto → ℕ → ℕ → Action (App Db) (Unit {0})
  unfolding verify_pin
  change_pin salt user_id dto now later = do
    verify_pin user_id (record { pin = dto.current_pin }) now later
    store_pin user_id (bcrypt.hash salt dto.new_pin)
    clear_attempts user_id

  unfoldable pub has_pin : ℕ → Db → Bool
  has_pin user_id db = elim (users.find_one (λ u. u.id == user_id) db) [
    | none ↦ false
    | some user ↦ elim (present user.transaction_pin) [ none ↦ false | some _ ↦ true ]
  ]
