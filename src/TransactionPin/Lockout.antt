-- ===== src/TransactionPin/Lockout.antt =====
-- Guessing a PIN: how many tries there are, and what the lock does.
use vault_api.Prelude.{
  ℕ, String, ◌+◌, ◌≤◌, ◌<◌, ◌≡◌, arith, false, none, some, nat_eq, inl, inr, Option-cases,
}
use vault_api.Prelude.Dict.{set, get-set}
use vault_api.Http.Exception.{unauthorized}
use vault_api.Http.Action.{Result, err}
use vault_api.App.{App}
use vault_api.Orm.{Repository, row}
use vault_api.Users.Hashing.{Bcrypt}
use vault_api.Users.Entity.{User, present}
use vault_api.TransactionPin.Entity.{Attempts, VerifyPinDto}
use vault_api.TransactionPin.{state_of, verify_pin, counted, or_fresh, locked_message}

module _ {Db : Type 0} (show : ℕ → String) (bcrypt : Bcrypt) (users : Repository User Db)
    (user_id : ℕ) where
  abbrev pub try_pin : String → ℕ → App Db → Result (Unit {0}) × App Db
  try_pin pin now = verify_pin show bcrypt users user_id (record { pin = pin }) now now

  -- While the lock holds, every PIN is refused, the right one too, and nothing changes.
  pub verify_pin_locked :
      (dto : VerifyPinDto) (now later : ℕ) (s : App Db) (state : Attempts)
      → state_of user_id s ≡ some state
      → now < state.locked_until
      → verify_pin show bcrypt users user_id dto now later s
        ≡ (err (unauthorized (locked_message show bcrypt users state.locked_until now)), s)
  unfolding verify_pin
  verify_pin_locked dto now later s state known early = ground arith

  -- A wrong PIN of a user who has set one is counted, and nothing else changes.
  verify_pin_wrong :
      (pin stored : String) (now : ℕ) (s : App Db) (u : User)
      → row (λ u. u.id) users user_id s.db ≡ some u
      → present u.transaction_pin ≡ some stored
      → bcrypt.compare pin stored ≡ false
      → (or_fresh (state_of user_id s)).locked_until ≤ now
      → (try_pin pin now s).1 ≡ record s {
        attempts = set user_id (counted now (or_fresh (state_of user_id s))) s.attempts;
      }
  unfolding verify_pin
  verify_pin_wrong pin stored now s u found set_before wrong unlocked =
      elim (Option-cases (state_of user_id s)) [
        | inl unknown ↦ ground arith
        | inr (state, known) ↦ ground arith
      ]

  -- The PINs are tried one after the other.
  abbrev pub try_three : (String × ℕ) → (String × ℕ) → (String × ℕ) → App Db → App Db
  try_three (p, i) (q, j) (r, k) s = (try_pin r k (try_pin q j (try_pin p i s).1).1).1

  -- After three wrong PINs in a row, by a user with no wrong PIN before, every PIN is refused for
  -- fifteen minutes from the third, the right one too.
  pub try_three_locks :
      (p q r stored : String) (i j k : ℕ) (s : App Db) (u : User) (dto : VerifyPinDto)
      (now later : ℕ)
      → row (λ u. u.id) users user_id s.db ≡ some u
      → present u.transaction_pin ≡ some stored
      → bcrypt.compare p stored ≡ false
      → bcrypt.compare q stored ≡ false
      → bcrypt.compare r stored ≡ false
      → state_of user_id s ≡ none
      → now < k + 900000
      → verify_pin show bcrypt users user_id dto now later (try_three (p, i) (q, j) (r, k) s) ≡ (
        err (unauthorized (locked_message show bcrypt users (k + 900000) now)),
        try_three (p, i) (q, j) (r, k) s,
      )
  try_three_locks p q r stored i j k s u dto now later found pin not_p not_q not_r fresh early =
      let one : Attempts = record { count = 1; locked_until = 0 } in
      let two : Attempts = record { count = 2; locked_until = 0 } in
      let s1 : App Db = (try_pin p i s).1 in
      let s2 : App Db = (try_pin q j s1).1 in
      let s3 : App Db = (try_pin r k s2).1 in
      let first = verify_pin_wrong p stored i s u found pin not_p (ground (arith, fresh)) in
      let known1 : state_of user_id s1 ≡ some one =
        ground (arith, first, fresh, get-set user_id user_id one s.attempts) in
      let second =
        verify_pin_wrong q stored j s1 u (ground (arith, first, found)) pin not_q
          (ground (arith, known1)) in
      let known2 : state_of user_id s2 ≡ some two =
        ground (arith, second, known1, get-set user_id user_id two s1.attempts) in
      let third =
        verify_pin_wrong r stored k s2 u (ground (arith, first, second, found)) pin not_r
          (ground (arith, known2)) in
      let last : Attempts = record { count = 3; locked_until = k + 900000 } in
      let known3 : state_of user_id s3 ≡ some last =
        ground (arith, third, known2, get-set user_id user_id last s2.attempts) in
      verify_pin_locked dto now later s3 last known3 early

  -- A lock that has run out leaves the count: from two wrong PINs on, each further one locks again for
  -- fifteen minutes.
  pub verify_pin_wrong_again :
      (pin stored : String) (now : ℕ) (s : App Db) (u : User) (state : Attempts)
      → row (λ u. u.id) users user_id s.db ≡ some u
      → present u.transaction_pin ≡ some stored
      → bcrypt.compare pin stored ≡ false
      → state_of user_id s ≡ some state
      → 2 ≤ state.count
      → state.locked_until ≤ now
      → state_of user_id (try_pin pin now s).1
        ≡ some (record { count = state.count + 1; locked_until = now + 900000 })
  verify_pin_wrong_again pin stored now s u state found set_before wrong known twice unlocked =
      let after =
        verify_pin_wrong pin stored now s u found set_before wrong (ground (arith, known)) in
      ground (arith, after, known, get-set user_id user_id (counted now state) s.attempts)
