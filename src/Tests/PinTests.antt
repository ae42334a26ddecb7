-- ===== src/Tests/PinTests.antt =====
-- A user's PIN, guessed, set and changed.
use vault_api.Prelude.{
  ℕ, String, ◌+◌, ◌≡◌, ◌≢◌, refl, Bool, true, false, Option, none, some, List, [], ◌∷◌, ◌<>◌, ◌==◌,
  nat_eq, string_eq, string_differ, arith, if◌then◌else◌,
}
use vault_api.Http.Exception.{unauthorized}
use vault_api.Http.Action.{ok, err}
use vault_api.App.{App}
use vault_api.Orm.{Repository, IsLawful}
use vault_api.Orm.Lists.{list_repository, list_repository-IsLawful}
use vault_api.Users.Hashing.{Bcrypt, IsFaithful}
use vault_api.Users.Entity.{User, customer, pending}
use vault_api.TransactionPin.Entity.{Attempts}
use vault_api.TransactionPin.{locked_message, verify_pin, set_pin, change_pin, has_pin}
use vault_api.TransactionPin.Lockout.{try_three, try_three_locks}
use vault_api.TransactionPin.Change.{verify_pin-set_pin}

abbrev filled : String → String
filled text = if text == "" then "#" else text

filled-ne-nil : (text : String) → filled text ≢ ""
filled-ne-nil text = ground (arith, string_differ "#" "" refl)

-- A hash that hides nothing, with which the laws of bcrypt hold.
abbrev pub plain : Bcrypt
plain = record { hash = λ salt text. filled text; compare = λ text hashed. filled text == hashed }

pub plain-IsFaithful : IsFaithful plain
plain-IsFaithful = record {
  compare-hash = λ salt text. ground arith;
  hash_filled = λ salt text. filled-ne-nil text;
}

abbrev pub users : Repository User (List User)
users = list_repository (λ u. u.id) (λ l. l) (λ l _. l)

pub users-IsLawful : IsLawful (λ u. u.id) users
users-IsLawful = list_repository-IsLawful (λ u. u.id) (λ l. l) (λ l _. l) (λ l db. refl)

abbrev pub ada : User
ada = record {
  id = 7;
  email = "ada@example.com";
  first_name = "Ada";
  last_name = "Okonkwo";
  phone_number = none;
  password = "Str0ng!Pass";
  role = customer;
  kyc_status = pending;
  is_email_verified = false;
  is_active = true;
  refresh_token = none;
  transaction_pin = some "1234";
}

abbrev quiet : App (List User)
quiet = record {
  db = ada ∷ [];
  fee_cache = none;
  fee_cache_expiry = 0;
  attempts = [];
  audit = [];
  events = [];
}

abbrev show : ℕ → String
show n = "some"

abbrev nearly : Attempts
nearly = record { count = 2; locked_until = 0 }

abbrev shut : Attempts
shut = record { count = 3; locked_until = 900030 }

abbrev guessed : App (List User)
guessed = try_three show plain users 7 ("0000", 10) ("1111", 20) ("2222", 30) quiet

try_three_locks_example :
    verify_pin show plain users 7 (record { pin = "1234" }) 40 41 guessed
    ≡ (err (unauthorized (locked_message show plain users 900030 40)), guessed)
unfolding list_repository nat_eq string_eq vault_api.Prelude.Dict.get
try_three_locks_example =
    try_three_locks show plain users 7 "0000" "1111" "2222" "1234" 10 20 30 quiet ada
      (record { pin = "1234" }) 40 41 refl refl refl refl refl refl (omega arith)

abbrev reset : App (List User)
reset = (set_pin show plain users "" 7 (record { pin = "9999" }) quiet).1

verify_pin-set_pin_example :
    ((verify_pin show plain users 7 (record { pin = "9999" }) 10 10 reset).0 ≡ ok tt)
    × (has_pin show plain users 7 reset.db ≡ true)
unfolding set_pin list_repository nat_eq vault_api.Prelude.Dict.get
verify_pin-set_pin_example =
    verify_pin-set_pin show plain users users-IsLawful plain-IsFaithful "" 7 "9999" 10 10 quiet
      reset refl refl

abbrev changed : App (List User)
changed =
    (change_pin show plain users "" 7 (record { current_pin = "1234"; new_pin = "4321" }) 10 10
      quiet).1
