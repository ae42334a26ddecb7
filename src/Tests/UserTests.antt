-- ===== src/Tests/UserTests.antt =====
-- Registration and sessions, the review of documents, beneficiaries, the inbox and the guard.
use vault_api.Prelude.{
  ℕ, String, ◌<◌, ◌≡◌, ◌≢◌, refl, Bool, true, false, none, some, List, [], ◌∷◌, Among, ◌<>◌, ◌==◌,
  nat_eq, string_eq, string_differ, arith, ◌⊎◌,
}
use vault_api.Http.Exception.{conflict}
use vault_api.Http.Action.{ok, err}
use vault_api.Orm.{Repository, IsLawful, row}
use vault_api.Orm.Lists.{list_repository, list_repository-IsLawful}
use vault_api.Users.Entity.{User}
use vault_api.Users.{RegisterDto, deactivate}
use vault_api.Auth.{
  Jwt, SignsTokens, Tokens, validate_user, register, login, logout, refresh_tokens,
}
use vault_api.Auth.Registration.{validate_user-register}
use vault_api.Auth.Refresh.{refresh_tokens-logout, refresh_tokens-deactivate}
use vault_api.Beneficiaries.{
  Beneficiary, CreateBeneficiaryDto, create, find_all, remove, new_beneficiary,
}
use vault_api.Beneficiaries.Removal.{create-remove}
use vault_api.Notifications.Entity.{Notification, transaction_debit}
use vault_api.Notifications.{new_notification, mark_all_as_read}
use vault_api.Audit.Writing.{save_with_retry, save_with_retry_verdict, saved, given_up}
use vault_api.Webhooks.{Providers, process_paystack_webhook}
use vault_api.Webhooks.Charges.{process_paystack_webhook_idle}
use vault_api.Tests.Database.{app, tables}
use vault_api.Tests.PinTests.{plain, plain-IsFaithful, users, users-IsLawful, ada}
use vault_api.Tests.MoneyTests.{bank, draw}

abbrev jwt : Jwt
jwt = record { sign_access = λ now payload. "a"; sign_refresh = λ now payload. "r" }

jwt-SignsTokens : SignsTokens jwt
jwt-SignsTokens = record { refresh_filled = λ now payload. string_differ "r" "" refl }

abbrev dto : RegisterDto
dto = record {
  email = "ben@example.com";
  first_name = "Ben";
  last_name = "Eze";
  password = "Str0ng!Pass";
  phone_number = none;
}

abbrev answer : User × Tokens
answer = (
  record ada {
    id = 8;
    email = dto.email;
    first_name = dto.first_name;
    last_name = dto.last_name;
    transaction_pin = none;
  },
  record { access_token = "a"; refresh_token = "r" },
)

abbrev joined : List User
joined = (register plain jwt users 100 8 "" "" dto (ada ∷ [])).1

validate_user-register_example :
    (u : User) × (u.id ≡ 8)
    × (validate_user plain jwt users "ben@example.com" "Str0ng!Pass" joined ≡ (ok (some u), joined))
unfolding register vault_api.Users.find_by_email list_repository string_eq
    vault_api.Users.Entity.hash_password
validate_user-register_example =
    validate_user-register plain jwt users users-IsLawful plain-IsFaithful jwt-SignsTokens 100 8 ""
      "" dto (ada ∷ []) joined answer refl

abbrev signed_in : List User
signed_in = (login plain jwt users 100 "" ada (ada ∷ [])).1

abbrev signed_out : List User
signed_out = (logout plain jwt users "" 7 signed_in).1

refresh_tokens-logout_example :
    ((j : ℕ) → row (λ u. u.id) users j signed_out ≡ row (λ u. u.id) users j signed_in)
    × ((refresh_tokens plain jwt users 200 "" 7 "r" signed_out).0
        ≡ (refresh_tokens plain jwt users 200 "" 7 "r" signed_in).0)
refresh_tokens-logout_example =
    refresh_tokens-logout plain jwt users users-IsLawful 200 "" "" 7 "r" signed_in

abbrev shut_out : List User
shut_out = (deactivate plain users 7 signed_in).1

abbrev shut_user : User
shut_user = record ada { refresh_token = some (plain.hash "" "r"); is_active = false }

refresh_tokens-deactivate_example :
    (shut_user.is_active ≡ false)
    × ((refresh_tokens plain jwt users 200 "" 7 "r" shut_out).0
        ≡ (refresh_tokens plain jwt users 200 "" 7 "r" signed_in).0)
unfolding deactivate list_repository nat_eq string_eq login
refresh_tokens-deactivate_example =
    refresh_tokens-deactivate plain jwt users users-IsLawful 200 "" 7 "r" signed_in shut_out
      shut_user refl

abbrev contacts : Repository Beneficiary (List Beneficiary)
contacts = list_repository (λ b. b.id) (λ l. l) (λ l _. l)

contacts-IsLawful : IsLawful (λ b. b.id) contacts
contacts-IsLawful = list_repository-IsLawful (λ b. b.id) (λ l. l) (λ l _. l) (λ l db. refl)

abbrev mum_dto : CreateBeneficiaryDto
mum_dto = record {
  account_number = "0123456789";
  account_name = "Ada Okonkwo";
  bank_name = none;
  bank_code = none;
  nickname = some "Mum";
}

abbrev book : List Beneficiary
book = new_beneficiary 3 8 mum_dto ∷ []

abbrev emptied : List Beneficiary
emptied = (remove contacts 3 8 book).1

create-remove_example :
    (create contacts 4 8 mum_dto emptied
      ≡ (err (conflict "Beneficiary with this account number already saved"), emptied))
    × ((c : Beneficiary) → Among c (find_all contacts 8 emptied) → c.id ≢ 3)
unfolding list_repository nat_eq remove
create-remove_example =
    create-remove contacts contacts-IsLawful 3 8 4 mum_dto book emptied
      (new_beneficiary 3 8 mum_dto) refl refl refl

abbrev inbox : Repository Notification (List Notification)
inbox = list_repository (λ n. n.id) (λ l. l) (λ l _. l)

inbox-IsLawful : IsLawful (λ n. n.id) inbox
inbox-IsLawful = list_repository-IsLawful (λ n. n.id) (λ l. l) (λ l _. l) (λ l db. refl)

abbrev letter : Notification
letter =
    new_notification 1 50
      (record { user_id = 7; type = transaction_debit; title = "t"; body = "b"; payload = [] })

abbrev opened_letters : List Notification
opened_letters = (mark_all_as_read inbox 60 7 (letter ∷ [])).1

abbrev five : List String
five = "a" ∷ "b" ∷ "c" ∷ "d" ∷ "e" ∷ []

abbrev third_time : ℕ → Bool
third_time k = k == 2

save_with_retry_verdict_example :
    ((save_with_retry third_time 4 0).1 ≡ saved × ((k : ℕ) × (k < 4) × (third_time k ≡ true)))
    ⊎ ((save_with_retry third_time 4 0 ≡ (100 ∷ 200 ∷ 400 ∷ [], given_up))
        × ((k : ℕ) → k < 4 → third_time k ≡ false))
save_with_retry_verdict_example = save_with_retry_verdict third_time 4 (omega arith)

abbrev providers : Providers
providers = record {
  paystack_secret = some "s";
  flutterwave_secret = none;
  flutterwave_hash = none;
  hmac = λ secret body. secret <> body;
  paystack_answer = λ reference. none;
  flutterwave_answer = λ reference. none;
}

process_paystack_webhook_idle_example :
    (process_paystack_webhook tables providers 1 draw "sx" "x"
      (record { event = "charge.success"; charge = record { reference = "ps_1"; amount = 500 } })
      (app bank)).1
    ≡ app bank
process_paystack_webhook_idle_example =
    process_paystack_webhook_idle tables providers 1 draw (app bank) "sx" "x"
      (record { event = "charge.success"; charge = record { reference = "ps_1"; amount = 500 } })
