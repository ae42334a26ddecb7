-- ===== src/Tests/KycTests.antt =====
-- Documents handed in, approved, and looked at again.
use vault_api.Prelude.{◌≡◌, ◌≢◌, refl, none, some, List, [], ◌∷◌, nat_eq}
use vault_api.App.{App}
use vault_api.Orm.{row}
use vault_api.Orm.Lists.{list_repository, list_repository-IsLawful, list_repository-IsApart}
use vault_api.Accounts.Entity.{Account}
use vault_api.Users.Entity.{User, present}
use vault_api.Wallets.Entity.{Wallet}
use vault_api.Wallets.{new_wallet}
use vault_api.Kyc.Entity.{
  KycSubmission, nin, submitted, approved, rejected, SubmitKycDto, ReviewKycDto, approve, reject,
}
use vault_api.Kyc.{KycTables, submit, review, reviewed, new_submission}
use vault_api.Kyc.Review.{AreSeparate, verdict, outcome, with_status, review-ok}
use vault_api.Tests.PinTests.{ada}
use vault_api.Tests.MoneyTests

record Office : Type 0 where
  submission_rows : List KycSubmission
  user_rows : List User
  account_rows : List Account
  wallet_rows : List Wallet

abbrev t : KycTables Office
t = record {
  submissions =
      list_repository (λ k. k.id) (λ db. db.submission_rows)
        (λ l db. record db { submission_rows = l });
  users = list_repository (λ u. u.id) (λ db. db.user_rows) (λ l db. record db { user_rows = l });
  accounts =
      list_repository (λ a. a.id) (λ db. db.account_rows) (λ l db. record db { account_rows = l });
  wallets =
      list_repository (λ w. w.id) (λ db. db.wallet_rows) (λ l db. record db { wallet_rows = l });
}

t-AreSeparate : AreSeparate t
t-AreSeparate = record {
  submissions = list_repository-IsLawful _ _ _ (λ l db. refl);
  users = list_repository-IsLawful _ _ _ (λ l db. refl);
  wallets_submissions = list_repository-IsApart _ _ _ _ _ _ (λ l db. refl);
  wallets_users = list_repository-IsApart _ _ _ _ _ _ (λ l db. refl);
  users_submissions = list_repository-IsApart _ _ _ _ _ _ (λ l db. refl);
  submissions_users = list_repository-IsApart _ _ _ _ _ _ (λ l db. refl);
}

abbrev papers : SubmitKycDto
papers = record {
  document_type = nin;
  document_number = "12345678901";
  document_front_url = none;
  document_back_url = none;
  selfie_url = none;
}

abbrev fresh : App Office
fresh = record {
  db = record {
    submission_rows = [];
    user_rows = ada ∷ [];
    account_rows = MoneyTests.ada ∷ [];
    wallet_rows = new_wallet 5 1 ∷ [];
  };
  fee_cache = none;
  fee_cache_expiry = 0;
  attempts = [];
  audit = [];
  events = [];
}

abbrev handed_in : App Office
handed_in = (submit t 20 7 papers fresh).1

abbrev first_papers : KycSubmission
first_papers = new_submission 20 7 papers

abbrev yes_please : ReviewKycDto
yes_please = record { decision = approve; rejection_reason = none }

abbrev judged : KycSubmission
judged = reviewed 99 1 yes_please first_papers

abbrev cleared : App Office
cleared = (review t 99 20 1 yes_please handed_in).1

review-ok_example :
    (old : KycSubmission) × (row (λ k. k.id) t.submissions 20 handed_in.db ≡ some old)
    × (old.status ≢ approved)
    × (approve ≡ reject → present none ≢ none)
    × (judged ≡ record old {
      status = verdict t t-AreSeparate approve;
      rejection_reason = none;
      reviewed_by = some 1;
      reviewed_at = some 99;
    })
    × (row (λ k. k.id) t.submissions 20 cleared.db ≡ some judged)
    × (row (λ u. u.id) t.users old.user_id cleared.db
        ≡ with_status t t-AreSeparate
            (outcome t t-AreSeparate approve)
            (row (λ u. u.id) t.users old.user_id handed_in.db))
unfolding review list_repository submit nat_eq vault_api.Kyc.Entity.KycSubmissionStatus-discrete
review-ok_example = review-ok t t-AreSeparate 99 20 1 yes_please handed_in cleared judged refl
