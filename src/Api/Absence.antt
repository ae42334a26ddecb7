-- ===== src/Api/Absence.antt =====
-- What an owner finds after any number of requests that were not theirs.
use mathlib.Core.Path.{subst}
use vault_api.Prelude.{ℕ, ◌≡◌, ◌≢◌, refl, ◌∙◌, sym, arith, List, [], ◌∷◌, some, inl, inr, nat_eq}
use vault_api.Prelude.Int.{◌≤ℤ◌}
use vault_api.App.{App}
use vault_api.Orm.Laws.{row-id}
use vault_api.Accounts.Entity.{Account}
use vault_api.Accounts.Debit.{account}
use vault_api.Api.{Services, respond}
use vault_api.Api.Effect.{AreWired}
use vault_api.Api.Safety.{Incoming, answer_all}
use vault_api.Api.Owners.{StillHolds, IsSignedBy, respond-StillHolds}

module _ {Db : Type 0} (svc : Services Db) where
  -- No request carries a good token of the account's owner when it arrives, and the keys that are
  -- drawn for new rows are not the account's.
  abbrev pub IsAbsent : ℕ → ℕ → List Incoming → App Db → Type 0
  IsAbsent i owner [] s = Unit {0}
  IsAbsent i owner (r ∷ requests) s =
      (r.draws.id ≢ i)
      × ¬ (IsSignedBy svc owner r.draws.now r.token s.db)
      × IsAbsent i owner requests (respond svc r.draws r.token r.endpoint s).1

  holds_on :
      (W : AreWired svc) (requests : List Incoming) (s : App Db) (i owner : ℕ) (a : Account)
      → a.id ≡ i
      → a.user_id ≡ owner
      → account svc.tables.accounts i s.db ≡ some a
      → IsAbsent i owner requests s
      → (a' : Account) × (account svc.tables.accounts i (answer_all svc requests s).db ≡ some a')
        × (a'.user_id ≡ owner)
        × (a.balance ≤ℤ a'.balance)
  holds_on W [] s i owner a key theirs found absent = (a, found, theirs, omega arith)
  holds_on W (r ∷ requests) s i owner a key theirs found (other_key, unsigned, absent) =
      let s' : App Db = (respond svc r.draws r.token r.endpoint s).1 in
      let found_by_key : account svc.tables.accounts a.id s.db ≡ some a =
        subst (λ j. account svc.tables.accounts j s.db ≡ some a) (sym key) found in
      elim (respond-StillHolds svc W r.draws r.token r.endpoint s a found_by_key
        (λ same. other_key (same ∙ key))) [
          | inr signed ↦
              absurd
                (unsigned (subst (λ o. IsSignedBy svc o r.draws.now r.token s.db) theirs signed))
          | inl (a', found', same_owner, more) ↦
              let there : account svc.tables.accounts i s'.db ≡ some a' =
                subst (λ j. account svc.tables.accounts j s'.db ≡ some a') key found' in
              let (last, last_there, kept, grown) =
                holds_on W requests s' i owner a'
                  (row-id (λ a. a.id) svc.tables.accounts W.tables.accounts i s'.db a' there)
                  (same_owner ∙ theirs) there absent in
              (last, last_there, kept, omega (arith, more, grown))
        ]

  -- However many requests arrive from others, to whatever endpoints, with their own tokens or none: as
  -- long as none of them carries a good token of the owner, the account is still there, the same
  -- user's, with at least what it held.
  pub answer_all-StillHolds :
      (W : AreWired svc) (requests : List Incoming) (s : App Db) (a : Account)
      → account svc.tables.accounts a.id s.db ≡ some a
      → IsAbsent a.id a.user_id requests s
      → StillHolds svc a (answer_all svc requests s).db
  answer_all-StillHolds W requests s a = holds_on W requests s a.id a.user_id a refl refl
