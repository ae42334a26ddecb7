-- ===== src/Transactions/Bank/Owners.antt =====
-- Who can make funds fall: what the bank's steps say of one account, and with that of the service.
use mathlib.Core.Option
use vault_api.Prelude.{
  ℕ, ◌≡◌, inl, inr, Bool, true, false, some, List, [], ◌∷◌, arith, ◌==◌, nat_eq, Option-cases, ◌∙◌,
  ap, Bool-cases, refl,
}
use vault_api.Prelude.Int.{◌≤ℤ◌, int_laws}
use vault_api.App.{App}
use vault_api.Accounts.Entity.{Account}
use vault_api.Accounts.Debit.{account}
use vault_api.Transactions.{Tables}
use vault_api.Transactions.Lawful.{AreLawful}
use vault_api.Transactions.Ledger.{
  Request, transfer_request, deposit_request, withdraw_request, serve_all,
}
use vault_api.Transactions.Bank.{
  Holding, Bank, more, Step, refused, transferred, deposited, withdrawn, Steps, stop, follow,
  holding, books, history,
}
use vault_api.Transactions.Bank.Refinement.{serve_all-Steps}

-- The user that asks for it; nobody in particular asks for a deposit.
abbrev pub IsBy : ℕ → Request → Type 0
IsBy user_id (transfer_request _ u _ _) = u ≡ user_id
IsBy user_id (deposit_request _ _) = ⊥
IsBy user_id (withdraw_request _ u _ _) = u ≡ user_id

-- None of the requests that were accepted is this user's.
abbrev pub NoneIsBy : ℕ → List (Request × Bool) → Type 0
NoneIsBy user_id [] = Unit {0}
NoneIsBy user_id ((r, false) ∷ run) = NoneIsBy user_id run
NoneIsBy user_id ((r, true) ∷ run) = ¬ (IsBy user_id r) × NoneIsBy user_id run

-- The account is still there, the same owner's, with no fewer funds.
abbrev pub NoPoorer : ℕ → Holding → Bank → Type 0
NoPoorer i h b = (h' : Holding) × (b i ≡ some h') × (h'.owner ≡ h.owner) × (h.funds ≤ℤ h'.funds)

pub Step-NoPoorer :
    (r : Request) (accepted : Bool) (b c : Bank) (i : ℕ) (h : Holding)
    → Step r accepted b c
    → b i ≡ some h
    → ¬ (IsBy h.owner r)
    → NoPoorer i h c
Step-NoPoorer r accepted b c i h (refused same) held other =
    (h, ground (arith, same i), refl, omega arith)
Step-NoPoorer (transfer_request draw u dto key) accepted b c i h
      (transferred k fee from to src dest apart owner pays one covers after) held other =
    elim (Bool-cases (i == k)) [
      | inl is_k ↦ (more dto.amount h, ground (arith, after i), refl, omega (int_laws))
      | inr not_k ↦ (h, ground (arith, after i), refl, omega arith)
    ]
Step-NoPoorer (deposit_request draw dto) accepted b c i h (deposited to dest after) held other =
    elim (Bool-cases (i == dto.account_id)) [
      | inl is_asked ↦ (more dto.amount h, ground (arith, after i), refl, omega (int_laws))
      | inr not_asked ↦ (h, ground (arith, after i), refl, omega arith)
    ]
Step-NoPoorer (withdraw_request draw u dto key) accepted b c i h
      (withdrawn from src owner pays covers after) held other =
    (h, ground (arith, after i), refl, omega arith)

Steps-NoPoorer :
    (run : List (Request × Bool)) (b c : Bank) (i : ℕ) (h : Holding)
    → Steps run b c
    → b i ≡ some h
    → NoneIsBy h.owner run
    → NoPoorer i h c
Steps-NoPoorer [] b c i h stop held others = (h, held, refl, omega arith)
Steps-NoPoorer ((r, false) ∷ run) b c i h (follow (refused same) steps) held others =
    Steps-NoPoorer run _ c i h steps (same i ∙ held) others
Steps-NoPoorer ((r, true) ∷ run) b c i h (follow step steps) held others =
    let (h', held', owner, funds) = Step-NoPoorer r true b _ i h step held others.0 in
    let (last, found, kept, more_funds) =
      Steps-NoPoorer run _ c i h' steps held' (rw owner others.1) in
    (last, found, kept ∙ owner, omega arith)

module _ {Db : Type 0} (t : Tables Db) (L : AreLawful t) where
  -- Nobody else can make an account poorer: whatever transfers, deposits and withdrawals are served,
  -- if none of those that were accepted was asked for by the account's owner, the account is still
  -- there, the same owner's, and its balance is at least what it was.
  pub serve_all_no_theft :
      (requests : List Request) (s : App Db) (i : ℕ) (a : Account)
      → account t.accounts i s.db ≡ some a
      → NoneIsBy a.user_id (history t requests s)
      → (a' : Account) × (account t.accounts i (serve_all t requests s).db ≡ some a')
        × (a'.user_id ≡ a.user_id)
        × (a.balance ≤ℤ a'.balance)
  serve_all_no_theft requests s i a found others =
      let after : Bank = books t (serve_all t requests s).db in
      let (h', held, owner, funds) =
        Steps-NoPoorer (history t requests s) (books t s.db) after i (holding a)
          (serve_all-Steps t L requests s) (ap (Option.map holding) found) others in
      elim (Option-cases (account t.accounts i (serve_all t requests s).db)) [
        | inl gone ↦ absurd (ground arith)
        | inr (a', there) ↦
            let same : h' ≡ holding a' = ground arith in (a', there, ground arith, ground arith)
      ]
