-- ===== src/Wallets/Spending.antt =====
-- The limits on what a wallet spends.
use vault_api.Prelude.{
  ℕ, String, ◌+◌, ◌≤◌, ◌<◌, ◌≡◌, refl, arith, Option, none, some, ltb, ◌==◌, nat_eq, if◌then◌else◌,
  inl, inr, Option-cases, Bool-cases,
}
use vault_api.Http.Action.{ok, Result-cases}
use vault_api.Orm.{Repository, IsLawful, row}
use vault_api.Orm.Laws.{row-id}
use vault_api.Wallets.Entity.{Wallet}
use vault_api.Wallets.{validate_spend_limit, record_spend, is_due, roll_over}

-- What counts as spent this month: nothing, if there is no date to reset at or it has passed.
abbrev pub spent : ℕ → Wallet → ℕ
spent now w = elim w.spend_reset_date [
  | none ↦ 0
  | some date ↦ if ltb date now then 0 else w.monthly_spend
]

-- The wallet after the monthly reset, if that was due.
abbrev pub rolled : (ℕ → ℕ) → ℕ → Wallet → Wallet
rolled next_month now w =
    if is_due now w.spend_reset_date
    then record w { monthly_spend = 0; spend_reset_date = some (next_month now) }
    else w

module _ {Db : Type 0} (wallets : Repository Wallet Db) (L : IsLawful (λ w. w.id) wallets)
    (naira : ℕ → String) (next_month : ℕ → ℕ) where
  abbrev pub wallet : ℕ → Db → Option Wallet
  wallet = row (λ w. w.id) wallets

  roll_over-ok :
      (now i : ℕ) (db db' : Db) (w w' : Wallet)
      → wallet i db ≡ some w
      → roll_over wallets next_month now w db ≡ (ok w', db')
      → (w' ≡ rolled next_month now w) × (wallet i db' ≡ some w')
  unfolding roll_over
  roll_over-ok now i db db' w w' found h = elim (Bool-cases (is_due now w.spend_reset_date)) [
    | inl due ↦ ground (
      arith,
      row-id (λ w. w.id) wallets L i db w found,
      L.row-save (record w { monthly_spend = 0; spend_reset_date = some (next_month now) }) db db'
          i,
    )
    | inr not_due ↦ ground arith
  ]

  -- A spend that is let through keeps to both limits, and what is stored is the wallet after the
  -- month's reset.
  pub validate_spend_limit-ok :
      (now i x : ℕ) (db db' : Db)
      → validate_spend_limit wallets naira next_month now i x db ≡ (ok tt, db')
      → (w : Wallet) × (wallet i db ≡ some w)
        × (x ≤ w.single_transaction_limit)
        × (spent now w + x ≤ w.monthly_limit)
        × (wallet i db' ≡ some (rolled next_month now w))
  unfolding validate_spend_limit
  validate_spend_limit-ok now i x db db' h = elim (Option-cases (wallet i db)) [
    | inl missing ↦ absurd (ground arith)
    | inr (w, found) ↦ elim (Result-cases (roll_over wallets next_month now w db).0) [
      | inl (c, rolling) ↦
          let (is_rolled, stored) =
            roll_over-ok now i db (roll_over wallets next_month now w db).1 w c found
              (ground arith) in
          (w, found, ground arith, ground (arith, is_rolled), ground (arith, is_rolled, stored))
      | inr (e, stopped) ↦ absurd (ground arith)
    ]
  ]

  -- A spend above the limit of one transaction is refused and nothing is written.
  pub validate_spend_limit_large :
      (now i x : ℕ) (db : Db) (w : Wallet)
      → wallet i db ≡ some w
      → w.single_transaction_limit < x
      → (validate_spend_limit wallets naira next_month now i x db).1 ≡ db
  unfolding validate_spend_limit
  validate_spend_limit_large now i x db w found large = ground arith

  -- A spend that is let through and recorded keeps the month's total within the limit, and adds the
  -- amount to what was spent this month.
  pub record_spend-validate_spend_limit :
      (now i x : ℕ) (db db' db'' : Db)
      → validate_spend_limit wallets naira next_month now i x db ≡ (ok tt, db')
      → record_spend wallets i x db' ≡ (ok tt, db'')
      → (w w' : Wallet) × (wallet i db ≡ some w)
        × (wallet i db'' ≡ some w')
        × (w'.monthly_spend ≡ spent now w + x)
        × (w'.monthly_spend ≤ w'.monthly_limit)
  unfolding record_spend
  record_spend-validate_spend_limit now i x db db' db'' h g =
      let (w, found, single, monthly, stored) = validate_spend_limit-ok now i x db db' h in
      let before : Wallet = rolled next_month now w in
      let after : Wallet = record before { monthly_spend = before.monthly_spend + x } in
      let key : before.id ≡ i = row-id (λ w. w.id) wallets L i db' before stored in
      let now_is : wallet i db'' ≡ some after = ground (
        arith,
        stored,
        key,
        L.row-update (λ w. w.id == i) (λ w. record w { monthly_spend = w.monthly_spend + x }) db' i
            (λ _. refl),
      ) in
      (w, after, found, now_is, ground arith, ground (arith, monthly))
