-- ===== src/Fees/Cache.antt =====
-- What the cache may and may not hide.
use vault_api.Prelude.{
  ℕ, ◌+◌, ◌<◌, ◌≡◌, ◌≢◌, ◌↔◌, ◌⊎◌, inl, inr, none, List, [], ◌∷◌, arith, Among, ◌==◌, nat_eq,
  Option-cases,
}
use mathlib.Core.Path.{refl, subst}
use vault_api.Orm.Laws.{row-id}
use vault_api.Http.Action.{ok}
use vault_api.App.{App}
use vault_api.Orm.{Repository, IsLawful, row}
use vault_api.Transactions.Entity.{TransactionType}
use vault_api.Fees.Entity.{FeeConfig, active, inactive, fee_status_eq}
use vault_api.Fees.Calculation.{FeeCalculation, calculate_by, sort_by_priority, insert_by_priority}
use vault_api.Fees.{active_rules, cached, get_active_rules, calculate, deactivate}

Among-insert_by_priority :
    (q r : FeeConfig) (rules : List FeeConfig)
    → Among q (insert_by_priority r rules) ↔ ((r ≡ q) ⊎ Among q rules)
unfolding insert_by_priority
Among-insert_by_priority q r [] = ground arith
Among-insert_by_priority q r (x ∷ rules) = ground (arith, Among-insert_by_priority q r rules)

-- Sorting loses no rule and adds none.
pub Among-sort_by_priority :
    (q : FeeConfig) (rules : List FeeConfig) → Among q (sort_by_priority rules) ↔ Among q rules
unfolding sort_by_priority
Among-sort_by_priority q [] = ground arith
Among-sort_by_priority q (x ∷ rules) =
    ground
      (arith, Among-insert_by_priority q x (sort_by_priority rules), Among-sort_by_priority q rules)

module _ {Db : Type 0} (fees : Repository FeeConfig Db) where
  -- A calculation changes nothing but the cache.
  pub calculate-db :
      (now : ℕ) (type : TransactionType) (amount : ℕ) (s : App Db)
      → ((calculate fees now type amount s).1.db ≡ s.db)
        × ((calculate fees now type amount s).1.audit ≡ s.audit)
        × ((calculate fees now type amount s).1.events ≡ s.events)
        × ((calculate fees now type amount s).1.attempts ≡ s.attempts)
  unfolding calculate
  calculate-db now type amount s = ground arith

  -- A calculation always gives a fee.
  pub calculate_total :
      (now : ℕ) (type : TransactionType) (amount : ℕ) (s : App Db)
      → (c : FeeCalculation) × ((calculate fees now type amount s).0 ≡ ok c)
  unfolding calculate
  calculate_total now type amount s = elim (Option-cases (cached fees now s)) [
    | inl stale ↦ (calculate_by (active_rules fees s.db) type amount, ground arith)
    | inr (rules, fresh) ↦ (calculate_by rules type amount, ground arith)
  ]

  -- Within five minutes of a refill the rules are those of the refill, whatever has been written to
  -- the table by other means in between.
  pub get_active_rules_again :
      (now later : ℕ) (s : App Db) (db' : Db)
      → cached fees now s ≡ none
      → later < now + 300000
      → let s' = (get_active_rules fees now s).1 in
        (get_active_rules fees later (record s' { db = db' })).0 ≡ ok (active_rules fees s.db)
  unfolding get_active_rules
  get_active_rules_again now later s db' stale soon = ground arith

  module _ (L : IsLawful (λ r. r.id) fees) where
    abbrev switch_off : ℕ → Db → Db
    switch_off i = fees.update (λ r. r.id == i) (λ r. record r { status = inactive })

    -- After the update the active rules are those that were not switched off.
    active_rules-switch_off :
        (i : ℕ) (db : Db) (r : FeeConfig)
        → Among r (active_rules fees (switch_off i db))
        → (r.id ≢ i) × (r.status ≡ active)
    unfolding active_rules
    active_rules-switch_off i db r m =
        let found =
          (L.among-find (λ q. q.status == active) (switch_off i db) r).0
            ((Among-sort_by_priority r _).0 m) in
        let updated =
          L.row-update (λ q. q.id == i) (λ q. record q { status = inactive }) db r.id (λ _. refl) in
        elim (Option-cases (row (λ q. q.id) fees r.id db)) [
          | inl gone ↦ absurd (ground (arith, found.0, found.1, updated))
          | inr (q, was) ↦
              ground (arith, found.0, found.1, updated, row-id (λ q. q.id) fees L r.id db q was)
        ]

    -- Once a rule is deactivated, the rules in force are active ones and it is not among them, however
    -- fresh the cache was.
    pub get_active_rules-deactivate :
        (i now : ℕ) (s s' s'' : App Db) (rules : List FeeConfig)
        → deactivate fees i s ≡ (ok tt, s')
        → get_active_rules fees now s' ≡ (ok rules, s'')
        → (r : FeeConfig) → Among r rules
        → (r.id ≢ i) × (r.status ≡ active)
    unfolding deactivate get_active_rules
    get_active_rules-deactivate i now s s' s'' rules h g r m =
        let reread : rules ≡ active_rules fees (switch_off i s.db) = ground arith in
        active_rules-switch_off i s.db r (subst (Among r) reread m)
