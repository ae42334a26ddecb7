-- ===== src/Fees/Coherence.antt =====
-- The cache is invisible: calculations answer as if the table were read each time.
use vault_api.Prelude.{ℕ, ◌≡◌, arith, some, List, [], ◌∷◌, inl, inr, Option-cases}
use vault_api.Http.Action.{ok, Result-cases}
use vault_api.App.{App}
use vault_api.Orm.{Repository}
use vault_api.Transactions.Entity.{TransactionType}
use vault_api.Fees.Entity.{FeeConfig}
use vault_api.Fees.Calculation.{calculate_by}
use vault_api.Fees.{active_rules, cached, calculate, upsert, deactivate}

-- A call of the service, at its time. Seeding is not among them.
pub data Call : Type 0 where
  calculation : ℕ → TransactionType → ℕ → Call
  new_rule : FeeConfig → Call
  deactivation : ℕ → Call

module _ {Db : Type 0} (fees : Repository FeeConfig Db) where
  -- The state after a call, returned or thrown.
  abbrev after : Call → App Db → App Db
  after (calculation now type amount) s = (calculate fees now type amount s).1
  after (new_rule config) s = (upsert fees config s).1
  after (deactivation id) s = (deactivate fees id s).1

  abbrev pub after_all : List Call → App Db → App Db
  after_all [] s = s
  after_all (c ∷ calls) s = after_all calls (after c s)

  -- What is cached is what the table holds.
  abbrev pub IsCoherent : App Db → Type 0
  IsCoherent s =
      (rules : List FeeConfig) → s.fee_cache ≡ some rules → rules ≡ active_rules fees s.db

  after-IsCoherent : (c : Call) (s : App Db) → IsCoherent s → IsCoherent (after c s)
  unfolding calculate upsert deactivate
  after-IsCoherent (calculation now type amount) s coherent rules h =
      elim (Option-cases (cached fees now s)) [
        | inl stale ↦ ground arith
        | inr (kept, fresh) ↦ ground (arith, coherent rules)
      ]
  after-IsCoherent (new_rule config) s coherent rules h =
      elim (Result-cases (fees.save config s.db)) [
        | inl (db', saved) ↦ absurd (ground arith)
        | inr (e, lost) ↦ absurd (ground arith)
      ]
  after-IsCoherent (deactivation id) s coherent rules h = absurd (ground arith)

  after_all-IsCoherent :
      (calls : List Call) (s : App Db) → IsCoherent s → IsCoherent (after_all calls s)
  after_all-IsCoherent [] s coherent = coherent
  after_all-IsCoherent (c ∷ calls) s coherent =
      after_all-IsCoherent calls (after c s) (after-IsCoherent c s coherent)

  -- After any calculations, new rules and deactivations, at whatever times they ran and however the
  -- database refused writes in them, a calculation through the cache gives what the rules in the table
  -- give, provided that what was cached at the start was what the table held.
  pub calculate-after_all :
      (calls : List Call) (s : App Db) (now : ℕ) (type : TransactionType) (amount : ℕ)
      → IsCoherent s
      → let s' = after_all calls s in
        (calculate fees now type amount s').0
        ≡ ok (calculate_by (active_rules fees s'.db) type amount)
  unfolding calculate
  calculate-after_all calls s now type amount coherent =
      let s' : App Db = after_all calls s in
      elim (Option-cases (cached fees now s')) [
        | inl stale ↦ ground arith
        | inr (rules, fresh) ↦ ground (arith, after_all-IsCoherent calls s coherent rules)
      ]
