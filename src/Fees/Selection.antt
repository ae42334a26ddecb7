-- ===== src/Fees/Selection.antt =====
-- Which rule `calculate` takes.
use vault_api.Prelude.{
  ℕ, ◌≤◌, ◌≡◌, refl, ap, ◌↔◌, inl, inr, true, false, Option, none, some, List, [], ◌∷◌, arith, leb,
  Among, if◌then◌else◌, Option-cases,
}
use vault_api.Transactions.Entity.{TransactionType}
use vault_api.Fees.Entity.{FeeConfig}
use vault_api.Fees.Calculation.{
  applies, applicable, insert_by_priority, sort_by_priority, first, best_rule,
}

module _ (type : TransactionType) (amount_kobo : ℕ) where
  Among-applicable :
      (r : FeeConfig) (rules : List FeeConfig)
      → Among r (applicable type amount_kobo rules)
        ↔ (Among r rules × (applies type amount_kobo r ≡ true))
  unfolding applicable
  Among-applicable r [] = ground arith
  Among-applicable r (q ∷ rules) = ground (arith, Among-applicable r rules)

-- The head of a list after an insertion.
abbrev prevailing : FeeConfig → Option FeeConfig → FeeConfig
prevailing r none = r
prevailing r (some q) = if leb q.priority r.priority then r else q

first-insert_by_priority :
    (r : FeeConfig) (rules : List FeeConfig)
    → first (insert_by_priority r rules) ≡ some (prevailing r (first rules))
unfolding insert_by_priority
first-insert_by_priority r [] = ground arith
first-insert_by_priority r (q ∷ rules) = ground arith

abbrev IsTop : FeeConfig → List FeeConfig → Type 0
IsTop r rules = (q : FeeConfig) → Among q rules → q.priority ≤ r.priority

sort_by_priority_nil : (rules : List FeeConfig) → first (sort_by_priority rules) ≡ none → rules ≡ []
unfolding sort_by_priority
sort_by_priority_nil [] h = refl
sort_by_priority_nil (x ∷ rules) h =
    ground (arith, first-insert_by_priority x (sort_by_priority rules))

first-sort_by_priority :
    (r : FeeConfig) (rules : List FeeConfig)
    → first (sort_by_priority rules) ≡ some r
    → Among r rules × IsTop r rules
unfolding sort_by_priority
first-sort_by_priority r [] h = absurd (ground arith)
first-sort_by_priority r (x ∷ rules) h =
    let head = first-insert_by_priority x (sort_by_priority rules) in
    elim (Option-cases (first (sort_by_priority rules))) [
      | inl alone ↦
          let empty = sort_by_priority_nil rules alone in
          (ground (arith, head), λ q m. ground (arith, head, ap (Among q) empty))
      | inr (p, top_of_rest) ↦
          let (listed, top) = first-sort_by_priority p rules top_of_rest in
          (ground (arith, head), λ q m. ground (arith, head, top q))
    ]

-- The rule that `calculate` takes is listed, applies, and no other that applies has a higher priority.
pub best_rule-some :
    (type : TransactionType) (amount_kobo : ℕ) (rules : List FeeConfig) (r : FeeConfig)
    → best_rule type amount_kobo rules ≡ some r
    → Among r rules
      × (applies type amount_kobo r ≡ true)
      × ((q : FeeConfig)
          → Among q rules
          → applies type amount_kobo q ≡ true
          → q.priority ≤ r.priority)
unfolding best_rule
best_rule-some type amount_kobo rules r h =
    let (listed, top) = first-sort_by_priority r (applicable type amount_kobo rules) h in
    let (here, applied) = (Among-applicable type amount_kobo r rules).0 listed in
    (here, applied, λ q m a. top q ((Among-applicable type amount_kobo q rules).1 (m, a)))

-- No rule is taken only if none applies.
pub best_rule-none :
    (type : TransactionType) (amount_kobo : ℕ) (rules : List FeeConfig)
    → best_rule type amount_kobo rules ≡ none
    → (q : FeeConfig) → Among q rules
    → applies type amount_kobo q ≡ false
unfolding best_rule
best_rule-none type amount_kobo rules h q m = ground (
  arith,
  sort_by_priority_nil (applicable type amount_kobo rules) h,
  (Among-applicable type amount_kobo q rules).1,
)
