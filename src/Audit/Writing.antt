-- ===== src/Audit/Writing.antt =====
-- How `AuditService` writes an entry: `saveWithRetry`. The answers of the database are a parameter,
-- one for each attempt, counted from 0.
-- Source: src/audit/audit.service.ts.
use vault_api.Prelude.{
  ℕ, zero, suc, ◌+◌, ◌*◌, ◌^◌, ◌≤◌, ◌<◌, ◌≡◌, arith, Bool, true, false, List, [], ◌∷◌, ltb,
  if◌then◌else◌, ◌⊎◌, inl, inr, Bool-cases,
}

abbrev pub max_retries : ℕ
max_retries = 3

abbrev pub retry_delay_ms : ℕ
retry_delay_ms = 100

-- What becomes of an entry: the pauses before each further attempt, and whether it is stored.
pub data Written : Type 0 where
  saved given_up : Written

-- `left` bounds the recursion; `max_retries + 1` rounds are enough.
unfoldable pub save_with_retry : (ℕ → Bool) → ℕ → ℕ → List ℕ × Written
save_with_retry accepts zero attempt = ([], given_up)
save_with_retry accepts (suc left) attempt =
    let (pauses, end_) = save_with_retry accepts left (attempt + 1) in
    if accepts attempt
    then ([], saved)
    else if ltb attempt max_retries
    then (retry_delay_ms * 2 ^ attempt ∷ pauses, end_)
    else ([], given_up)

none_accepted :
    (accepts : ℕ → Bool)
    → accepts 0 ≡ false
    → accepts 1 ≡ false
    → accepts 2 ≡ false
    → accepts 3 ≡ false
    → (k : ℕ) → k < 4
    → accepts k ≡ false
none_accepted accepts a b c d zero h = a
none_accepted accepts a b c d (suc zero) h = b
none_accepted accepts a b c d (suc (suc zero)) h = c
none_accepted accepts a b c d (suc (suc (suc zero))) h = d
none_accepted accepts a b c d (suc (suc (suc (suc k)))) h = absurd (omega (arith, h))

-- The entry is written if and only if one of the first four attempts is accepted; if none is, the
-- pauses were 100, 200 and 400 milliseconds.
pub save_with_retry_verdict :
    (accepts : ℕ → Bool) (left : ℕ)
    → 4 ≤ left
    → ((save_with_retry accepts left 0).1 ≡ saved × ((k : ℕ) × (k < 4) × (accepts k ≡ true)))
      ⊎ ((save_with_retry accepts left 0 ≡ (100 ∷ 200 ∷ 400 ∷ [], given_up))
          × ((k : ℕ) → k < 4 → accepts k ≡ false))
unfolding save_with_retry
save_with_retry_verdict accepts (suc (suc (suc (suc left)))) enough =
    elim (Bool-cases (accepts 0)) [
      | inl yes_0 ↦ inl (ground arith, (0, omega arith, yes_0))
      | inr no_0 ↦ elim (Bool-cases (accepts 1)) [
        | inl yes_1 ↦ inl (ground arith, (1, omega arith, yes_1))
        | inr no_1 ↦ elim (Bool-cases (accepts 2)) [
          | inl yes_2 ↦ inl (ground arith, (2, omega arith, yes_2))
          | inr no_2 ↦ elim (Bool-cases (accepts 3)) [
            | inl yes_3 ↦ inl (ground arith, (3, omega arith, yes_3))
            | inr no_3 ↦ inr (ground arith, none_accepted accepts no_0 no_1 no_2 no_3)
          ]
        ]
      ]
    ]
save_with_retry_verdict accepts left enough = absurd (omega arith)
