-- ===== src/Transactions/Idempotency.antt =====
-- `IdempotencyGuard`, which stands before the routes that move money. `is_uuid` is the test of the
-- header against the regular expression of a UUID.
-- Source: src/common/guards/idempotency.guard.ts.
use vault_api.Prelude.{
  ℕ, String, ◌+◌, ◌*◌, ◌<◌, ◌≡◌, ◌≢◌, arith, Bool, true, ◌&&◌, Option, none, some, ltb, ◌==◌,
  nat_eq, string_eq, option_eq, if◌then◌else◌, inl, inr, Option-cases,
}
use vault_api.Http.Exception.{conflict_over}
use vault_api.Http.Action.{ok, err, Action}
use vault_api.App.{App}
use vault_api.Users.Entity.{present}
use vault_api.Transactions.Entity.{Transaction, InitiateTransferDto}
use vault_api.Transactions.{Tables, Draw}
use vault_api.Transactions.Lawful.{AreLawful}
use vault_api.Transactions.Transfer.{transfer}
use vault_api.Transactions.Transfer.Effect.{transfer-ok}

-- `24 * 60 * 60 * 1000`
abbrev day_ms : ℕ
day_ms = 24 * 60 * 60 * 1000

module _ {Db : Type 0} (t : Tables Db) (is_uuid : String → Bool) where
  -- Whether a transaction was made under the key within the last day.
  abbrev pub is_recent : ℕ → String → Transaction → Bool
  is_recent now key x = x.metadata == some key && ltb now (x.created_at + day_ms)

  -- The key that the request carries on with, or the refusal of a repeated one.
  unfoldable pub can_activate : ℕ → Option String → Action Db (Option String)
  can_activate now header db = elim (present header) [
    | none ↦ (ok none, db)
    | some key ↦
        if is_uuid key
        then elim (t.transactions.find_one (is_recent now key) db) [
          | some existing ↦ (
            err (
                conflict_over "Duplicate request — this idempotency key was already used"
                  existing.id existing.reference),
            db,
          )
          | none ↦ (ok (some key), db)
        ]
        else (ok none, db)
  ]

  -- For a day after a transfer under a key, a request with the same key is refused, over a transaction
  -- that has the key.
  pub can_activate-transfer :
      (L : AreLawful t) (draw : Draw) (user_id : ℕ) (dto : InitiateTransferDto) (key : String)
      (s s' : App Db) (tx : Transaction) (now : ℕ)
      → key ≢ ""
      → is_uuid key ≡ true
      → transfer t draw user_id dto (some key) s ≡ (ok tx, s')
      → now < draw.now + 86400000
      → (other : Transaction) × (other.metadata ≡ some key)
        × (can_activate now (some key) s'.db ≡ (
          err (
              conflict_over "Duplicate request — this idempotency key was already used" other.id
                other.reference),
          s'.db,
        ))
  unfolding can_activate
  can_activate-transfer L draw user_id dto key s s' tx now filled uuid done soon =
      let d = transfer-ok t L draw user_id dto (some key) s s' tx done in
      elim (Option-cases (t.transactions.find_one (is_recent now key) s'.db)) [
        | inr (other, found) ↦
            let (recent, _) = L.transactions.find_one-some (is_recent now key) s'.db other found in
            (other, ground (arith, recent), ground arith)
        | inl missing ↦
            let unseen = L.transactions.find_one-none (is_recent now key) s'.db tx missing in
            absurd (ground (arith, unseen d.stored, d.is_done))
      ]
