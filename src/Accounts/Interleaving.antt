-- ===== src/Accounts/Interleaving.antt =====
-- Two calls of `debitAccount` on one account, cut at their awaits: each reads the row and decides, and
-- later writes what it has computed from the row it read. Neither the read nor the database
-- transaction around it takes a lock, so another call may run in between.
-- Source: src/accounts/accounts.service.ts.
use vault_api.Prelude.{
  ℕ, ◌≡◌, Option, none, some, List, [], ◌∷◌, arith, ◌!=◌, nat_eq, if◌then◌else◌,
}
use vault_api.Prelude.Int.{pos, ◌≤ℤ◌, ltb_ℤ}
use vault_api.Http.Exception.{not_found, bad_request}
use vault_api.Http.Action.{Result, ok, err}
use vault_api.Orm.{Repository, IsLawful}
use vault_api.Orm.Laws.{row-id}
use vault_api.Accounts.Entity.{Account, active, status_eq}
use vault_api.Accounts.{debit_account}
use vault_api.Accounts.Debit.{account, debited}

-- Where a call stands.
pub data Progress : Type 0 where
  waiting : Progress
  has_read : Account → Progress
  finished : Result (Unit {0}) → Progress

pub data Turn : Type 0 where
  first second : Turn

pub record Race (Db : Type 0) : Type 0 where
  pub one : Progress
  pub two : Progress
  pub db : Db

module _ {Db : Type 0} (accounts : Repository Account Db) where
  -- The part of the method up to the computation of the new balances.
  abbrev decide : ℕ → Option Account → Progress
  decide amount none = finished (err (not_found "Source account not found"))
  decide amount (some a) =
      if a.status != active
      then finished (err (bad_request "Account is not active"))
      else if ltb_ℤ a.balance (pos amount)
      then finished (err (bad_request "Insufficient funds"))
      else has_read a

  -- The next part of a call: of the read, of the write, or nothing any more.
  unfoldable pub advance : ℕ → ℕ → Progress → Db → Progress × Db
  advance i amount waiting db = (decide amount (account accounts i db), db)
  advance i amount (has_read a) db = elim (accounts.save (debited amount a) db) [
    | ok db' ↦ (finished (ok tt), db')
    | err e ↦ (finished (err e), db)
  ]
  advance i amount (finished r) db = (finished r, db)

  -- A debit of `x` and one of `y`, both of the account `i`, that take turns.
  unfoldable pub race : ℕ → ℕ → ℕ → List Turn → Race Db → Race Db
  race i x y [] s = s
  race i x y (first ∷ turns) s =
      let (p, db) = advance i x s.one s.db in race i x y turns (record s { one = p; db = db })
  race i x y (second ∷ turns) s =
      let (p, db) = advance i y s.two s.db in race i x y turns (record s { two = p; db = db })

  abbrev pub start : Db → Race Db
  start db = record { one = waiting; two = waiting; db = db }

  -- The two parts of a call, with nothing in between, are the method.
  pub advance-debit_account :
      (i x : ℕ) (db : Db)
      → let (p, db') = advance i x waiting db in
        advance i x p db'
        ≡ (finished (debit_account accounts i x db).0, (debit_account accounts i x db).1)
  unfolding advance debit_account
  advance-debit_account i x db = ground arith

  abbrev one_after_the_other : List Turn
  one_after_the_other = first ∷ first ∷ second ∷ second ∷ []

  abbrev pub overlapping : List Turn
  overlapping = first ∷ second ∷ first ∷ second ∷ []

  -- Two calls that run one after the other are two calls of the method: each ends as its call does,
  -- and leaves what its call leaves, errors and refused writes included.
  pub race-debit_account :
      (i x y : ℕ) (db : Db)
      → let r = debit_account accounts i x db in
        let q = debit_account accounts i y r.1 in
        race i x y one_after_the_other (start db)
        ≡ record { one = finished r.0; two = finished q.0; db = q.1 }
  unfolding race
  race-debit_account i x y db = ground (
    arith,
    advance-debit_account i x db,
    advance-debit_account i y (debit_account accounts i x db).1,
  )

  module _ (L : IsLawful (λ a. a.id) accounts) where
    -- If both calls read before either writes, the first debit is lost: each of the two is let through
    -- if the balance covers it alone, both return, and only the second is taken off the account. The
    -- two writes are accepted by the database.
    pub race_lost_update :
        (i x y : ℕ) (db db' db'' : Db) (a : Account)
        → account accounts i db ≡ some a
        → a.status ≡ active
        → pos x ≤ℤ a.balance
        → pos y ≤ℤ a.balance
        → accounts.save (debited x a) db ≡ ok db'
        → accounts.save (debited y a) db' ≡ ok db''
        → let end_ = race i x y overlapping (start db) in
          (end_.one ≡ finished (ok tt))
          × (end_.two ≡ finished (ok tt))
          × (account accounts i end_.db ≡ some (debited y a))
    unfolding race advance
    race_lost_update i x y db db' db'' a found live covers_x covers_y written rewritten =
        let is_asked = row-id (λ a. a.id) accounts L i db a found in
        let after = L.row-save (debited y a) db' db'' i rewritten in
        (ground arith, ground arith, ground arith)
