-- ===== src/Transactions/Retries.antt =====
-- Two requests for one transfer under one key, such as a client's retry, cut between `IdempotencyGuard`
-- and the handler: the guard looks for the key in the database, and the handler stores it there only
-- when its transaction commits. Another request may run in between.
-- Source: src/common/guards/idempotency.guard.ts, src/transactions/transactions.controller.ts.
use vault_api.Prelude.{
  ℕ, ◌+◌, String, ◌≡◌, ◌≢◌, ap, arith, Bool, true, Option, none, some, List, [], ◌∷◌, string_eq,
  nat_eq,
}
use mathlib.Core.Path.{subst}
use vault_api.Http.Action.{Result, ok, err}
use vault_api.App.{App, on_db}
use vault_api.Accounts.Entity.{Account}
use vault_api.Accounts.Debit.{account, debited}
use vault_api.Accounts.Interleaving.{Turn, first, second}
use vault_api.Auth.Guards.{Principal}
use vault_api.Transactions.Entity.{Transaction, InitiateTransferDto}
use vault_api.Transactions.{Draw, Tables}
use vault_api.Transactions.Lawful.{AreLawful}
use vault_api.Transactions.Transfer.{transfer}
use vault_api.Transactions.Transfer.Effect.{transfer-ok}
use vault_api.Transactions.Idempotency.{is_recent, can_activate}
use vault_api.Transactions.Controller as TransactionsController

-- Where a request stands.
pub data Stage : Type 0 where
  arrived : Stage
  let_in : Option String → Stage
  answered : Result Transaction → Stage

pub record Retry (Db : Type 0) : Type 0 where
  pub one : Stage
  pub two : Stage
  pub app : App Db

abbrev pub both_arrived : {Db : Type 0} → App Db → Retry Db
both_arrived s = record { one = arrived; two = arrived; app = s }

-- One request after the other, and both guards before either handler.
abbrev pub in_turn : List Turn
in_turn = first ∷ first ∷ second ∷ second ∷ []

abbrev pub guards_first : List Turn
guards_first = first ∷ second ∷ first ∷ second ∷ []

module _ {Db : Type 0} (t : Tables Db) (is_uuid : String → Bool) (user : Principal)
    (dto : InitiateTransferDto) (header : Option String) where
  -- The next part of a request: the guard, the handler, or nothing any more.
  unfoldable pub proceed : Draw → Stage → App Db → Stage × App Db
  proceed draw arrived s =
      let (r, s') = on_db (can_activate t is_uuid draw.now header) s in
      elim r [ ok key ↦ (let_in key, s') | err e ↦ (answered (err e), s') ]
  proceed draw (let_in key) s = let (r, s') = transfer t draw user.id dto key s in (answered r, s')
  proceed draw (answered r) s = (answered r, s)

  -- Two requests that take turns, each with what the environment draws for it.
  unfoldable pub retried : Draw → Draw → List Turn → Retry Db → Retry Db
  retried x y [] r = r
  retried x y (first ∷ turns) r =
      let (p, s) = proceed x r.one r.app in retried x y turns (record r { one = p; app = s })
  retried x y (second ∷ turns) r =
      let (p, s) = proceed y r.two r.app in retried x y turns (record r { two = p; app = s })

  -- The two parts of a request, with nothing in between, are its route.
  proceed-handle :
      (sorted : List Transaction → List Transaction) (draw : Draw) (s : App Db)
      → let (p, s') = proceed draw arrived s in
        let r =
          TransactionsController.handle t is_uuid sorted draw
            (some user)
            (TransactionsController.transfer header dto)
            s in
        proceed draw p s' ≡ (answered r.0, r.1)
  unfolding proceed TransactionsController.handle can_activate
  proceed-handle sorted draw s = ground arith

  module _ (key : String) (is_header : header ≡ some key) (filled : key ≢ "")
      (uuid : is_uuid key ≡ true) (L : AreLawful t) where
    unseen-let_in :
        (draw : Draw) (s : App Db)
        → t.transactions.find_one (is_recent t is_uuid draw.now key) s.db ≡ none
        → proceed draw arrived s ≡ (let_in (some key), s)
    unfolding proceed can_activate
    unseen-let_in draw s unseen = ground (arith, is_header)

    -- Nothing but the lookup keeps a transfer from being made twice: if the guards of two requests
    -- under a key that is not in the database both run before either handler, both are let in, and
    -- when both transfers go through, the amount and a fee are taken off the source twice.
    pub overlapping_pays_twice :
        (x y : Draw) (s s' s'' : App Db) (tx tx' : Transaction)
        → t.transactions.find_one (is_recent t is_uuid x.now key) s.db ≡ none
        → t.transactions.find_one (is_recent t is_uuid y.now key) s.db ≡ none
        → transfer t x user.id dto (some key) s ≡ (ok tx, s')
        → transfer t y user.id dto (some key) s' ≡ (ok tx', s'')
        → (retried x y guards_first (both_arrived s)
            ≡ record { one = answered (ok tx); two = answered (ok tx'); app = s'' })
          × ((a : Account) × (account t.accounts dto.source_account_id s.db ≡ some a)
              × (account t.accounts dto.source_account_id s''.db
                  ≡ some (debited (dto.amount + tx'.fee) (debited (dto.amount + tx.fee) a))))
    unfolding retried proceed
    overlapping_pays_twice x y s s' s'' tx tx' unseen unseen' paid paid_again =
        let d = transfer-ok t L x user.id dto (some key) s s' tx paid in
        let d' = transfer-ok t L y user.id dto (some key) s' s'' tx' paid_again in
        let fee : tx.fee ≡ d.quote.fee = ap (λ (x : Transaction). x.fee) d.is_done in
        let fee' : tx'.fee ≡ d'.quote.fee = ap (λ (x : Transaction). x.fee) d'.is_done in
        let i : ℕ = dto.source_account_id in
        let between : account t.accounts i s'.db ≡ some (debited (dto.amount + tx.fee) d.src) =
          ground (arith, d.moved.accounts_after i, d.is_source, fee) in
        let source : d'.src ≡ debited (dto.amount + tx.fee) d.src =
          ground (arith, between, d'.moved.source_was, d'.is_source) in
        (
          ground (arith, unseen-let_in x s unseen, unseen-let_in y s unseen'),
          (
            d.src,
            subst (λ i. account t.accounts i s.db ≡ some d.src) d.is_source d.moved.source_was,
            ground (arith, d'.moved.accounts_after i, d'.is_source, fee', source),
          ),
        )
