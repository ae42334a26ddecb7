-- ===== src/Transactions/Ledger.antt =====
-- The books over whole transactions: money is neither made nor lost by a transfer, and no balance
-- ever becomes negative.
use vault_api.Prelude.{
  ℕ, ◌+◌, ◌≡◌, ◌≢◌, ap, Option, some, String, arith, nat_eq, inl, inr, List, [], ◌∷◌,
}
use vault_api.Prelude.Int.{pos, ◌+ℤ◌, int_laws}
use vault_api.Http.Action.{ok, Result-cases}
use vault_api.App.{App}
use vault_api.Accounts.Entity.{Account}
use vault_api.Accounts.Debit.{account, debited, credited}
use vault_api.Accounts.Sound.{IsSound, debited-IsBalanced, credited-IsBalanced}
use vault_api.Transactions.Entity.{Transaction, InitiateTransferDto, DepositDto, WithdrawalDto}
use vault_api.Transactions.{Draw, Tables}
use vault_api.Transactions.Lawful.{AreLawful}
use vault_api.Transactions.Transfer.{transfer}
use vault_api.Transactions.Transfer.Effect.{transfer-ok, transfer-err}
use vault_api.Transactions.Transfer.Moved.{HasMoved}
use vault_api.Transactions.Deposit.{deposit}
use vault_api.Transactions.Deposit.Effect.{deposit-ok, deposit-err}
use vault_api.Transactions.Withdrawal.{withdraw}
use vault_api.Transactions.Withdrawal.Effect.{withdraw-ok, withdraw-err}

module _ {Db : Type 0} (t : Tables Db) (L : AreLawful t) where
  -- The two accounts of a transfer before and after it.
  pub record IsConserved (fee : ℕ) (before after : Db) : Type 0 where
    pub i : ℕ
    pub k : ℕ
    pub a : Account
    pub b : Account
    pub a' : Account
    pub b' : Account
    pub apart : i ≢ k
    pub a_before : account t.accounts i before ≡ some a
    pub b_before : account t.accounts k before ≡ some b
    pub a_after : account t.accounts i after ≡ some a'
    pub b_after : account t.accounts k after ≡ some b'
    pub balance : a'.balance +ℤ b'.balance +ℤ pos fee ≡ a.balance +ℤ b.balance
    pub ledger :
        a'.ledger_balance +ℤ b'.ledger_balance +ℤ pos fee ≡ a.ledger_balance +ℤ b.ledger_balance
    pub others : (j : ℕ) → j ≢ i → j ≢ k → account t.accounts j after ≡ account t.accounts j before

  -- A transfer that returns loses no money and makes none: what its two accounts hold after it,
  -- together with the fee on the record, is what they held before, on the balance and on the ledger
  -- balance, and no third account has changed.
  pub transfer_conserves :
      (draw : Draw) (user_id : ℕ) (dto : InitiateTransferDto) (key : Option String) (s s' : App Db)
      (tx : Transaction)
      → transfer t draw user_id dto key s ≡ (ok tx, s')
      → IsConserved tx.fee s.db s'.db
  transfer_conserves draw user_id dto key s s' tx h =
      let done = transfer-ok t L draw user_id dto key s s' tx h in
      let fee : tx.fee ≡ done.quote.fee = ap (λ (x : Transaction). x.fee) done.is_done in
      record {
        i = done.src.id;
        k = done.dest.id;
        a = done.src;
        b = done.dest;
        a' = debited (dto.amount + done.quote.fee) done.src;
        b' = credited dto.amount done.dest;
        apart = done.apart;
        a_before = done.moved.source_was;
        b_before = done.moved.destination_was;
        a_after = ground (arith, done.moved.accounts_after done.src.id);
        b_after = ground (arith, done.moved.accounts_after done.dest.id, done.apart);
        balance = omega (int_laws, fee);
        ledger = omega (int_laws, fee);
        others = λ j ni nk. ground (arith, done.moved.accounts_after j);
      }

  abbrev Sound : Db → Type 0
  Sound = IsSound t.accounts L.accounts

  pub same-Sound :
      (db db' : Db)
      → ((j : ℕ) → account t.accounts j db' ≡ account t.accounts j db)
      → Sound db
      → Sound db'
  same-Sound db db' same sound j c found = sound j c (ground (arith, same j))

  HasMoved-Sound :
      (draw : Draw) (user_id : ℕ) (dto : InitiateTransferDto) (key : Option String)
      (src dest : Account) (fee : ℕ) (db db' : Db)
      → HasMoved t L draw user_id dto key src dest fee db db'
      → Sound db
      → Sound db'
  HasMoved-Sound draw user_id dto key src dest fee db db' m sound j c found =
      let paid =
        debited-IsBalanced (dto.amount + fee) src m.source_covers (sound src.id src m.source_was) in
      let got = credited-IsBalanced dto.amount dest (sound dest.id dest m.destination_was) in
      ground (arith, m.accounts_after j, sound j c, paid, got)

  transfer-Sound :
      (draw : Draw) (user_id : ℕ) (dto : InitiateTransferDto) (key : Option String) (s : App Db)
      → Sound s.db
      → Sound (transfer t draw user_id dto key s).1.db
  transfer-Sound draw user_id dto key s sound =
      let done = transfer t draw user_id dto key s in
      elim (Result-cases done.0) [
        | inl (tx, returned) ↦
            let d = transfer-ok t L draw user_id dto key s done.1 tx (ground arith) in
            HasMoved-Sound draw user_id dto key d.src d.dest d.quote.fee s.db done.1.db d.moved
              sound
        | inr (e, thrown) ↦
            same-Sound s.db done.1.db
              (transfer-err t L draw user_id dto key s done.1 e (ground arith)) sound
      ]

  deposit-Sound :
      (draw : Draw) (dto : DepositDto) (s : App Db) → Sound s.db → Sound (deposit t draw dto s).1.db
  deposit-Sound draw dto s sound =
      let done = deposit t draw dto s in
      elim (Result-cases done.0) [
        | inl (tx, returned) ↦
            let d = deposit-ok t L draw dto s done.1 tx (ground arith) in
            let got =
              credited-IsBalanced dto.amount d.dest
                (sound d.dest.id d.dest d.moved.destination_was) in
            λ j c found. ground (arith, d.moved.accounts_after j, sound j c, got)
        | inr (e, thrown) ↦
            same-Sound s.db done.1.db (deposit-err t L draw dto s done.1 e (ground arith)) sound
      ]

  withdraw-Sound :
      (draw : Draw) (user_id : ℕ) (dto : WithdrawalDto) (key : Option String) (s : App Db)
      → Sound s.db
      → Sound (withdraw t draw user_id dto key s).1.db
  withdraw-Sound draw user_id dto key s sound =
      let done = withdraw t draw user_id dto key s in
      elim (Result-cases done.0) [
        | inl (tx, returned) ↦
            let d = withdraw-ok t L draw user_id dto key s done.1 tx (ground arith) in
            let paid =
              debited-IsBalanced dto.amount d.src d.moved.source_covers
                (sound d.src.id d.src d.moved.source_was) in
            λ j c found. ground (arith, d.moved.accounts_after j, sound j c, paid)
        | inr (e, thrown) ↦
            same-Sound s.db done.1.db
              (withdraw-err t L draw user_id dto key s done.1 e (ground arith)) sound
      ]

-- A request for a transaction, with what its call is given.
pub data Request : Type 0 where
  transfer_request : Draw → ℕ → InitiateTransferDto → Option String → Request
  deposit_request : Draw → DepositDto → Request
  withdraw_request : Draw → ℕ → WithdrawalDto → Option String → Request

module _ {Db : Type 0} (t : Tables Db) where
  -- The state after a request, returned or thrown.
  abbrev pub serve : Request → App Db → App Db
  serve (transfer_request draw u dto key) s = (transfer t draw u dto key s).1
  serve (deposit_request draw dto) s = (deposit t draw dto s).1
  serve (withdraw_request draw u dto key) s = (withdraw t draw u dto key s).1

  abbrev pub serve_all : List Request → App Db → App Db
  serve_all [] s = s
  serve_all (r ∷ requests) s = serve_all requests (serve r s)

  pub serve-IsSound :
      (L : AreLawful t) (r : Request) (s : App Db)
      → IsSound t.accounts L.accounts s.db
      → IsSound t.accounts L.accounts (serve r s).db
  serve-IsSound L (transfer_request draw u dto key) s = transfer-Sound t L draw u dto key s
  serve-IsSound L (deposit_request draw dto) s = deposit-Sound t L draw dto s
  serve-IsSound L (withdraw_request draw u dto key) s = withdraw-Sound t L draw u dto key s

  -- Whatever transfers, deposits and withdrawals are asked for, one after the other, and however the
  -- database refuses writes in them: if no balance was negative and every ledger balance equal to its
  -- balance, that is still so.
  pub serve_all-IsSound :
      (L : AreLawful t) (requests : List Request) (s : App Db)
      → IsSound t.accounts L.accounts s.db
      → IsSound t.accounts L.accounts (serve_all requests s).db
  serve_all-IsSound L [] s sound = sound
  serve_all-IsSound L (r ∷ requests) s sound =
      serve_all-IsSound L requests (serve r s) (serve-IsSound L r s sound)
