-- ===== src/Transactions/Transfer/Effect.antt =====
-- What a transfer has done when it returns, and when it throws.
use vault_api.Prelude.{
  ℕ, string_eq, ◌≡◌, ◌≢◌, sym, inl, inr, Option-cases, String, Option, some, ◌∷◌, arith, ◌==◌,
  nat_eq,
}
use mathlib.Core.Path.{subst}
use vault_api.Http.Exception.{Exception}
use vault_api.Http.Action.{ok, err, Result-cases}
use vault_api.App.{App}
use vault_api.Events.{transfer_completed}
use vault_api.Orm.Laws.{row-id}
use vault_api.Accounts.Entity.{Account}
use vault_api.Accounts.{find_one, find_by_account_number}
use vault_api.Accounts.Debit.{account}
use vault_api.Fees.{calculate}
use vault_api.Fees.Calculation.{FeeCalculation}
use vault_api.Fees.Cache.{calculate-db, calculate_total}
use vault_api.Transactions.Entity.{Transaction, TransactionType, InitiateTransferDto}
use vault_api.Transactions.{Draw, Tables, rounded_kobo, as_completed}
use vault_api.Transactions.Lawful.{AreLawful}
use vault_api.Transactions.Settlement.{transaction}
use vault_api.Transactions.Transfer.{execute, transfer}
use vault_api.Transactions.Transfer.Moved.{HasMoved, draft, execute-ok, execute-err}

module _ {Db : Type 0} (t : Tables Db) (L : AreLawful t) (draw : Draw) (user_id : ℕ)
    (dto : InitiateTransferDto) (key : Option String) where
  abbrev by_number : Db → Option Account
  by_number = t.accounts.find_one (λ a. a.account_number == dto.destination_account_number)

  -- What has become of a transfer that returned `tx`.
  pub record TransferDone (s s' : App Db) (tx : Transaction) : Type 0 where
    pub src : Account
    pub dest : Account
    pub quote : FeeCalculation
    pub quoted :
        (calculate t.fees draw.now TransactionType.transfer (rounded_kobo dto.amount) s).0
        ≡ ok quote
    pub is_source : src.id ≡ dto.source_account_id
    pub owned : src.user_id ≡ user_id
    pub is_destination : dest.account_number ≡ dto.destination_account_number
    pub apart : src.id ≢ dest.id
    pub one_currency : src.currency ≡ dest.currency
    pub moved : HasMoved t L draw user_id dto key src dest quote.fee s.db s'.db
    pub is_done : tx ≡ as_completed (draft t L draw user_id dto key src dest quote.fee)
    pub stored : transaction t L tx.id s'.db ≡ some tx
    pub announced :
        s'.events
        ≡ transfer_completed (record {
          transaction_id = draw.id;
          reference = draw.reference;
          sender_id = user_id;
          sender_account_id = src.id;
          receiver_account_id = dest.id;
          amount = dto.amount;
          fee = quote.fee;
          currency = src.currency;
        })
          ∷ s.events

  -- A transfer that returns was made by the owner of the source account, between two different
  -- accounts of one currency, from an active one that covered the amount and the calculated fee; it
  -- has taken both off the source, put the amount on the destination, left every other account alone,
  -- stored its completed record, and emitted one event, that of the transfer.
  pub transfer-ok :
      (s s' : App Db) (tx : Transaction)
      → transfer t draw user_id dto key s ≡ (ok tx, s')
      → TransferDone s s' tx
  unfolding transfer find_one find_by_account_number
  transfer-ok s s' tx h = elim (Option-cases (account t.accounts dto.source_account_id s.db)) [
    | inl missing ↦ absurd (ground arith)
    | inr (src, src_row) ↦ elim (Option-cases (by_number s.db)) [
      | inl missing ↦ absurd (ground arith)
      | inr (dest, dest_row) ↦
          let priced =
            calculate t.fees draw.now TransactionType.transfer (rounded_kobo dto.amount) s in
          let (quote, quoted) =
            calculate_total t.fees draw.now TransactionType.transfer (rounded_kobo dto.amount) s in
          let same =
            calculate-db t.fees draw.now TransactionType.transfer (rounded_kobo dto.amount) s in
          let apart : src.id ≢ dest.id = ground arith in
          let ran : execute t draw user_id dto key src dest quote.fee priced.1 ≡ (ok tx, s') =
            ground arith in
          let src_is : src.id ≡ dto.source_account_id =
            row-id (λ a. a.id) t.accounts L.accounts dto.source_account_id s.db src src_row in
          let named = L.accounts.find_one-some _ s.db dest dest_row in
          let (moved, is_done, stored, announced) =
            execute-ok t L draw user_id dto key src dest quote.fee priced.1 s' tx apart
              (rw same.0
                (subst (λ (i : ℕ). account t.accounts i s.db ≡ some src) (sym src_is) src_row))
              (rw same.0 named.1) ran in
          record {
            src = src;
            dest = dest;
            quote = quote;
            quoted = quoted;
            is_source = src_is;
            owned = ground arith;
            is_destination = ground (arith, named.0);
            apart = apart;
            one_currency = ground arith;
            moved =
                subst (λ db. HasMoved t L draw user_id dto key src dest quote.fee db s'.db) same.0
                  moved;
            is_done = is_done;
            stored = stored;
            announced = ground (arith, announced, same.2);
          }
    ]
  ]

  -- A transfer that throws has moved no money: every account is as it was.
  pub transfer-err :
      (s s' : App Db) (e : Exception)
      → transfer t draw user_id dto key s ≡ (err e, s')
      → (j : ℕ) → account t.accounts j s'.db ≡ account t.accounts j s.db
  unfolding transfer find_one find_by_account_number
  transfer-err s s' e h j = elim (Option-cases (account t.accounts dto.source_account_id s.db)) [
    | inl missing ↦ ground arith
    | inr (src, src_row) ↦ elim (Option-cases (by_number s.db)) [
      | inl missing ↦ ground arith
      | inr (dest, dest_row) ↦
          let priced =
            calculate t.fees draw.now TransactionType.transfer (rounded_kobo dto.amount) s in
          let (quote, quoted) =
            calculate_total t.fees draw.now TransactionType.transfer (rounded_kobo dto.amount) s in
          let same =
            calculate-db t.fees draw.now TransactionType.transfer (rounded_kobo dto.amount) s in
          elim (Result-cases (execute t draw user_id dto key src dest quote.fee priced.1).0) [
            | inl (tx, done) ↦ ground arith
            | inr (x, failed) ↦
                let (_, _, kept, _) =
                  execute-err t L draw user_id dto key src dest quote.fee priced.1
                    (execute t draw user_id dto key src dest quote.fee priced.1).1 x
                    (ground arith) in
                ground (arith, kept j, same.0)
          ]
    ]
  ]
