-- ===== src/Common/Currency.antt =====
-- Source: src/common/enums/currency.enum.ts.
use vault_api.Prelude.{Eq}

pub data Currency : Type 0 where
  ngn usd gbp eur : Currency

unfoldable pub Currency-discrete : Discrete Currency
Currency-discrete = hlevel

instance abbrev pub currency_eq : Eq Currency
currency_eq = record { dec = Currency-discrete }
