-- ===== src/TransactionPin/Entity.antt =====
-- What the service remembers of a user's wrong PINs, and the request bodies.
-- Source: src/transaction-pin/transaction-pin.service.ts.
use vault_api.Prelude.{ℕ, String}

pub record Attempts : Type 0 where
  pub count : ℕ
  pub locked_until : ℕ

pub record SetPinDto : Type 0 where
  pub pin : String

pub record ChangePinDto : Type 0 where
  pub current_pin : String
  pub new_pin : String

pub record VerifyPinDto : Type 0 where
  pub pin : String
