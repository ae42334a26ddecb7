-- ===== src/Users/Hashing.antt =====
-- The package bcryptjs, which the services call: `hash` with the salt that it draws as an argument.
use vault_api.Prelude.{String, Bool, true, ◌≡◌, ◌≢◌}

pub record Bcrypt : Type 0 where
  pub hash : String → String → String
  pub compare : String → String → Bool

-- A text compares with its hash, and a hash is never empty.
pub record IsFaithful (b : Bcrypt) : Type 0 where
  pub compare-hash : (salt text : String) → b.compare text (b.hash salt text) ≡ true
  pub hash_filled : (salt text : String) → b.hash salt text ≢ ""
