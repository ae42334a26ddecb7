-- ===== src/Accounts/Controller.antt =====
-- `AccountsController`: its routes, who may take them, and what they answer. The key and the number of
-- a new account are arguments.
-- Source: src/accounts/accounts.controller.ts.
use vault_api.Prelude.{ℕ, String, Option, some, List, [], ◌∷◌}
use vault_api.Http.Action.{Action, ◌>>=◌, gets}
use vault_api.Orm.{Repository}
use vault_api.Users.Entity.{admin}
use vault_api.Auth.Guards.{Principal, Access, signed_in, for_roles, user_id_of}
use vault_api.Accounts.Entity.{Account}
use vault_api.Accounts.{CreateAccountDto}

pub data Route : Type 0 where
  create : CreateAccountDto → Route
  find_my_accounts : Route
  find_one : ℕ → Route
  freeze : ℕ → Route
  unfreeze : ℕ → Route

unfoldable pub access : Route → Access
access (unfreeze id) = for_roles (admin ∷ [])
access _ = signed_in

abbrev pub Reply : Route → Type 0
Reply find_my_accounts = List Account
Reply _ = Account

module _ {Db : Type 0} (accounts : Repository Account Db) where
  unfoldable pub handle : ℕ → String → Option Principal → (route : Route) → Action Db (Reply route)
  handle id number user (create dto) =
      user_id_of user >>= λ u. vault_api.Accounts.create accounts id number u dto
  handle id number user find_my_accounts =
      user_id_of user >>= λ u. gets (vault_api.Accounts.find_all_for_user accounts u)
  handle id number user (find_one account_id) =
      user_id_of user >>= λ u. vault_api.Accounts.find_one accounts account_id (some u)
  handle id number user (freeze account_id) =
      user_id_of user >>= λ u. vault_api.Accounts.freeze accounts account_id u
  handle id number user (unfreeze account_id) = vault_api.Accounts.unfreeze accounts account_id
