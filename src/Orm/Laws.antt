-- ===== src/Orm/Laws.antt =====
-- What follows from the laws of a repository.
use vault_api.Prelude.{ℕ, ◌≡◌, some, arith, ◌==◌, nat_eq, string_eq}
use vault_api.Http.Action.{ok}
use vault_api.Orm.{Repository, IsLawful, row}

module _ {E Db : Type 0} (id : E → ℕ) (R : Repository E Db) (L : IsLawful id R) where
  -- A row stands under its own key.
  pub row-id : (i : ℕ) (db : Db) (e : E) → row id R i db ≡ some e → id e ≡ i
  row-id i db e h = ground (arith, L.find_one-some (λ x. id x == i) db e h)

  pub row-save_self : (e : E) (db db' : Db) → R.save e db ≡ ok db' → row id R (id e) db' ≡ some e
  row-save_self e db db' h = ground (arith, L.row-save e db db' (id e) h)
