-- ===== src/Orm.antt =====
-- TypeORM's repositories, which the services call and do not implement: an interface over an unknown
-- database state. A criterion is a test on rows and a partial entity is a change of a row.
-- Queries answer; a `save` may be refused (a constraint, a lost connection), and then throws.
pub mod Laws
pub mod Lists
use vault_api.Prelude.{
  ℕ, ◌≡◌, ◌↔◌, Bool, true, false, Option, none, some, List, Among, ◌==◌, nat_eq, if◌then◌else◌,
}
use vault_api.Http.Action.{Result, ok}
use mathlib.Core.Option

pub record Repository (E Db : Type 0) : Type 0 where
  pub find_one : (E → Bool) → Db → Option E
  pub find : (E → Bool) → Db → List E
  pub save : E → Db → Result Db
  pub update : (E → Bool) → (E → E) → Db → Db
  pub delete : (E → Bool) → Db → Db

module _ {E Db : Type 0} (id : E → ℕ) (R : Repository E Db) where
  -- The row with this primary key.
  abbrev pub row : ℕ → Db → Option E
  row i = R.find_one (λ e. id e == i)

  -- What the documentation of TypeORM promises of each call, by primary key.
  pub record IsLawful : Type 0 where
    pub find_one-some :
        (p : E → Bool) (db : Db) (e : E)
        → R.find_one p db ≡ some e
        → (p e ≡ true) × (row (id e) db ≡ some e)
    pub find_one-none :
        (p : E → Bool) (db : Db) (e : E)
        → R.find_one p db ≡ none
        → row (id e) db ≡ some e
        → p e ≡ false
    pub row-save :
        (e : E) (db db' : Db) (j : ℕ)
        → R.save e db ≡ ok db'
        → row j db' ≡ (if j == id e then some e else row j db)
    pub row-update :
        (p : E → Bool) (f : E → E) (db : Db) (j : ℕ)
        → ((e : E) → id (f e) ≡ id e)
        → row j (R.update p f db) ≡ Option.map (λ e. if p e then f e else e) (row j db)
    pub row-delete :
        (p : E → Bool) (db : Db) (j : ℕ)
        → row j (R.delete p db) ≡ Option.bind (row j db) (λ e. if p e then none else some e)
    pub among-find :
        (p : E → Bool) (db : Db) (e : E)
        → Among e (R.find p db) ↔ ((p e ≡ true) × (row (id e) db ≡ some e))

-- A write to one table leaves every query of another as it was.
pub record IsApart {E F Db : Type 0} (R : Repository E Db) (S : Repository F Db) : Type 0 where
  pub find_one-save :
      (e : E) (db db' : Db) (p : F → Bool)
      → R.save e db ≡ ok db'
      → S.find_one p db' ≡ S.find_one p db
  pub find_one-update :
      (q : E → Bool) (f : E → E) (db : Db) (p : F → Bool)
      → S.find_one p (R.update q f db) ≡ S.find_one p db
