-- ===== src/Orm/Lists.antt =====
-- A repository that keeps its table as a list of rows in a field of the database state, and the
-- proof that it meets what the services rely on. Of two rows with one key the first counts.
use mathlib.Core.Option
use vault_api.Prelude.{
  ℕ, ◌≡◌, refl, ◌≢◌, ◌↔◌, Bool, true, false, not, Option, none, some, List, [], ◌∷◌, map, arith,
  Among, ◌==◌, nat_eq, if◌then◌else◌, ap, ◌∙◌,
}
use vault_api.Http.Action.{ok}
use vault_api.Orm.{Repository, IsLawful, IsApart}

module _ {E : Type 0} where
  pub find_first : (E → Bool) → List E → Option E
  find_first p [] = none
  find_first p (e ∷ l) = if p e then some e else find_first p l

  pub select : (E → Bool) → List E → List E
  select p [] = []
  select p (e ∷ l) = if p e then e ∷ select p l else select p l

module _ {E : Type 0} (id : E → ℕ) where
  pub without : ℕ → List E → List E
  without k [] = []
  without k (e ∷ l) = if id e == k then without k l else e ∷ without k l

  -- The first row of each key.
  pub rows : List E → List E
  rows [] = []
  rows (e ∷ l) = e ∷ without (id e) (rows l)

  abbrev with_key : ℕ → List E → Option E
  with_key i = find_first (λ e. id e == i)

  with_key-without :
      (i k : ℕ) (l : List E) → with_key i (without k l) ≡ (if i == k then none else with_key i l)
  unfolding find_first without
  with_key-without i k [] = ground arith
  with_key-without i k (e ∷ l) = ground (arith, with_key-without i k l)

  with_key-rows : (i : ℕ) (l : List E) → with_key i (rows l) ≡ with_key i l
  unfolding find_first rows
  with_key-rows i [] = refl
  with_key-rows i (e ∷ l) = ground (arith, with_key-rows i l, with_key-without i (id e) (rows l))

  with_key-map :
      (g : E → E) (i : ℕ) (l : List E)
      → ((e : E) → id (g e) ≡ id e)
      → with_key i (map g l) ≡ Option.map g (with_key i l)
  unfolding find_first
  with_key-map g i [] h = refl
  with_key-map g i (e ∷ l) h = ground (arith, with_key-map g i l h, h e)

  find_first-without :
      (p : E → Bool) (k : ℕ) (l : List E)
      → find_first p (without k l) ≡ find_first (λ e. if id e == k then false else p e) l
  unfolding find_first without
  find_first-without p k [] = refl
  find_first-without p k (e ∷ l) = ground (arith, find_first-without p k l)

  with_key-select_of_none :
      (p : E → Bool) (i : ℕ) (l : List E) → with_key i l ≡ none → with_key i (select p l) ≡ none
  unfolding find_first select
  with_key-select_of_none p i [] h = refl
  with_key-select_of_none p i (e ∷ l) h = ground (arith, with_key-select_of_none p i l)

  select-without :
      (p : E → Bool) (k : ℕ) (l : List E) → select p (without k l) ≡ without k (select p l)
  unfolding select without
  select-without p k [] = refl
  select-without p k (e ∷ l) = ground (arith, select-without p k l)

  find_first-some :
      (p : E → Bool) (l : List E) (e : E)
      → find_first p (rows l) ≡ some e
      → (p e ≡ true) × (with_key (id e) (rows l) ≡ some e)
  unfolding find_first rows
  find_first-some p [] e h = cc
  find_first-some p (x ∷ l) e h = ground (
    arith,
    find_first-without p (id x) (rows l),
    find_first-some (λ y. if id y == id x then false else p y) l e,
    with_key-without (id e) (id x) (rows l),
  )

  find_first-none :
      (p : E → Bool) (i : ℕ) (l : List E) (e : E)
      → find_first p l ≡ none
      → with_key i l ≡ some e
      → p e ≡ false
  unfolding find_first
  find_first-none p i [] e h k = cc
  find_first-none p i (x ∷ l) e h k = ground (arith, find_first-none p i l e)

  with_key-select :
      (p : E → Bool) (i : ℕ) (l : List E)
      → with_key i (select p (rows l))
        ≡ Option.bind (with_key i (rows l)) (λ e. if p e then some e else none)
  unfolding find_first select rows Option.bind
  with_key-select p i [] = refl
  with_key-select p i (e ∷ l) = ground (
    arith,
    select-without p (id e) (rows l),
    with_key-select p i l,
    with_key-without i (id e) (rows l),
    with_key-without i (id e) (select p (rows l)),
    with_key-select_of_none p i (without (id e) (rows l)),
  )

  Among-select :
      (p : E → Bool) (e : E) (l : List E) → Among e (select p l) ↔ (Among e l × (p e ≡ true))
  unfolding select
  Among-select p e [] = ground arith
  Among-select p e (x ∷ l) = ground (arith, Among-select p e l)

  Among-without : (k : ℕ) (e : E) (l : List E) → Among e (without k l) ↔ (Among e l × (id e ≢ k))
  unfolding without
  Among-without k e [] = ground arith
  Among-without k e (x ∷ l) = ground (arith, Among-without k e l)

  Among-rows : (e : E) (l : List E) → Among e (rows l) ↔ (with_key (id e) (rows l) ≡ some e)
  unfolding rows find_first
  Among-rows e [] = ground arith
  Among-rows e (x ∷ l) = ground (
    arith,
    Among-without (id x) e (rows l),
    Among-rows e l,
    with_key-without (id e) (id x) (rows l),
  )

module _ {E Db : Type 0} (id : E → ℕ) (get : Db → List E) (put : List E → Db → Db) where
  unfoldable pub list_repository : Repository E Db
  unfolding find_first select without rows
  list_repository = record {
    find_one = λ p db. find_first p (rows id (get db));
    find = λ p db. select p (rows id (get db));
    save = λ e db. ok (put (e ∷ without id (id e) (rows id (get db))) db);
    update = λ p f db. put (map (λ e. if p e then f e else e) (rows id (get db))) db;
    delete = λ p db. put (select (λ e. not (p e)) (rows id (get db))) db;
  }

  module _ (get-put : (l : List E) (db : Db) → get (put l db) ≡ l) where
    row-put :
        (l : List E) (db : Db) (j : ℕ)
        → find_first (λ e. id e == j) (rows id (get (put l db))) ≡ find_first (λ e. id e == j) l
    row-put l db j = rw get-put (with_key-rows id j l)

    row-save_new :
        (e : E) (db : Db) (j : ℕ)
        → find_first (λ e. id e == j) (e ∷ without id (id e) (rows id (get db)))
          ≡ (if j == id e then some e else find_first (λ e. id e == j) (rows id (get db)))
    unfolding find_first
    row-save_new e db j = ground (arith, with_key-without id j (id e) (rows id (get db)))

    pub list_repository-IsLawful : IsLawful id list_repository
    unfolding list_repository Option.bind
    list_repository-IsLawful = record {
      find_one-some = λ p db e h. find_first-some id p (get db) e h;
      find_one-none = λ p db e h k. find_first-none id p (id e) (rows id (get db)) e h k;
      row-save = λ e db db' j h.
          let same : put (e ∷ without id (id e) (rows id (get db))) db ≡ db' = cc in
          rw (← same) (row-put _ db j ∙ row-save_new e db j);
      row-update = λ p f db j h.
          row-put _ db j
          ∙ with_key-map id (λ e. if p e then f e else e) j (rows id (get db))
              (λ e. ground (arith, h e));
      row-delete =
          λ p db j. row-put _ db j ∙ with_key-select id (λ e. not (p e)) j (get db) ∙ ground arith;
      among-find = λ p db e.
          ground (arith, Among-select id p e (rows id (get db)), Among-rows id e (get db));
    }

-- Tables in different fields of the state do not see one another's writes.
module _ {E F Db : Type 0} (id : E → ℕ) (get : Db → List E) (put : List E → Db → Db) (id' : F → ℕ)
    (get' : Db → List F) (put' : List F → Db → Db)
    (apart : (l : List E) (db : Db) → get' (put l db) ≡ get' db) where
  pub list_repository-IsApart : IsApart (list_repository id get put) (list_repository id' get' put')
  unfolding list_repository
  list_repository-IsApart = record {
    find_one-save = λ e db db' p h.
        let same : put (e ∷ without id (id e) (rows id (get db))) db ≡ db' = cc in
        rw (← same) (ap (λ l. find_first p (rows id' l)) (apart _ db));
    find_one-update = λ q f db p. ap (λ l. find_first p (rows id' l)) (apart _ db);
  }
