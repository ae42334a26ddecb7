-- ===== src/Http/Keeping.antt =====
-- Actions that keep a property of the state, whether they return or throw, and how the parts of a
-- method are put together.
use mathlib.Core.Path.{subst}
use vault_api.Prelude.{sym, Option, none, some, ◌≡◌, refl, arith}
use vault_api.Http.Exception.{Exception}
use vault_api.Http.Action.{Result, ok, err, Action, ◌>>=◌, ◌>>◌, attempt, or_throw}
use vault_api.App.{App, in_transaction, try_catch}

abbrev pub Keeps : {S A : Type 0} → (S → Type 0) → Action S A → Type 0
Keeps {S} P m = (s : S) → P s → P (m s).1

module _ {S : Type 0} (P : S → Type 0) where
  pub Keeps->>= :
      {A B : Type 0} (m : Action S A) (f : A → Action S B)
      → Keeps P m
      → ((a : A) → Keeps P (f a))
      → Keeps P (m >>= f)
  Keeps->>= {A} {B} m f first rest s p = split (m s) refl (first s p)
    where
      split : (r : Result A × S) → m s ≡ r → P r.1 → P ((m >>= f) s).1
      split (ok a, s') h p' =
          let same : ((m >>= f) s).1 ≡ (f a s').1 = ground arith in
          subst P (sym same) (rest a s' p')
      split (err e, s') h p' =
          let same : ((m >>= f) s).1 ≡ s' = ground arith in subst P (sym same) p'

  pub Keeps->> :
      {A B : Type 0} (m : Action S A) (k : Action S B) → Keeps P m → Keeps P k → Keeps P (m >> k)
  Keeps->> m k first rest = Keeps->>= m (λ _. k) first λ _. rest

  pub Keeps-attempt :
      (f : S → Result S) → ((s s' : S) → f s ≡ ok s' → P s → P s') → Keeps P (attempt f)
  Keeps-attempt f step s p = split (f s) refl
    where
      split : (r : Result S) → f s ≡ r → P (attempt f s).1
      split (ok s') h =
          let same : (attempt f s).1 ≡ s' = ground arith in subst P (sym same) (step s s' h p)
      split (err e) h = let same : (attempt f s).1 ≡ s = ground arith in subst P (sym same) p

  pub Keeps-or_throw : {A : Type 0} (o : Option A) (e : Exception) → Keeps P (or_throw o e)
  Keeps-or_throw none e s p = p
  Keeps-or_throw (some a) e s p = p

  pub Keeps-try_catch :
      {A : Type 0} (m : Action S A) (handler : Exception → Action S A)
      → Keeps P m
      → ((e : Exception) → Keeps P (handler e))
      → Keeps P (try_catch m handler)
  Keeps-try_catch {A} m handler first rest s p = split (m s) refl (first s p)
    where
      split : (r : Result A × S) → m s ≡ r → P r.1 → P (try_catch m handler s).1
      split (ok a, s') h p' =
          let same : (try_catch m handler s).1 ≡ s' = ground arith in subst P (sym same) p'
      split (err e, s') h p' =
          let same : (try_catch m handler s).1 ≡ (handler e s').1 = ground arith in
          subst P (sym same) (rest e s' p')

-- A property of the database, over the state of the process.
module _ {Db : Type 0} (P : Db → Type 0) where
  abbrev pub OnDb : App Db → Type 0
  OnDb s = P s.db

  pub Keeps-in_transaction :
      {A : Type 0} (m : Action Db A) → Keeps P m → Keeps OnDb (in_transaction m)
  Keeps-in_transaction {A} m inner s p = split (m s.db) refl (inner s.db p)
    where
      split : (r : Result A × Db) → m s.db ≡ r → P r.1 → OnDb (in_transaction m s).1
      split (ok a, db') h p' =
          let same : (in_transaction m s).1.db ≡ db' = ground arith in subst P (sym same) p'
      split (err e, db') h p' =
          let same : (in_transaction m s).1.db ≡ s.db = ground arith in subst P (sym same) p
