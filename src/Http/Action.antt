-- ===== src/Http/Action.antt =====
-- A method over a state `S`: the state comes back after a throw too.
use vault_api.Prelude.{Bool, Option, none, some, if◌then◌else◌, ◌≡◌, refl, ◌⊎◌, inl, inr}
use vault_api.Http.Exception.{Exception}

pub data Result (A : Type 0) : Type 0 where
  ok : A → Result A
  err : Exception → Result A

abbrev pub Action : Type 0 → Type 0 → Type 0
Action S A = S → Result A × S

infixl 5 ◌>>=◌ ◌>>◌
abbrev pub ◌>>=◌ : {S A B : Type 0} → Action S A → (A → Action S B) → Action S B
◌>>=◌ m f s = let (r, s') = m s in elim r [ ok a ↦ f a s' | err e ↦ (err e, s') ]

abbrev pub ◌>>◌ : {S A B : Type 0} → Action S A → Action S B → Action S B
m >> k = m >>= λ _. k

module _ {S : Type 0} where
  abbrev pub pure : {A : Type 0} → A → Action S A
  pure a s = (ok a, s)

  abbrev pub throw : {A : Type 0} → Exception → Action S A
  throw e s = (err e, s)

  -- `if (c) throw e;`
  abbrev pub throw_if : Bool → Exception → Action S (Unit {0})
  throw_if c e s = (if c then err e else ok tt, s)

  -- `if (!o) throw e;`
  abbrev pub or_throw : {A : Type 0} → Option A → Exception → Action S A
  or_throw none e s = (err e, s)
  or_throw (some a) e s = (ok a, s)

  abbrev pub gets : {A : Type 0} → (S → A) → Action S A
  gets f s = (ok (f s), s)

  abbrev pub modify : (S → S) → Action S (Unit {0})
  modify f s = (ok tt, f s)

  -- A write that the database may refuse.
  abbrev pub attempt : (S → Result S) → Action S (Unit {0})
  attempt f s = elim (f s) [ ok s' ↦ (ok tt, s') | err e ↦ (err e, s) ]

pub Result-cases :
    {A : Type 0} (r : Result A) → ((a : A) × (r ≡ ok a)) ⊎ ((e : Exception) × (r ≡ err e))
Result-cases (ok a) = inl (a, refl)
Result-cases (err e) = inr (e, refl)
