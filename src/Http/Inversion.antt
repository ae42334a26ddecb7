-- ===== src/Http/Inversion.antt =====
-- What a method that returned has done on the way.
use vault_api.Prelude.{◌≡◌, refl, arith}
use vault_api.Http.Action.{Result, ok, err, Action, ◌>>=◌, ◌>>◌, attempt}

module _ {S : Type 0} where
  -- The first step returned, and so did the rest on what it left.
  pub >>=-ok :
      {A B : Type 0} (m : Action S A) (f : A → Action S B) {b : B} (s : S) {s' : S}
      → (m >>= f) s ≡ (ok b, s')
      → (a : A) × (middle : S) × (m s ≡ (ok a, middle)) × (f a middle ≡ (ok b, s'))
  >>=-ok {A} {B} m f {b} s {s'} h = split (m s) refl
    where
      split :
          (r : Result A × S)
          → m s ≡ r
          → (a : A) × (middle : S) × (m s ≡ (ok a, middle)) × (f a middle ≡ (ok b, s'))
      split (ok a, middle) e = (a, middle, e, ground arith)
      split (err x, middle) e = absurd (ground arith)

  pub attempt-ok :
      (f : S → Result S) (s s' : S) {u : Unit {0}} → attempt f s ≡ (ok u, s') → f s ≡ ok s'
  attempt-ok f s s' h = ground arith

  -- The same for a step with no value, and for a write.
  pub >>-ok :
      {B : Type 0} (m : Action S (Unit {0})) (k : Action S B) {b : B} (s : S) {s' : S}
      → (m >> k) s ≡ (ok b, s')
      → (middle : S) × (m s ≡ (ok tt, middle)) × (k middle ≡ (ok b, s'))
  >>-ok m k s h = let (u, middle, one, two) = >>=-ok m (λ _. k) s h in (middle, one, two)

  pub attempt->>-ok :
      {B : Type 0} (f : S → Result S) (k : Action S B) {b : B} (s : S) {s' : S}
      → (attempt f >> k) s ≡ (ok b, s')
      → (middle : S) × (f s ≡ ok middle) × (k middle ≡ (ok b, s'))
  attempt->>-ok f k s h =
      let (middle, one, two) = >>-ok (attempt f) k s h in (middle, attempt-ok f s middle one, two)
