-- ===== src/Prelude/Dict.antt =====
-- `Map<string, V>` as an association list: the first entry of a key counts.
use Prim.Native.Nat.{ℕ}
use mathlib.Core.Path.{◌≡◌}
use mathlib.Core.Option.{Option, none, some}
use mathlib.Core.List.{List, [], ◌∷◌}
use native.Mathlib.Omega.{arith}
use vault_api.Prelude.Equality.{◌==◌, nat_eq, if◌then◌else◌}

module _ {V : Type 0} where
  unfoldable pub get : ℕ → List (ℕ × V) → Option V
  get k [] = none
  get k ((j, v) ∷ d) = if j == k then some v else get k d

  unfoldable pub remove : ℕ → List (ℕ × V) → List (ℕ × V)
  remove k [] = []
  remove k ((j, v) ∷ d) = let rest = remove k d in if j == k then rest else (j, v) ∷ rest

  unfoldable pub set : ℕ → V → List (ℕ × V) → List (ℕ × V)
  unfolding remove
  set k v d = (k, v) ∷ remove k d

  pub get-remove :
      (j k : ℕ) (d : List (ℕ × V)) → get j (remove k d) ≡ (if j == k then none else get j d)
  unfolding get remove
  get-remove j k [] = ground arith
  get-remove j k ((i, v) ∷ d) = ground (arith, get-remove j k d)

  pub get-set :
      (j k : ℕ) (v : V) (d : List (ℕ × V))
      → get j (set k v d) ≡ (if j == k then some v else get j d)
  unfolding get set
  get-set j k v d = ground (arith, get-remove j k d)
