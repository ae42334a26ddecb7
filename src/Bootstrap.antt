-- ===== src/Bootstrap.antt =====
-- `bootstrap`: which origins a browser may call from, and whether the documentation is served. The
-- characters that `trim` takes off are those of JavaScript.
-- Source: src/main.ts.
pub mod Origins
use Prim.Native.Char.{Char, code}
use vault_api.Prelude.{
  ℕ, String, ◌<>◌, Bool, true, false, ◌&&◌, ◌||◌, Option, none, some, List, [], ◌∷◌, map, leb, ◌==◌,
  nat_eq, string_eq, if◌then◌else◌,
}
use vault_api.Http.Exception.{Exception, error}
use vault_api.Http.Action.{Result, ok, err}
use vault_api.Users.Entity.{present}
use vault_api.Config.{Configuration}

abbrev pub is_space : ℕ → Bool
is_space c =
    (leb 9 c && leb c 13)
    || c == 32
    || c == 160
    || c == 5760
    || (leb 8192 c && leb c 8202)
    || c == 8232
    || c == 8233
    || c == 8239
    || c == 8287
    || c == 12288
    || c == 65279

unfoldable pub trim_start : String → String
trim_start String.[] = ""
trim_start (String.◌∷◌ c s) =
    let rest = trim_start s in if is_space (code c) then rest else String.◌∷◌ c s

abbrev pub cons_trimmed : Char → String → String
cons_trimmed c String.[] = if is_space (code c) then "" else String.◌∷◌ c ""
cons_trimmed c (String.◌∷◌ d s) = String.◌∷◌ c (String.◌∷◌ d s)

unfoldable pub trim_end : String → String
trim_end String.[] = ""
trim_end (String.◌∷◌ c s) = cons_trimmed c (trim_end s)

unfoldable pub trim : String → String
unfolding trim_start trim_end
trim s = trim_end (trim_start s)

abbrev pub before_first : Char → List String → List String
before_first c [] = String.◌∷◌ c "" ∷ []
before_first c (part ∷ parts) = String.◌∷◌ c part ∷ parts

-- `split(',')`
unfoldable pub split : String → List String
split String.[] = "" ∷ []
split (String.◌∷◌ c s) =
    let rest = split s in if code c == 44 then "" ∷ rest else before_first c rest

-- `filter(Boolean)`
unfoldable pub filled : List String → List String
filled [] = []
filled (text ∷ texts) = let rest = filled texts in if text == "" then rest else text ∷ rest

-- The variable `ALLOWED_ORIGINS`, which is empty where it is not set.
unfoldable pub allowed_origins : Option String → List String
unfolding filled trim split
allowed_origins none = filled (map trim (split ""))
allowed_origins (some text) = filled (map trim (split text))

unfoldable pub includes : List String → String → Bool
includes [] origin = false
includes (allowed ∷ rest) origin = allowed == origin || includes rest origin

-- The callback of `enableCors`, for the origin that the browser names.
unfoldable pub cors_origin : List String → Option String → Result (Unit {0})
unfolding includes
cors_origin allowed origin = elim (present origin) [
  | none ↦ ok tt
  | some named ↦
      if includes allowed named
      then ok tt
      else err (error ("Origin " <> named <> " not allowed by CORS"))
]

-- Whether `api/docs` is set up.
unfoldable pub serves_docs : Configuration → Bool
serves_docs c = c.node_env == "development"
