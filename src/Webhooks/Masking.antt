-- ===== src/Webhooks/Masking.antt =====
-- `maskEmail`, which the audit entries of the providers' deposits use: what is before the first `@`,
-- cut to two characters, and what is between the first `@` and the next.
-- Source: src/webhooks/webhooks.service.ts.
use Prim.Native.Char.{code}
use vault_api.Prelude.{String, ◌<>◌, Option, none, some, ◌==◌, nat_eq, if◌then◌else◌}
use vault_api.Users.Entity.{present}

-- The text up to the first `@`, which is U+0040.
unfoldable pub before_at : String → String
before_at String.[] = ""
before_at (String.◌∷◌ c s) =
    let rest = before_at s in if code c == 64 then "" else String.◌∷◌ c rest

unfoldable pub after_at : String → Option String
unfolding before_at
after_at String.[] = none
after_at (String.◌∷◌ c s) =
    let rest = after_at s in if code c == 64 then some (before_at s) else rest

unfoldable pub first_two : String → String
first_two String.[] = ""
first_two (String.◌∷◌ c String.[]) = String.◌∷◌ c String.[]
first_two (String.◌∷◌ c (String.◌∷◌ d s)) = String.◌∷◌ c (String.◌∷◌ d String.[])

-- A domain that is missing is written as JavaScript writes it.
abbrev domain_text : Option String → String
domain_text none = "undefined"
domain_text (some domain) = domain

unfoldable pub mask_email : Option String → Option String
unfolding before_at after_at first_two
mask_email email = elim (present email) [
  | none ↦ none
  | some text ↦ some (first_two (before_at text) <> "***@" <> domain_text (after_at text))
]
