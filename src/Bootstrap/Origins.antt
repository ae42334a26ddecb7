-- ===== src/Bootstrap/Origins.antt =====
-- What the variable `ALLOWED_ORIGINS` says.
use Prim.Native.Char.{char, code}
use Prim.Native.String.append
use mathlib.Core.Path.{subst}
use vault_api.Prelude.{
  String, ◌<>◌, true, false, none, some, List, [], ◌∷◌, map, ◌≡◌, ◌≢◌, ◌⊎◌, ◌↔◌, inl, inr, refl, ap,
  ◌∙◌, arith, Bool-cases, ◌==◌, nat_eq, string_eq,
}
use vault_api.Http.Action.{ok}
use vault_api.Bootstrap.{
  is_space, trim_start, cons_trimmed, trim_end, trim, split, filled, allowed_origins, includes,
  cors_origin,
}

abbrev pub AllSpaces : String → Type 0
AllSpaces String.[] = Unit {0}
AllSpaces (String.◌∷◌ c s) = (is_space (code c) ≡ true) × AllSpaces s

abbrev pub NoComma : String → Type 0
NoComma String.[] = Unit {0}
NoComma (String.◌∷◌ c s) = (code c ≢ 44) × NoComma s

-- A text that begins with no space.
abbrev pub StartsPlain : String → Type 0
StartsPlain String.[] = ⊥
StartsPlain (String.◌∷◌ c s) = is_space (code c) ≡ false

-- An entry of the variable: an origin, and the spaces on either side of it.
pub record Entry : Type 0 where
  pub left : String
  pub origin : String
  pub right : String

pub record IsClean (e : Entry) : Type 0 where
  pub left_spaces : AllSpaces e.left
  pub left_plain : NoComma e.left
  pub right_spaces : AllSpaces e.right
  pub right_plain : NoComma e.right
  pub plain : NoComma e.origin
  pub starts : StartsPlain e.origin
  pub ends : trim_end e.origin ≡ e.origin

abbrev pub AllClean : List Entry → Type 0
AllClean [] = Unit {0}
AllClean (e ∷ entries) = IsClean e × AllClean entries

abbrev pub text_of : Entry → String
text_of e = e.left <> e.origin <> e.right

-- The entries with commas between them.
abbrev pub written : Entry → List Entry → String
written e [] = text_of e
written e (next ∷ entries) = text_of e <> "," <> written next entries

trim_start-spaces : (s t : String) → AllSpaces s → trim_start (s <> t) ≡ trim_start t
unfolding trim_start
trim_start-spaces String.[] t spaces = rw (append.nil t) refl
trim_start-spaces (String.◌∷◌ c s) t (space, spaces) =
    rw (append.cons c s t, space) (trim_start-spaces s t spaces)

trim_start-plain : (s t : String) → StartsPlain s → trim_start (s <> t) ≡ s <> t
unfolding trim_start
trim_start-plain String.[] t plain = absurd plain
trim_start-plain (String.◌∷◌ c s) t plain = rw (append.cons c s t, plain) refl

trim_end-AllSpaces : (s : String) → AllSpaces s → trim_end s ≡ ""
unfolding trim_end
trim_end-AllSpaces String.[] spaces = refl
trim_end-AllSpaces (String.◌∷◌ c s) (space, spaces) = rw (trim_end-AllSpaces s spaces, space) refl

trim_end-append : (s t : String) → AllSpaces t → trim_end (s <> t) ≡ trim_end s
unfolding trim_end
trim_end-append String.[] t spaces = rw (append.nil t) (trim_end-AllSpaces t spaces)
trim_end-append (String.◌∷◌ c s) t spaces =
    rw (append.cons c s t) (ap (cons_trimmed c) (trim_end-append s t spaces))

trim-text_of : (e : Entry) → IsClean e → trim (text_of e) ≡ e.origin
unfolding trim
trim-text_of e clean =
    ap trim_end (
      trim_start-spaces e.left (e.origin <> e.right) clean.left_spaces
      ∙ trim_start-plain e.origin e.right clean.starts)
    ∙ trim_end-append e.origin e.right clean.right_spaces
    ∙ clean.ends

NoComma-append : (s t : String) → NoComma s → NoComma t → NoComma (s <> t)
NoComma-append String.[] t _ plain = rw (append.nil t) plain
NoComma-append (String.◌∷◌ c s) t (first, rest) plain =
    rw (append.cons c s t) (first, NoComma-append s t rest plain)

split-NoComma : (s : String) → NoComma s → split s ≡ s ∷ []
unfolding split
split-NoComma String.[] plain = refl
split-NoComma (String.◌∷◌ c s) (first, rest) = ground (arith, split-NoComma s rest)

split-comma : (s t : String) → NoComma s → split (s <> "," <> t) ≡ s ∷ split t
unfolding split nat_eq
split-comma String.[] t plain =
    rw (append.nil ("," <> t), append.cons (char 44 tt) "" t, append.nil t) refl
split-comma (String.◌∷◌ c s) t (first, rest) =
    rw (append.cons c s ("," <> t)) (ground (arith, split-comma s t rest))

text_of-NoComma : (e : Entry) → IsClean e → NoComma (text_of e)
text_of-NoComma e clean =
    NoComma-append e.left (e.origin <> e.right) clean.left_plain
      (NoComma-append e.origin e.right clean.plain clean.right_plain)

origin-filled : (s : String) → StartsPlain s → s ≢ ""
origin-filled s plain empty = subst StartsPlain empty plain

filled-cons : (s : String) (rest : List String) → s ≢ "" → filled (s ∷ rest) ≡ s ∷ filled rest
unfolding filled
filled-cons s rest plain = ground arith

-- The variable is read as it was meant: from entries with commas between them, and any spaces around
-- them, come exactly their origins, in their order.
pub allowed_origins-written :
    (e : Entry) (entries : List Entry)
    → AllClean (e ∷ entries)
    → allowed_origins (some (written e entries)) ≡ map (λ e. e.origin) (e ∷ entries)
unfolding allowed_origins
allowed_origins-written e [] (clean, _) =
    rw (split-NoComma (text_of e) (text_of-NoComma e clean), trim-text_of e clean)
      (filled-cons e.origin [] (origin-filled e.origin clean.starts))
allowed_origins-written e (next ∷ entries) (clean, rest) =
    rw
      (
        split-comma (text_of e) (written next entries) (text_of-NoComma e clean),
        trim-text_of e clean,
      )
      (filled-cons e.origin (map trim (split (written next entries)))
          (origin-filled e.origin clean.starts)
        ∙ ap (◌∷◌ e.origin) (allowed_origins-written next entries rest))

abbrev pub Names : String → List Entry → Type 0
Names origin [] = ⊥
Names origin (e ∷ entries) = (e.origin ≡ origin) ⊎ Names origin entries

includes-Names :
    (origin : String) (entries : List Entry)
    → (includes (map (λ e. e.origin) entries) origin ≡ true) ↔ Names origin entries
unfolding includes
includes-Names origin [] = (λ h. absurd (ground arith), λ h. absurd h)
includes-Names origin (e ∷ entries) =
    let rest = includes-Names origin entries in
    (
      λ h. elim (Bool-cases (e.origin == origin)) [
        | inl same ↦ inl (ground arith)
        | inr other ↦ inr (rest.0 (ground arith))
      ],
      λ h. elim h [ inl same ↦ ground arith | inr later ↦ ground (arith, rest.1 later) ],
    )

-- A browser may call from an origin exactly if one of the entries of the variable names it; a call
-- that names no origin is always let in.
pub cors_origin-written :
    (e : Entry) (entries : List Entry) (origin : String)
    → AllClean (e ∷ entries)
    → origin ≢ ""
    → let allowed = allowed_origins (some (written e entries)) in
      (cors_origin allowed none ≡ ok tt)
      × ((cors_origin allowed (some origin) ≡ ok tt) ↔ Names origin (e ∷ entries))
unfolding cors_origin
cors_origin-written e entries origin clean named =
    let listed = includes-Names origin (e ∷ entries) in
    rw (allowed_origins-written e entries clean)
      (refl, (λ h. listed.0 (ground arith), λ h. ground (arith, listed.1 h)))
