-- ===== src/Common/Validators.antt =====
-- The validators of account numbers, of BVNs and of amounts. A value of a request body is a text, a
-- number, of which the sign and JavaScript's text are given, or something else.
-- Source: src/common/validators/fintech.validators.ts.
pub mod Formats
use Prim.Native.Char.{code}
use vault_api.Prelude.{
  ℕ, zero, suc, String, Bool, true, false, ◌&&◌, ◌||◌, leb, ◌==◌, nat_eq, if◌then◌else◌,
}

pub data Value : Type 0 where
  text : String → Value
  number : Bool → String → Value
  other : Value

-- `\d`
abbrev pub is_digit : ℕ → Bool
is_digit c = leb 48 c && leb c 57

-- `/^\d{n}$/`
unfoldable pub digits : ℕ → String → Bool
digits zero String.[] = true
digits zero (String.◌∷◌ c s) = false
digits (suc n) String.[] = false
digits (suc n) (String.◌∷◌ c s) = is_digit (code c) && digits n s

-- `/^(\.\d{1,2})?$/`, from the point on.
unfoldable pub fraction : String → Bool
unfolding digits
fraction String.[] = true
fraction (String.◌∷◌ c s) = code c == 46 && (digits 1 s || digits 2 s)

-- `/^\d*(\.\d{1,2})?$/`
unfoldable pub decimal_rest : String → Bool
unfolding fraction
decimal_rest String.[] = true
decimal_rest (String.◌∷◌ c s) =
    let rest = decimal_rest s in if is_digit (code c) then rest else fraction (String.◌∷◌ c s)

-- `/^\d+(\.\d{1,2})?$/`
unfoldable pub decimal : String → Bool
unfolding decimal_rest
decimal String.[] = false
decimal (String.◌∷◌ c s) = is_digit (code c) && decimal_rest s

unfoldable pub is_nuban : Value → Bool
unfolding digits
is_nuban (text s) = digits 10 s
is_nuban _ = false

unfoldable pub is_bvn : Value → Bool
unfolding digits
is_bvn (text s) = digits 11 s
is_bvn _ = false

unfoldable pub is_positive_decimal : Value → Bool
unfolding decimal
is_positive_decimal (number positive shown) = if positive then decimal shown else false
is_positive_decimal _ = false
