-- ===== src/Tests/TextTests.antt =====
-- The validators' texts, and a list of origins.
use Prim.Native.String.{count}
use vault_api.Prelude.{
  ◌≤◌, String, true, [], ◌∷◌, some, none, refl, arith, ◌≡◌, ◌↔◌, nat_eq, string_eq, string_differ,
}
use vault_api.Http.Action.{ok}
use vault_api.Common.Validators.{text, number, is_nuban, is_bvn, is_positive_decimal}
use vault_api.Common.Validators.Formats.{AllDigits, IsDecimal, validators-take}
use vault_api.Bootstrap.{allowed_origins, trim_end, cors_origin}
use vault_api.Bootstrap.Origins.{
  Entry, AllClean, Names, allowed_origins-written, cors_origin-written,
}

validators-take_example :
    ((is_nuban (text "0123456789") ≡ true)
      ↔ ((s : String) × (text "0123456789" ≡ text s) × (count s ≡ 10) × AllDigits s))
    × ((is_bvn (text "0123456789") ≡ true)
        ↔ ((s : String) × (text "0123456789" ≡ text s) × (count s ≡ 11) × AllDigits s))
    × ((is_positive_decimal (text "0123456789") ≡ true) ↔ (
        (s : String) × (text "0123456789" ≡ number true s)
        × (d : IsDecimal s) × (1 ≤ count d.whole)))
validators-take_example = validators-take (text "0123456789")

abbrev shop : Entry
shop = record { left = ""; origin = "https://shop.example"; right = "" }

abbrev bank : Entry
bank = record { left = " "; origin = "https://bank.example"; right = "" }

clean : AllClean (shop ∷ bank ∷ [])
unfolding trim_end nat_eq
clean = (
  record {
    left_spaces = tt;
    left_plain = tt;
    right_spaces = tt;
    right_plain = tt;
    plain = omega arith;
    starts = refl;
    ends = refl;
  },
  (
    record {
      left_spaces = (refl, tt);
      left_plain = omega arith;
      right_spaces = tt;
      right_plain = tt;
      plain = omega arith;
      starts = refl;
      ends = refl;
    },
    tt,
  ),
)

allowed_origins-written_example :
    allowed_origins (some "https://shop.example, https://bank.example")
    ≡ "https://shop.example" ∷ "https://bank.example" ∷ []
allowed_origins-written_example = allowed_origins-written shop (bank ∷ []) clean

cors_origin-written_example :
    let allowed = allowed_origins (some "https://shop.example, https://bank.example") in
    (cors_origin allowed none ≡ ok tt)
    × ((cors_origin allowed (some "https://bank.example") ≡ ok tt)
        ↔ Names "https://bank.example" (shop ∷ bank ∷ []))
cors_origin-written_example =
    cors_origin-written shop (bank ∷ []) "https://bank.example" clean
      (string_differ "https://bank.example" "" refl)
