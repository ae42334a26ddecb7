-- ===== src/Common/ParsePagination.antt =====
-- `ParsePaginationPipe`. `parse_int` is JavaScript's, with `none` for NaN; a parameter that is missing
-- is `none`.
-- Source: src/common/pipes/parse-pagination.pipe.ts.
use vault_api.Prelude.{
  ℕ, zero, suc, ◌+◌, ◌-◌, ◌*◌, ◌≤◌, ◌≡◌, arith, String, Option, some, none, min, max, ltb,
  if◌then◌else◌,
}
use vault_api.Prelude.Int.{ℤ, pos, negsuc}

pub record PaginationParams : Type 0 where
  pub page : ℕ
  pub limit : ℕ
  pub offset : ℕ

-- `Math.max(1, n || fallback)`, where NaN and 0 are falsy.
abbrev at_least_one : ℕ → Option ℤ → ℕ
at_least_one fallback none = max 1 fallback
at_least_one fallback (some (pos n)) = if ltb 0 n then n else max 1 fallback
at_least_one fallback (some (negsuc n)) = 1

abbrev or_text : String → Option String → String
or_text fallback none = fallback
or_text fallback (some text) = text

last_row : (page limit : ℕ) → 1 ≤ page → (page - 1) * limit + limit ≡ page * limit
last_row zero limit h = absurd (omega (arith, h))
last_row (suc n) limit h = grind arith

module _ (parse_int : String → Option ℤ) where
  -- Neither number is ever NaN, so the check for it is never met.
  unfoldable pub transform : Option String → Option String → PaginationParams
  transform page_text limit_text =
      let page = at_least_one 1 (parse_int (or_text "1" page_text)) in
      let limit = min 100 (at_least_one 20 (parse_int (or_text "20" limit_text))) in
      record { page = page; limit = limit; offset = (page - 1) * limit }

  at_least_one_bound : (fallback : ℕ) (n : Option ℤ) → 1 ≤ at_least_one fallback n
  at_least_one_bound fallback none = ground arith
  at_least_one_bound fallback (some (pos n)) = ground arith
  at_least_one_bound fallback (some (negsuc n)) = omega arith

  -- Whatever the query says, and whatever is missing in it, the page is at least 1, the limit is
  -- between 1 and 100, and the offset is that of the page.
  pub transform_bounds :
      (page_text limit_text : Option String)
      → let params = transform page_text limit_text in
        (1 ≤ params.page)
        × (1 ≤ params.limit)
        × (params.limit ≤ 100)
        × (params.offset + params.limit ≡ params.page * params.limit)
  unfolding transform
  transform_bounds page_text limit_text =
      let one_page = at_least_one_bound 1 (parse_int (or_text "1" page_text)) in
      let one_row = at_least_one_bound 20 (parse_int (or_text "20" limit_text)) in
      (one_page, omega (arith, one_row), omega arith, last_row _ _ one_page)
