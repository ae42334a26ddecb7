-- ===== src/Common/Pagination.antt =====
-- Pages of a list: what `skip`, `take` and `paginate` give, over the rows in their order.
-- Pages are counted from 1, and a limit is not 0.
-- Source: src/transactions/transactions.service.ts.
use native.Mathlib.Nat.{le-div_iff_mul-le, div-mul-le_self, mod-add-div', mod-lt}
use vault_api.Prelude.{
  ℕ, zero, suc, ◌+◌, ◌-◌, ◌*◌, ◌/◌, ◌%◌, ◌≤◌, ◌<◌, ◌≡◌, ap, arith, min, Option, none, some, List,
  [], ◌∷◌, length, ltb, if◌then◌else◌,
}

pub record PaginatedResult (T : Type 0) : Type 0 where
  pub items : List T
  pub total : ℕ
  pub page : ℕ
  pub limit : ℕ
  pub total_pages : ℕ

div_fits : (n limit i : ℕ) → 0 < limit → i < n → i / limit + 1 ≤ (n + limit - 1) / limit
div_fits n limit i positive here =
    (le-div_iff_mul-le positive).1 (grind (arith, div-mul-le_self i limit))

place_in_page : (limit i : ℕ) → (i / limit + 1 - 1) * limit + i % limit ≡ i
place_in_page limit i = grind (arith, mod-add-div' i limit)

module _ {T : Type 0} where
  unfoldable pub skip : ℕ → List T → List T
  skip zero rows = rows
  skip (suc n) [] = []
  skip (suc n) (_ ∷ rows) = skip n rows

  unfoldable pub take : ℕ → List T → List T
  take zero rows = []
  take (suc n) [] = []
  take (suc n) (r ∷ rows) = r ∷ take n rows

  unfoldable pub nth : ℕ → List T → Option T
  nth n [] = none
  nth zero (r ∷ rows) = some r
  nth (suc n) (_ ∷ rows) = nth n rows

  -- `Math.ceil(total / limit)` for a limit that is not 0.
  unfoldable pub paginate : List T → ℕ → ℕ → ℕ → PaginatedResult T
  paginate items total page limit = record {
    items = items;
    total = total;
    page = page;
    limit = limit;
    total_pages = (total + limit - 1) / limit;
  }

  -- The page counts from 1, which the code does not check.
  -- A query with `.skip((page - 1) * limit).take(Math.min(limit, cap))` and the count of all rows.
  unfoldable pub page_of : ℕ → List T → ℕ → ℕ → PaginatedResult T
  unfolding paginate skip take
  page_of cap rows page limit =
      paginate (take (min limit cap) (skip ((page - 1) * limit) rows)) (length rows) page limit

  nth-skip : (n k : ℕ) (rows : List T) → nth k (skip n rows) ≡ nth (n + k) rows
  unfolding skip nth
  nth-skip zero k rows = ground arith
  nth-skip (suc n) k [] = ground arith
  nth-skip (suc n) k (_ ∷ rows) = ground (arith, nth-skip n k rows)

  nth-take :
      (n k : ℕ) (rows : List T) → nth k (take n rows) ≡ (if ltb k n then nth k rows else none)
  unfolding take nth
  nth-take zero k rows = ground arith
  nth-take (suc n) k [] = ground arith
  nth-take (suc n) zero (r ∷ rows) = ground arith
  nth-take (suc n) (suc k) (r ∷ rows) = ground (arith, nth-take n k rows)

  nth-length : (k : ℕ) (rows : List T) (x : T) → nth k rows ≡ some x → k < length rows
  unfolding nth
  nth-length k [] x h = ground arith
  nth-length zero (r ∷ rows) x h = omega arith
  nth-length (suc k) (r ∷ rows) x h = omega (arith, nth-length k rows x h)

  -- What stands at a place of a page: the rows of a page past the cap are on no page.
  pub nth-page_of :
      (cap : ℕ) (rows : List T) (page limit k : ℕ)
      → nth k (page_of cap rows page limit).items
        ≡ (if ltb k (min limit cap) then nth ((page - 1) * limit + k) rows else none)
  unfolding page_of paginate
  nth-page_of cap rows page limit k = ground (
    arith,
    nth-take (min limit cap) k (skip ((page - 1) * limit) rows),
    nth-skip ((page - 1) * limit) k rows,
  )

  -- With a limit that the cap allows, every row stands on one of the pages that are announced.
  pub page_of_complete :
      (cap : ℕ) (rows : List T) (limit i : ℕ) (x : T)
      → 0 < limit
      → limit ≤ cap
      → nth i rows ≡ some x
      → (nth (i % limit) (page_of cap rows (i / limit + 1) limit).items ≡ some x)
        × (i / limit + 1 ≤ (page_of cap rows (i / limit + 1) limit).total_pages)
  unfolding page_of paginate
  page_of_complete cap rows limit i x positive allowed here = (
    ground (
      arith,
      nth-page_of cap rows (i / limit + 1) limit (i % limit),
      mod-lt i positive,
      ap (λ m. nth m rows) (place_in_page limit i),
    ),
    div_fits (length rows) limit i positive (nth-length i rows x here),
  )
