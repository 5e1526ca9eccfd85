-- ===== src/Database/Pages.antt =====
-- app/dependencies/pagination.py, and the page that `BaseRepository.list` of app/repositories/base.py
-- cuts from the rows of a query.
use repo_info_backend.Prelude.{
  Bool, List, Option, [], ap, arith, drop, false, filter, if◌then◌else◌, is_some, leb, length,
  length-drop, length-take, ltb, none, not, some, suc, take, true, ℕ, ◌&&◌, ◌*◌, ◌+◌, ◌-◌, ◌↔◌, ◌∙◌,
  ◌∷◌, ◌≡◌, ◌≤◌,
}

-- `page` counts from 1, and `page_size` is at least 1: `pagination_params` refuses other values.
pub record PageParams : Type 0 where
  pub page : ℕ
  pub page_size : ℕ

unfoldable pub offset : PageParams → ℕ
offset p = (p.page - 1) * p.page_size

unfoldable pub limit : PageParams → ℕ
limit p = p.page_size

-- the bounds of `Query`, where `most` is 100, and 200 for messages
unfoldable pub pagination_params : ℕ → ℕ → ℕ → Option PageParams
pagination_params most page page_size =
    if leb 1 page && leb 1 page_size && leb page_size most
    then some (record { page = page; page_size = page_size })
    else none

pub record Page {ℓ} (A : Type ℓ) : Type ℓ where
  pub items : List A
  pub page : ℕ
  pub page_size : ℕ
  pub total : ℕ
  pub has_next_page : Bool

suc_times : (n k : ℕ) → suc n * k ≡ n * k + k
suc_times n k = grind arith

module _ {ℓ} {A : Type ℓ} where
  unfoldable pub build_paginated_response : List A → ℕ → PageParams → Page A
  unfolding offset
  build_paginated_response items total params = record {
    items = items;
    page = params.page;
    page_size = params.page_size;
    total = total;
    has_next_page = ltb (offset params + length items) total;
  }

  -- `deleted_at` where the model has that column
  abbrev pub is_deleted : Option (A → Option ℕ) → A → Bool
  is_deleted none row = false
  is_deleted (some deleted_at) row = is_some (deleted_at row)

  abbrev pub passes : List (A → Bool) → A → Bool
  passes [] row = true
  passes (f ∷ fs) row = f row && passes fs row

  -- The rows of `BaseRepository.list` and the count of the same conditions. `order` is the order in which the database
  -- gives the rows of this statement: that of `order_by`, or any where there is none.
  unfoldable pub select_page :
      Option (A → Option ℕ) → List (A → Bool) → (List A → List A) → PageParams → List A → List A × ℕ
  unfolding offset limit
  select_page deleted_at filters order p rows =
      let kept = filter (λ row. not (is_deleted deleted_at row) && passes filters row) rows in
      (take (limit p) (drop (offset p) (order kept)), length kept)

  next_page_lem :
      (xs ys : List A) (total m size : ℕ)
      → length xs ≡ total
      → length ys ≡ total
      → (ltb (m + length (take (suc size) (drop m xs))) total ≡ true)
        ↔ (1 ≤ length (take (suc size) (drop (m + suc size) ys)))
  next_page_lem xs ys total m size e e' = ground (
    arith,
    length-take (suc size) (drop m xs),
    length-drop m xs,
    length-take (suc size) (drop (m + suc size) ys),
    length-drop (m + suc size) ys,
  )

  -- `hasNextPage` tells the truth: over the same rows, it is set exactly when the next page has a row, even if the
  -- database orders the rows of the two statements differently. An order neither loses nor adds rows.
  pub has_next_page_iff :
      (deleted_at : Option (A → Option ℕ)) (filters : List (A → Bool))
      (order again : List A → List A) (rows : List A) (n size : ℕ)
      → ((xs : List A) → length (order xs) ≡ length xs)
      → ((xs : List A) → length (again xs) ≡ length xs)
      → let here : PageParams = record { page = suc n; page_size = suc size } in
        let next : PageParams = record { page = suc (suc n); page_size = suc size } in
        let (items, total) = select_page deleted_at filters order here rows in
        ((build_paginated_response items total here).has_next_page ≡ true)
        ↔ (1 ≤ length (select_page deleted_at filters again next rows).0)
  unfolding select_page build_paginated_response offset limit
  has_next_page_iff deleted_at filters order again rows n size keeps keeps' =
      let kept : List A =
        filter (λ row. not (is_deleted deleted_at row) && passes filters row) rows in
      let here : (suc n - 1) * suc size ≡ n * suc size = ap (λ k. k * suc size) (omega arith) in
      let next : (suc (suc n) - 1) * suc size ≡ n * suc size + suc size =
        ap (λ k. k * suc size) (omega arith) ∙ suc_times n (suc size) in
      rw (here, next)
        (next_page_lem (order kept) (again kept) (length kept) (n * suc size) size (keeps kept)
          (keeps' kept))
