-- ===== src/Database/Tests.antt =====
-- Runs of the list views.
use repo_info_backend.Database.Pages.{
  PageParams, build_paginated_response, has_next_page_iff, select_page,
}
use repo_info_backend.Prelude.{
  List, Option, [], length, none, refl, some, true, ℕ, ◌↔◌, ◌∷◌, ◌≡◌, ◌≤◌,
}

abbrev rows : List (ℕ × Option ℕ)
rows = (1, none) ∷ (2, some 9) ∷ (3, none) ∷ (4, none) ∷ []

abbrev deletion : Option (ℕ × Option ℕ → Option ℕ)
deletion = some (λ row. row.1)

abbrev first : PageParams
first = record { page = 1; page_size = 2 }

abbrev second : PageParams
second = record { page = 2; page_size = 2 }

has_next_page_iff_example :
    let (items, total) = select_page deletion [] (λ xs. xs) first rows in
    ((build_paginated_response items total first).has_next_page ≡ true)
    ↔ (1 ≤ length (select_page deletion [] (λ xs. xs) second rows).0)
has_next_page_iff_example =
    has_next_page_iff deletion [] (λ xs. xs) (λ xs. xs) rows 0 1 (λ xs. refl) (λ xs. refl)

-- the second page holds the last of the three rows that are not deleted
test_second : select_page deletion [] (λ xs. xs) second rows ≡ ((4, none) ∷ [], 3)
unfolding select_page
test_second = refl
