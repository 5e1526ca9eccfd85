-- ===== src/Catalog/RowOrder.antt =====
-- Sorting the rows of the index by path (app/repositories/repository.py, `tree_for`) keeps each of them.
use repo_info_backend.Catalog.Tables.{FilePath, RepositoryFile}
use repo_info_backend.Catalog.Trees.{insert_row, sort_rows}
use repo_info_backend.Prelude.{
  All, Bool, Bool-cases, List, [], arith, count, if◌then◌else◌, inl, inr, refl, ◌+◌, ◌∷◌, ◌≡◌,
}

count-insert_row :
    (q : RepositoryFile → Bool) (earlier : FilePath → FilePath → Bool) (row : RepositoryFile)
    (rows : List RepositoryFile)
    → count q (insert_row earlier row rows) ≡ (if q row then 1 else 0) + count q rows
count-insert_row q earlier row [] = refl
count-insert_row q earlier row (x ∷ rows) = ground (arith, count-insert_row q earlier row rows)

pub count-sort_rows :
    (q : RepositoryFile → Bool) (earlier : FilePath → FilePath → Bool) (rows : List RepositoryFile)
    → count q (sort_rows earlier rows) ≡ count q rows
count-sort_rows q earlier [] = refl
count-sort_rows q earlier (row ∷ rows) =
    omega (
      arith,
      count-insert_row q earlier row (sort_rows earlier rows),
      count-sort_rows q earlier rows,
    )

All-insert_row :
    (P : RepositoryFile → Type 0) (earlier : FilePath → FilePath → Bool) (row : RepositoryFile)
    (rows : List RepositoryFile)
    → P row
    → All P rows
    → All P (insert_row earlier row rows)
All-insert_row P earlier row [] h hs = (h, tt)
All-insert_row P earlier row (x ∷ rows) h hs = elim (Bool-cases (earlier x.path row.path)) [
  | inl t ↦ rw (t) (hs.0, All-insert_row P earlier row rows h hs.1)
  | inr f ↦ rw (f) (h, hs)
]

pub All-sort_rows :
    (P : RepositoryFile → Type 0) (earlier : FilePath → FilePath → Bool)
    (rows : List RepositoryFile)
    → All P rows
    → All P (sort_rows earlier rows)
All-sort_rows P earlier [] h = tt
All-sort_rows P earlier (row ∷ rows) h =
    All-insert_row P earlier row (sort_rows earlier rows) h.0 (All-sort_rows P earlier rows h.1)
