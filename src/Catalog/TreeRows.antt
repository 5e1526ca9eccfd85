-- ===== src/Catalog/TreeRows.antt =====
-- The tree of `get_tree` in app/services/repository_service.py holds the rows of the index, each once.
use repo_info_backend.Catalog.Paths.{path_beq}
use repo_info_backend.Catalog.Queries.{get_repository}
use repo_info_backend.Catalog.RowOrder.{All-sort_rows, count-sort_rows}
use repo_info_backend.Catalog.Tables.{FilePath, Repository, RepositoryFile, Shelf}
use repo_info_backend.Catalog.TreeCounts.{
  IsBelow, Linked, count_linked, count_nodes, nested_total, sum_below,
}
use repo_info_backend.Catalog.Trees.{
  Entry, FileTreeNodes, directory_position, entry_of, find_entry, get_tree, in_repository,
  link_rows, parent_position, sort_rows, tree_for, tree_of,
}
use repo_info_backend.Database.Session.{ok}
use repo_info_backend.Prelude.{
  All, All-map, AllOf, Bool, List, Option, [], ap, arith, beq_false, count, false, filter,
  find?-AllOf, if◌then◌else◌, nat_beq_refl, none, refl, some, suc, sym, true, ℕ, ◌+◌, ◌<◌, ◌∷◌, ◌≡◌,
  ◌≢◌,
}

-- the entries of the dict are of the rows before
abbrev Entered : ℕ → List Entry → Type 0
Entered i table = All (λ (e : Entry). e.position < i) table

Entered-next : (i : ℕ) (table : List Entry) → Entered i table → Entered (suc i) table
Entered-next i table h = All-map (λ e low. omega arith) table h

directory_position-IsBelow :
    (i : ℕ) (o : Option Entry)
    → AllOf (λ (e : Entry). e.position < i) o
    → IsBelow i (directory_position o)
directory_position-IsBelow i none h = tt
directory_position-IsBelow i (some e) h = either e.is_directory
  where
    either : (b : Bool) → IsBelow i (if b then some e.position else none)
    either true = h
    either false = tt

-- no row is its own parent
abbrev pub NotOwnParent : RepositoryFile → Type 0
NotOwnParent row = row.parent_path ≢ some row.path

parent_position-IsBelow :
    (i : ℕ) (row : RepositoryFile) (parent : Option FilePath) (table : List Entry)
    → parent ≢ some row.path
    → Entered i table
    → IsBelow i (parent_position parent (entry_of i row ∷ table))
unfolding path_beq
parent_position-IsBelow i row none table other h = tt
parent_position-IsBelow i row (some []) table other h = tt
parent_position-IsBelow i row (some (name ∷ up)) table other h =
    rw (beq_false row.path (name ∷ up) (λ e. other (ap some (sym e)))) (
      directory_position-IsBelow i (find_entry (name ∷ up) table)
        (find?-AllOf _ _ table (All-map (λ e low t. low) table h)))

link_rows-Linked :
    (i : ℕ) (table : List Entry) (rows : List RepositoryFile)
    → All NotOwnParent rows
    → Entered i table
    → Linked i (link_rows i table rows)
unfolding link_rows
link_rows-Linked i table [] own h = tt
link_rows-Linked i table (row ∷ rows) own h = (
  refl,
  parent_position-IsBelow i row row.parent_path table own.0 h,
  (let e : i + 1 ≡ suc i = omega arith in
      rw (e) (
        link_rows-Linked (suc i) (entry_of i row ∷ table) rows own.1
          (omega arith, Entered-next i table h))),
)

count_linked-link_rows :
    (q : RepositoryFile → Bool) (i : ℕ) (table : List Entry) (rows : List RepositoryFile)
    → count_linked q (link_rows i table rows) ≡ count q rows
unfolding link_rows
count_linked-link_rows q i table [] = refl
count_linked-link_rows q i table (row ∷ rows) =
    omega (arith, count_linked-link_rows q (i + 1) (entry_of i row ∷ table) rows)

-- The tree that an owner is shown holds the rows of the repository, each as often as it is stored, whatever
-- the order that the database puts them in: nothing is lost below a file or a missing directory. No row
-- may be its own parent.
pub get_tree_complete :
    (earlier : FilePath → FilePath → Bool) (user_id repo_id : ℕ) (s : Shelf) (r : Repository)
    → get_repository repo_id s ≡ some r
    → r.added_by_id ≡ user_id
    → All NotOwnParent (filter (in_repository repo_id) s.files)
    → (tree : FileTreeNodes) × (get_tree earlier user_id repo_id s ≡ (ok tree, s))
      × ((q : RepositoryFile → Bool)
          → count_nodes q tree ≡ count q (filter (in_repository repo_id) s.files))
unfolding get_tree tree_for tree_of sum_below
get_tree_complete earlier user_id repo_id s r found mine own = (
  tree_of rows,
  rw (found) (rw (mine, nat_beq_refl user_id)),
  λ q. omega (
    arith,
    nested_total q 0 (link_rows 0 [] rows)
        (link_rows-Linked 0 [] rows (All-sort_rows NotOwnParent earlier _ own) tt),
    count_linked-link_rows q 0 [] rows,
    count-sort_rows q earlier (filter (in_repository repo_id) s.files),
  ),
)
  where
    rows : List RepositoryFile
    rows = sort_rows earlier (filter (in_repository repo_id) s.files)
