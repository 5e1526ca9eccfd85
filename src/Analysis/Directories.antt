-- ===== src/Analysis/Directories.antt =====
-- The rows of `_index_tree` of app/workers/tasks/repository.py form a tree.
use repo_info_backend.Analysis.Indexing.{
  DiskFile, add_dirs, all_dirs, dir_row, file_rows, index_tree, member, parent_of, path_or_empty,
}
use repo_info_backend.Analysis.Tree.{
  Closed, Listed, add_dirs-Listed, all_dirs-Closed, all_dirs-inside, inside, member-append, tail_of,
}
use repo_info_backend.Catalog.Paths.{path_eq}
use repo_info_backend.Catalog.Tables.{FilePath, RepositoryFile}
use repo_info_backend.Prelude.{
  All, All-append, Bool-cases, List, Text, [], ap, beq_false, beq_refl, false, inl, inr, map,
  nat_eq, or_left, or_right, refl, subst, sym, take, text_eq, true, ℕ, ◌++◌, ◌==◌, ◌∙◌, ◌∷◌, ◌≡◌,
}

unfoldable pub Distinct : List FilePath → Type 0
Distinct [] = Unit
Distinct (x ∷ xs) = (member x xs ≡ false) × Distinct xs

not_member :
    (p x : FilePath) (xs : List FilePath)
    → member p (x ∷ xs) ≡ false
    → ((p == x) ≡ false) × (member p xs ≡ false)
not_member p x xs h = (beq_false p x (λ e. differ e), or_right (x == p) (member p xs) h)
  where
    differ : p ≡ x → ⊥
    differ e =
        let same : (x == p) ≡ true = ap (λ y. y == p) (sym e) ∙ beq_refl p in
        let other : (x == p) ≡ false = or_left (x == p) (member p xs) h in cc (same, other)

Distinct-append :
    (p : FilePath) (xs : List FilePath)
    → member p xs ≡ false
    → Distinct xs
    → Distinct (xs ++ p ∷ [])
unfolding Distinct
Distinct-append p [] h d = (refl, tt)
Distinct-append p (x ∷ xs) h d = (
  rw (member-append x xs (p ∷ []), d.0, (not_member p x xs h).0),
  Distinct-append p xs (not_member p x xs h).1 d.1,
)

add_dirs-Distinct :
    (repo_id : ℕ) (p : FilePath) (seen : List FilePath) (rows : List RepositoryFile)
    → Distinct seen
    → Distinct (add_dirs repo_id p (seen, rows)).0
unfolding add_dirs
add_dirs-Distinct repo_id [] seen rows d = d
add_dirs-Distinct repo_id (name ∷ up) seen rows d = elim (Bool-cases (member (name ∷ up) seen)) [
  | inl t ↦ rw t d
  | inr f ↦ rw f (
      add_dirs-Distinct repo_id up (seen ++ (name ∷ up) ∷ [])
        (rows ++ dir_row repo_id (name ∷ up) ∷ []) (Distinct-append (name ∷ up) seen f d))
]

all_dirs-Distinct :
    (repo_id : ℕ) (es : List RepositoryFile) (seen : List FilePath) (rows : List RepositoryFile)
    → Distinct seen
    → Distinct (all_dirs repo_id es (seen, rows)).0
unfolding all_dirs
all_dirs-Distinct repo_id [] seen rows d = d
all_dirs-Distinct repo_id (e ∷ es) seen rows d =
    let (seen', rows') = add_dirs repo_id (path_or_empty e.parent_path) (seen, rows) in
    all_dirs-Distinct repo_id es seen' rows'
      (add_dirs-Distinct repo_id (path_or_empty e.parent_path) seen rows d)

all_dirs-Listed :
    (repo_id : ℕ) (es : List RepositoryFile) (seen : List FilePath) (rows : List RepositoryFile)
    → Listed repo_id (seen, rows)
    → Listed repo_id (all_dirs repo_id es (seen, rows))
unfolding all_dirs
all_dirs-Listed repo_id [] seen rows h = h
all_dirs-Listed repo_id (e ∷ es) seen rows h =
    let (seen', rows') = add_dirs repo_id (path_or_empty e.parent_path) (seen, rows) in
    all_dirs-Listed repo_id es seen' rows'
      (add_dirs-Listed repo_id (path_or_empty e.parent_path) seen rows h)

parent_is_tail : (p : FilePath) → path_or_empty (parent_of p) ≡ tail_of p
unfolding tail_of
parent_is_tail [] = refl
parent_is_tail (name ∷ []) = refl
parent_is_tail (name ∷ up ∷ rest) = refl

dir_parents :
    (repo_id : ℕ) (all dirs : List FilePath)
    → Closed all dirs
    → All
        (λ (e : RepositoryFile). inside all (path_or_empty e.parent_path) ≡ true)
        (map (dir_row repo_id) dirs)
unfolding Closed
dir_parents repo_id all [] h = tt
dir_parents repo_id all (d ∷ dirs) h =
    (ap (inside all) (parent_is_tail d) ∙ h.0, dir_parents repo_id all dirs h.1)

-- The index is a tree: after the rows of the files stands one row for each directory, no directory
-- twice, and the parent of every row, of files and directories alike, is the root or has its row.
pub index_tree_directories :
    (lower : Text → Text) (repo_id max_files : ℕ) (files : List DiskFile)
    → (dirs : List FilePath) × (index_tree lower repo_id max_files files
        ≡ file_rows lower repo_id (take max_files files) ++ map (dir_row repo_id) dirs)
      × Distinct dirs
      × All
          (λ (e : RepositoryFile). inside dirs (path_or_empty e.parent_path) ≡ true)
          (index_tree lower repo_id max_files files)
unfolding index_tree Listed Distinct Closed
index_tree_directories lower repo_id max_files files =
    let entries : List RepositoryFile = file_rows lower repo_id (take max_files files) in
    let dirs : List FilePath = (all_dirs repo_id entries ([], [])).0 in
    let listed = all_dirs-Listed repo_id entries [] [] refl in
    (
      dirs,
      ap (λ rows. entries ++ rows) listed,
      all_dirs-Distinct repo_id entries [] [] tt,
      All-append _ entries (all_dirs repo_id entries ([], [])).1
          (all_dirs-inside repo_id entries [] [])
          (subst
            (λ rows.
              All (λ (e : RepositoryFile). inside dirs (path_or_empty e.parent_path) ≡ true) rows)
            (sym listed)
            (dir_parents repo_id dirs dirs (all_dirs-Closed repo_id entries [] [] tt))),
    )
