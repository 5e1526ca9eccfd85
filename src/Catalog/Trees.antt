-- ===== src/Catalog/Trees.antt =====
-- app/services/repository_service.py: `get_tree`, which nests the rows of the index. A row is linked to the
-- last node before it that has the path of its parent and is a directory, else it is a root; the nodes are
-- the rows with their positions, and the nesting is read from the links.
use repo_info_backend.Catalog.Paths.{path_beq, path_eq}
use repo_info_backend.Catalog.Queries.{get_repository}
use repo_info_backend.Catalog.Service.{owned_repository}
use repo_info_backend.Catalog.Tables.{FilePath, NodeType, RepositoryFile, Shelf}
use repo_info_backend.Database.Session.{Action, gets, pure, ◌>>=◌}
use repo_info_backend.Prelude.{
  Bool, List, Option, [], false, filter, find?, if◌then◌else◌, nat_eq, none, some, text_eq, true, ℕ,
  ◌+◌, ◌==◌, ◌∷◌,
}

-- an entry of the dict `by_path`: the node's path, its position, and whether it has children
pub record Entry : Type 0 where
  pub path : FilePath
  pub position : ℕ
  pub is_directory : Bool

pub record LinkedRow : Type 0 where
  pub row : RepositoryFile
  pub index : ℕ
  pub parent : Option ℕ

abbrev pub has_children : NodeType → Bool
has_children NodeType.file = false
has_children NodeType.directory = true

abbrev pub entry_of : ℕ → RepositoryFile → Entry
entry_of i row = record { path = row.path; position = i; is_directory = has_children row.node_type }

-- `by_path.get(path)`: the newest entry of a path stands first
abbrev pub find_entry : FilePath → List Entry → Option Entry
unfolding path_beq
find_entry path table = find? (λ e. e.path == path) table

-- `if parent and parent.children is not None`
abbrev pub directory_position : Option Entry → Option ℕ
directory_position none = none
directory_position (some e) = if e.is_directory then some e.position else none

-- `by_path.get(row.parent_path) if row.parent_path else None`; the root's path is false
abbrev pub parent_position : Option FilePath → List Entry → Option ℕ
unfolding path_beq
parent_position none table = none
parent_position (some []) table = none
parent_position (some (name ∷ up)) table = directory_position (find_entry (name ∷ up) table)

-- the loop over the rows; a node is entered before its parent is looked up
unfoldable pub link_rows : ℕ → List Entry → List RepositoryFile → List LinkedRow
unfolding path_beq
link_rows i table [] = []
link_rows i table (row ∷ rows) =
    let table' = entry_of i row ∷ table in
    record { row = row; index = i; parent = parent_position row.parent_path table' }
    ∷ link_rows (i + 1) table' rows

-- `FileTreeNodeOut`: the columns of a row, and the children of a directory
mutual
  pub data FileTreeNode : Type 0 where
    node : RepositoryFile → FileTreeNodes → FileTreeNode

  pub data FileTreeNodes : Type 0 where
    nil : FileTreeNodes
    cons : FileTreeNode → FileTreeNodes → FileTreeNodes

abbrev pub same_parent : Option ℕ → Option ℕ → Bool
same_parent none none = true
same_parent none (some q) = false
same_parent (some p) none = false
same_parent (some p) (some q) = p == q

-- The nodes that are appended to one list of children, or to the roots, in their order. The children of
-- a node come behind it.
unfoldable pub nested : List LinkedRow → Option ℕ → FileTreeNodes
nested [] p = FileTreeNodes.nil
nested (x ∷ xs) p =
    let own = nested xs (some x.index) in
    let rest = nested xs p in
    if same_parent x.parent p then FileTreeNodes.cons (FileTreeNode.node x.row own) rest else rest

unfoldable pub tree_of : List RepositoryFile → FileTreeNodes
unfolding link_rows nested
tree_of rows = nested (link_rows 0 [] rows) none

-- `order_by(RepositoryFile.path.asc())`, in the order of the database on paths
abbrev pub insert_row :
    (FilePath → FilePath → Bool) → RepositoryFile → List RepositoryFile → List RepositoryFile
insert_row earlier row [] = row ∷ []
insert_row earlier row (x ∷ xs) =
    let rest = insert_row earlier row xs in
    if earlier x.path row.path then x ∷ rest else row ∷ x ∷ xs

abbrev pub sort_rows : (FilePath → FilePath → Bool) → List RepositoryFile → List RepositoryFile
sort_rows earlier [] = []
sort_rows earlier (row ∷ rows) = insert_row earlier row (sort_rows earlier rows)

abbrev pub in_repository : ℕ → RepositoryFile → Bool
in_repository repo_id f = f.repository_id == repo_id

unfoldable pub tree_for : (FilePath → FilePath → Bool) → ℕ → Shelf → List RepositoryFile
tree_for earlier repo_id s = sort_rows earlier (filter (in_repository repo_id) s.files)

unfoldable pub get_tree : (FilePath → FilePath → Bool) → ℕ → ℕ → Action Shelf FileTreeNodes
unfolding tree_of tree_for
get_tree earlier user_id repo_id = do
  repo ← owned_repository user_id (← gets (get_repository repo_id))
  rows ← gets (tree_for earlier repo_id)
  pure (tree_of rows)
