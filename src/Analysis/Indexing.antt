-- ===== src/Analysis/Indexing.antt =====
-- app/workers/tasks/repository.py: `_index_tree`, `_language_stats` and `_security_scan`. A path is its
-- names, the innermost first, so that `Path.parent` drops the first of them.
use repo_info_backend.Catalog.Paths.{path_eq}
use repo_info_backend.Catalog.Tables.{FilePath, NodeType, RepositoryFile}
use repo_info_backend.Prelude.{
  Bool, List, Option, Text, [], codes, false, if◌then◌else◌, length, nat_eq, none, some, string_eq,
  take, text_eq, ℕ, ◌++◌, ◌==◌, ◌||◌, ◌∷◌,
}

-- LANG_EXT
abbrev pub lang_ext : List (Text × Text)
lang_ext =
    (codes ".py", codes "Python")
    ∷ (codes ".js", codes "JavaScript")
    ∷ (codes ".ts", codes "TypeScript")
    ∷ (codes ".tsx", codes "TypeScript")
    ∷ (codes ".jsx", codes "JavaScript")
    ∷ (codes ".java", codes "Java")
    ∷ (codes ".go", codes "Go")
    ∷ (codes ".rs", codes "Rust")
    ∷ (codes ".rb", codes "Ruby")
    ∷ (codes ".php", codes "PHP")
    ∷ (codes ".c", codes "C")
    ∷ (codes ".h", codes "C")
    ∷ (codes ".cpp", codes "C++")
    ∷ (codes ".hpp", codes "C++")
    ∷ (codes ".cs", codes "C#")
    ∷ (codes ".swift", codes "Swift")
    ∷ (codes ".kt", codes "Kotlin")
    ∷ (codes ".md", codes "Markdown")
    ∷ (codes ".json", codes "JSON")
    ∷ (codes ".yml", codes "YAML")
    ∷ (codes ".yaml", codes "YAML")
    ∷ (codes ".html", codes "HTML")
    ∷ (codes ".css", codes "CSS")
    ∷ (codes ".sh", codes "Shell")
    ∷ (codes ".sql", codes "SQL")
    ∷ []

abbrev pub dict_get {ℓ} : {A : Type ℓ} → Text → List (Text × A) → Option A
dict_get key [] = none
dict_get key ((k, v) ∷ rest) = if k == key then some v else dict_get key rest

-- the text from the last dot on
abbrev last_dot : Text → Option Text
last_dot [] = none
last_dot (c ∷ t) = elim (last_dot t) [
  | some r ↦ some r
  | none ↦ if c == b'.' then some (c ∷ t) else none
]

-- `PurePath.suffix`: a dot that begins or ends the name starts no suffix
abbrev pub suffix : Text → Text
suffix [] = []
suffix (c ∷ t) = elim (last_dot t) [ none ↦ [] | some r ↦ if r == codes "." then [] else r ]

-- A file of the clone that is no link; its size is none where `stat` fails.
pub record DiskFile : Type 0 where
  pub path : FilePath
  pub size : Option ℕ

abbrev pub parent_of : FilePath → Option FilePath
parent_of [] = none
parent_of (name ∷ []) = none
parent_of (name ∷ up ∷ rest) = some (up ∷ rest)

-- `Path.name` and the number of slashes
abbrev pub name_of : FilePath → Text
name_of [] = []
name_of (name ∷ up) = name

abbrev pub depth_of : FilePath → ℕ
depth_of [] = 0
depth_of (name ∷ up) = length up

abbrev pub file_row : (Text → Text) → ℕ → FilePath → ℕ → RepositoryFile
file_row lower repo_id path size = record {
  repository_id = repo_id;
  path = path;
  parent_path = parent_of path;
  name = name_of path;
  node_type = NodeType.file;
  language = dict_get (lower (suffix (name_of path))) lang_ext;
  size_bytes = size;
  depth = depth_of path;
}

abbrev pub dir_row : ℕ → FilePath → RepositoryFile
dir_row repo_id path = record {
  repository_id = repo_id;
  path = path;
  parent_path = parent_of path;
  name = name_of path;
  node_type = NodeType.directory;
  language = none;
  size_bytes = 0;
  depth = depth_of path;
}

-- the first loop, over at most `max_files` files
abbrev pub file_rows : (Text → Text) → ℕ → List DiskFile → List RepositoryFile
file_rows lower repo_id [] = []
file_rows lower repo_id (f ∷ fs) = elim f.size [
  | none ↦ file_rows lower repo_id fs
  | some size ↦ file_row lower repo_id f.path size ∷ file_rows lower repo_id fs
]

abbrev pub member : FilePath → List FilePath → Bool
member p [] = false
member p (x ∷ xs) = x == p || member p xs

-- `while parent and parent not in seen_dirs`: the empty path stands for no parent
unfoldable pub add_dirs :
    ℕ → FilePath → List FilePath × List RepositoryFile → List FilePath × List RepositoryFile
add_dirs repo_id [] acc = acc
add_dirs repo_id (name ∷ up) (seen, rows) =
    let rest =
      add_dirs repo_id up (seen ++ (name ∷ up) ∷ [], rows ++ dir_row repo_id (name ∷ up) ∷ []) in
    if member (name ∷ up) seen then (seen, rows) else rest

abbrev pub path_or_empty : Option FilePath → FilePath
path_or_empty none = []
path_or_empty (some p) = p

unfoldable pub all_dirs :
    ℕ
    → List RepositoryFile
    → List FilePath × List RepositoryFile
    → List FilePath × List RepositoryFile
unfolding add_dirs
all_dirs repo_id [] acc = acc
all_dirs repo_id (e ∷ es) acc =
    all_dirs repo_id es (add_dirs repo_id (path_or_empty e.parent_path) acc)

unfoldable pub index_tree : (Text → Text) → ℕ → ℕ → List DiskFile → List RepositoryFile
unfolding all_dirs
index_tree lower repo_id max_files files =
    let entries = file_rows lower repo_id (take max_files files) in
    entries ++ (all_dirs repo_id entries ([], [])).1
