-- ===== src/Analysis/Architecture.antt =====
-- app/workers/tasks/repository.py: `_detect_architecture`. The set of directories is iterated in an
-- order of its own: `iterate` is that order.
use repo_info_backend.Analysis.Indexing.{member}
use repo_info_backend.Analysis.Statistics.{is_file}
use repo_info_backend.Catalog.Paths.{path_eq}
use repo_info_backend.Catalog.Tables.{FilePath, RepositoryArchitecture, RepositoryFile}
use repo_info_backend.Prelude.{
  Bool, List, Text, [], codes, false, filter, if◌then◌else◌, map, nat_eq, none, some, string_eq,
  take, text_eq, true, ℕ, ◌&&◌, ◌==◌, ◌||◌, ◌∷◌,
}

abbrev starts_with : Text → Text → Bool
starts_with [] t = true
starts_with (p ∷ ps) [] = false
starts_with (p ∷ ps) (c ∷ t) = p == c && starts_with ps t

-- `word in text`
abbrev pub contains : Text → Text → Bool
contains word [] = word == []
contains word (c ∷ t) = starts_with word (c ∷ t) || contains word t

-- `word in path`, for a word without a slash: one of the names has it
abbrev pub path_contains : Text → FilePath → Bool
path_contains word [] = false
path_contains word (name ∷ up) = contains word name || path_contains word up

-- the truth value of a path is that it is not empty
abbrev pub parent_dirs : List RepositoryFile → List FilePath
parent_dirs [] = []
parent_dirs (e ∷ es) =
    let rest = parent_dirs es in
    elim e.parent_path [ none ↦ rest | some p ↦ if member p rest then rest else p ∷ rest ]

abbrev pub some_dir : Text → List FilePath → Bool
some_dir word [] = false
some_dir word (d ∷ ds) = path_contains word d || some_dir word ds

abbrev either : Text → Text → FilePath → Bool
either a b d = path_contains a d || path_contains b d

abbrev main_files : List FilePath
main_files =
    (codes "index.ts" ∷ codes "src" ∷ [])
    ∷ (codes "index.tsx" ∷ codes "src" ∷ [])
    ∷ (codes "main.tsx" ∷ codes "src" ∷ [])
    ∷ (codes "main.py" ∷ [])
    ∷ (codes "main.py" ∷ codes "app" ∷ [])
    ∷ []

abbrev pub is_entry_point : RepositoryFile → Bool
is_entry_point e = is_file e && member e.path main_files

pub data Pattern : Type 0 where
  component layered frontend : Pattern

-- the conditions, in the order of the code
abbrev pub pattern_of : List FilePath → Pattern
pattern_of dirs =
    if some_dir (codes "controllers") dirs && some_dir (codes "services") dirs
    then Pattern.layered
    else if some_dir (codes "components") dirs
    then Pattern.frontend
    else Pattern.component

abbrev pub pattern_name : Pattern → Text
pattern_name Pattern.component = codes "Component Architecture"
pattern_name Pattern.layered = codes "Layered Architecture"
pattern_name Pattern.frontend = codes "Component-Driven Frontend"

abbrev pub layers_of : Pattern → List FilePath → List (Text × List FilePath)
layers_of Pattern.component dirs = []
layers_of Pattern.layered dirs =
    (codes "controllers", take 5 (filter (path_contains (codes "controllers")) dirs))
    ∷ (codes "services", take 5 (filter (path_contains (codes "services")) dirs))
    ∷ (codes "repositories", take 5 (filter (path_contains (codes "repositories")) dirs))
    ∷ []
layers_of Pattern.frontend dirs =
    (codes "presentation", take 5 (filter (either (codes "components") (codes "pages")) dirs))
    ∷ (codes "state", take 5 (filter (either (codes "store") (codes "services")) dirs))
    ∷ []

unfoldable pub detect_architecture :
    (List FilePath → List FilePath) → ℕ → List RepositoryFile → RepositoryArchitecture
detect_architecture iterate repo_id entries =
    let dirs = iterate (parent_dirs entries) in
    let pattern_found = pattern_of dirs in
    record {
      repository_id = repo_id;
      pattern = pattern_name pattern_found;
      layers = layers_of pattern_found dirs;
      entry_points = map (λ (e : RepositoryFile). e.path) (filter is_entry_point entries);
    }
