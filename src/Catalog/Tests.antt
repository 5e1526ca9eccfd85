-- ===== src/Catalog/Tests.antt =====
-- Runs of the catalog on a small shelf.
use repo_info_backend.Catalog.GitUrl.{
  GitLocation, after, before, github, has_slash, location, match_host, match_url, parse_git_url,
  segment,
}
use repo_info_backend.Catalog.Lifecycle.{add_again, delete-add}
use repo_info_backend.Catalog.Ownership.{foreign_repository}
use repo_info_backend.Catalog.Queries.{
  get_by_full_name, get_repository, is_favorite, processing_sequence, taken, toggle_favorite,
}
use repo_info_backend.Catalog.RoundTrip.{parse_git_url-clone_url}
use repo_info_backend.Catalog.Service.{
  ProcessingStepOut, RepositoryAddRequest, add, delete, favorite, get, new_repository, pin,
  render_steps, reprocess,
}
use repo_info_backend.Catalog.Tables.{FilePath, NodeType, Repository, RepositoryFile, Shelf}
use repo_info_backend.Catalog.Toggles.{render_steps_stages, toggle_favorite_effect}
use repo_info_backend.Catalog.TreeCounts.{count_nodes}
use repo_info_backend.Catalog.TreeRows.{get_tree_complete}
use repo_info_backend.Catalog.Trees.{FileTreeNodes, get_tree, in_repository}
use repo_info_backend.Core.Errors.{AppError, Exception}
use repo_info_backend.Database.Session.{err, ok}
use repo_info_backend.Models.Enums.{RepositoryVisibility}
use repo_info_backend.Prelude.{
  Bool, Option, [], ap, arith, codes, count, filter, length, ltb, map, none, not, refl, some,
  text_beq, true, ℕ, ◌∷◌, ◌≡◌, ◌≢◌, ◌⊎◌,
}

abbrev bare : Shelf
bare = record {
  tables = record {
    repositories = [];
    favorites = [];
    pins = [];
    analyses = [];
    steps = [];
    files = [];
    dependencies = [];
    metrics = [];
    architectures = [];
    reports = [];
    findings = [];
    activity = [];
    next_id = 1;
  };
  queue = [];
}

abbrev pub engine : RepositoryAddRequest
engine = record {
  url = codes "github.com/ada/engine";
  branch = none;
  visibility = RepositoryVisibility.public;
}

abbrev engine_location : GitLocation
engine_location = location github (codes "ada") (codes "engine")

parse_git_url-clone_url_example : parse_git_url engine_location.clone_url ≡ some engine_location
unfolding parse_git_url match_url match_host after segment before has_slash text_beq
parse_git_url-clone_url_example =
    parse_git_url-clone_url (codes "github.com/ada/engine") engine_location refl

-- user 7 has added the repository, while the broker was up
unfoldable pub stocked : Shelf
stocked = (add true 100 7 engine bare).1

abbrev pub engine_row : Repository
engine_row = new_repository 1 7 engine_location engine

test_add_again :
    (l : GitLocation) × (parse_git_url engine.url ≡ some l)
    × (get_by_full_name 7 l.full_name stocked ≡ some (new_repository 1 7 l engine))
    × (add true 200 7 engine stocked ≡ (
      err (
          Exception.app (AppError.conflict "Repository already added." (some "repository_exists"))),
      stocked,
    ))
unfolding stocked add parse_git_url match_url match_host after segment before has_slash text_beq
    taken get_by_full_name
test_add_again = add_again true true 100 200 7 engine engine bare stocked _ refl refl

delete-add_example :
    ((delete 150 7 1 stocked).0 ≡ ok tt)
    × (get_by_full_name 7 engine_location.full_name (delete 150 7 1 stocked).1 ≡ none)
    × ((add true 200 7 engine (delete 150 7 1 stocked).1).0 ≡ err Exception.integrity)
unfolding stocked add delete parse_git_url match_url match_host after segment before has_slash
    text_beq taken get_by_full_name get_repository
delete-add_example =
    delete-add true 150 200 7 1 engine_row engine engine_location stocked refl refl refl refl
      (omega arith)

test_foreign_repository :
    (get 8 1 stocked ≡ (err (Exception.app (AppError.not_found "Repository")), stocked))
    × (reprocess true 200 8 1 stocked
        ≡ (err (Exception.app (AppError.not_found "Repository")), stocked))
    × (favorite 8 1 stocked ≡ (err (Exception.app (AppError.not_found "Repository")), stocked))
    × (pin 8 1 stocked ≡ (err (Exception.app (AppError.not_found "Repository")), stocked))
    × (delete 200 8 1 stocked ≡ (err (Exception.app (AppError.not_found "Repository")), stocked))
unfolding stocked add parse_git_url match_url match_host after segment before has_slash text_beq
    taken get_by_full_name
test_foreign_repository =
    foreign_repository true 200 8 1 stocked ((λ e other. omega (arith, other)), tt)

test_toggle_favorite_effect :
    (is_favorite 7 1 (toggle_favorite 7 1 bare).1 ≡ not (is_favorite 7 1 bare))
    × ((toggle_favorite 7 1 bare).0 ≡ ok (not (is_favorite 7 1 bare)))
    × ((u' r' : ℕ)
        → (7 ≢ u') ⊎ (1 ≢ r')
        → is_favorite u' r' (toggle_favorite 7 1 bare).1 ≡ is_favorite u' r' bare)
test_toggle_favorite_effect = toggle_favorite_effect 7 1 bare

test_render_steps_stages :
    map (λ (x : ProcessingStepOut). x.stage) (render_steps stocked.steps) ≡ processing_sequence
test_render_steps_stages = render_steps_stages stocked.steps

-- the run that was queued
test_queue : length stocked.queue ≡ 1
unfolding stocked add parse_git_url match_url match_host after segment before has_slash text_beq
    taken get_by_full_name
test_queue = refl

-- an index of a directory, a file in it, and a row whose parent is a file
abbrev indexed_row : FilePath → Option FilePath → NodeType → RepositoryFile
indexed_row path parent_path node_type = record {
  repository_id = 1;
  path = path;
  parent_path = parent_path;
  name = [];
  node_type = node_type;
  language = none;
  size_bytes = 0;
  depth = 1;
}

abbrev lib_dir : FilePath
lib_dir = codes "lib" ∷ []

abbrev main_file : FilePath
main_file = codes "main.py" ∷ lib_dir

abbrev indexed : Shelf
indexed = record {
  tables = record {
    repositories = engine_row ∷ [];
    favorites = [];
    pins = [];
    analyses = [];
    steps = [];
    files =
        indexed_row main_file (some lib_dir) NodeType.file
        ∷ indexed_row lib_dir none NodeType.directory
        ∷ indexed_row (codes "lost" ∷ main_file) (some main_file) NodeType.file
        ∷ [];
    dependencies = [];
    metrics = [];
    architectures = [];
    reports = [];
    findings = [];
    activity = [];
    next_id = 2;
  };
  queue = [];
}

-- shorter paths first
abbrev shorter : FilePath → FilePath → Bool
shorter p q = ltb (length p) (length q)

abbrev height : Option FilePath → ℕ
height none = 0
height (some p) = length p

get_tree_complete_example :
    (tree : FileTreeNodes) × (get_tree shorter 7 1 indexed ≡ (ok tree, indexed))
    × ((q : RepositoryFile → Bool)
        → count_nodes q tree ≡ count q (filter (in_repository 1) indexed.files))
unfolding get_repository
get_tree_complete_example = get_tree_complete shorter 7 1 indexed engine_row refl refl (
  (λ e. omega (arith, ap height e)),
  ((λ e. omega (arith, ap height e)), ((λ e. omega (arith, ap height e)), tt)),
)
