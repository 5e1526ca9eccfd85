-- ===== src/Analysis/Tests.antt =====
-- Runs of the pipeline on the repository that user 7 has added.
use mathlib.Core.Option
use repo_info_backend.Analysis.Architecture.{detect_architecture}
use repo_info_backend.Analysis.Directories.{Distinct, index_tree_directories}
use repo_info_backend.Analysis.Indexing.{
  DiskFile, add_dirs, all_dirs, dir_row, file_rows, index_tree, path_or_empty,
}
use repo_info_backend.Analysis.Languages.{
  Descending, file_bytes, is_secret, language_stats_total, security_scan_paths, sum_bytes,
}
use repo_info_backend.Analysis.Outcomes.{clone_failure, run_pipeline_missing}
use repo_info_backend.Analysis.Pipeline.{advance_found, advance_run, advance_step, begin, finish}
use repo_info_backend.Analysis.Rerun.{rerun_fails}
use repo_info_backend.Analysis.Run.{after_clone, after_structure, analyze, run_pipeline, start_run}
use repo_info_backend.Analysis.Stages.{Ready}
use repo_info_backend.Analysis.Statistics.{
  Finding, language_stats, primary_of, score, security_scan,
}
use repo_info_backend.Analysis.Stores.{
  Clone, Worker, store_architecture, store_dependencies, store_index, store_metrics, store_report,
  store_structure,
}
use repo_info_backend.Analysis.Success.{run_completes}
use repo_info_backend.Analysis.Tree.{inside}
use repo_info_backend.Catalog.GitUrl.{after, before, has_slash, match_host, parse_git_url, segment}
use repo_info_backend.Catalog.Paths.{path_beq}
use repo_info_backend.Catalog.Queries.{
  get_architecture_for, get_by_full_name, get_metrics_for, get_repository, taken,
}
use repo_info_backend.Catalog.Service.{add}
use repo_info_backend.Catalog.Tables.{
  FilePath, Repository, RepositoryArchitecture, RepositoryFile, Shelf,
}
use repo_info_backend.Catalog.Tests.{engine_row, stocked}
use repo_info_backend.Core.Errors.{Exception}
use repo_info_backend.Database.Session.{err, in_transaction, ok}
use repo_info_backend.Models.Enums.{ProcessingStage}
use repo_info_backend.Prelude.{
  All, List, [], codes, filter, length, map, refl, some, take, text_beq, true, ◌++◌, ◌∷◌, ◌≡◌,
}

abbrev disk : List DiskFile
disk =
    record { path = codes "main.py" ∷ codes "app" ∷ codes "src" ∷ []; size = some 2048 }
    ∷ record { path = codes ".env" ∷ []; size = some 10 }
    ∷ []

abbrev worker : Clone → Worker
worker clone = record { now = 300; clone = clone; lower = λ t. t; iterate = λ ds. ds }

abbrev good : Worker
good = worker (Clone.cloned disk [])

abbrev bad : Worker
bad = worker (Clone.git_error (codes "not found"))

ready : Ready 1 2 stocked
unfolding stocked add parse_git_url match_host after segment before has_slash text_beq taken
    get_by_full_name get_repository
ready = record {
  repo = engine_row;
  run = _;
  has_repo = refl;
  has_run = refl;
  of_repo = refl;
  has_steps = (refl, (refl, (refl, (refl, (refl, (refl, (refl, (refl, (refl, tt)))))))));
}

run_completes_example :
    (r : Repository) × (get_repository 1 (run_pipeline good 1 2 stocked).1 ≡ some r)
    × (r.processing_stage ≡ ProcessingStage.completed)
    × (r.last_analyzed_at ≡ some 300)
unfolding stocked add parse_git_url match_host after segment before has_slash text_beq taken
    get_by_full_name get_repository run_pipeline start_run after_clone analyze begin finish
    advance_step advance_found advance_run store_index index_tree all_dirs add_dirs path_beq
    language_stats store_structure store_architecture detect_architecture in_transaction
    after_structure store_dependencies store_report store_metrics security_scan score
    get_architecture_for get_metrics_for
run_completes_example =
    run_completes good 1 2 disk [] stocked (run_pipeline good 1 2 stocked).1 ready refl refl

clone_failure_example :
    ((run_pipeline bad 1 2 stocked).0 ≡ ok tt)
    × (Option.map
          (λ (x : Repository). x.processing_stage)
          (get_repository 1 (run_pipeline bad 1 2 stocked).1)
        ≡ some ProcessingStage.cloning)
unfolding stocked add parse_git_url match_host after segment before has_slash text_beq taken
    get_by_full_name
clone_failure_example = clone_failure bad 1 2 (codes "not found") stocked ready refl refl

test_run_pipeline_missing : run_pipeline good 9 2 stocked ≡ (ok tt, stocked)
unfolding stocked add parse_git_url match_host after segment before has_slash text_beq taken
    get_by_full_name get_repository
test_run_pipeline_missing = run_pipeline_missing good 9 2 stocked refl

abbrev engine_architecture : RepositoryArchitecture
engine_architecture = record {
  repository_id = 1;
  pattern = codes "Component Architecture";
  layers = [];
  entry_points = [];
}

abbrev analyzed : Shelf
analyzed = record stocked {
  tables = record stocked.tables { architectures = engine_architecture ∷ [] };
}

rerun_fails_example : (run_pipeline good 1 2 analyzed).0 ≡ err Exception.integrity
unfolding stocked add parse_git_url match_host after segment before has_slash text_beq taken
    get_by_full_name get_repository get_architecture_for
rerun_fails_example =
    rerun_fails good 1 2 disk [] engine_row engine_architecture analyzed refl refl refl

index_tree_directories_example :
    (dirs : List FilePath) × (index_tree (λ t. t) 1 5000 disk
      ≡ file_rows (λ t. t) 1 (take 5000 disk) ++ map (dir_row 1) dirs)
    × Distinct dirs
    × All
        (λ (e : RepositoryFile). inside dirs (path_or_empty e.parent_path) ≡ true)
        (index_tree (λ t. t) 1 5000 disk)
index_tree_directories_example = index_tree_directories (λ t. t) 1 5000 disk

test_language_stats_total :
    let (primary, stats, total) = language_stats (index_tree (λ t. t) 1 5000 disk) in
    (sum_bytes stats ≡ total)
    × (total ≡ file_bytes (index_tree (λ t. t) 1 5000 disk))
    × Descending stats
    × (primary ≡ primary_of stats)
test_language_stats_total = language_stats_total (index_tree (λ t. t) 1 5000 disk)

test_security_scan_paths :
    map (λ (f : Finding). f.file_path) (security_scan (index_tree (λ t. t) 1 5000 disk))
    ≡ map (λ (e : RepositoryFile). e.path) (filter is_secret (index_tree (λ t. t) 1 5000 disk))
test_security_scan_paths = security_scan_paths (index_tree (λ t. t) 1 5000 disk)

-- the scan of this clone reports the one secret file
test_scan : length (security_scan (index_tree (λ t. t) 1 5000 disk)) ≡ 1
unfolding security_scan index_tree all_dirs add_dirs path_beq text_beq
test_scan = refl
