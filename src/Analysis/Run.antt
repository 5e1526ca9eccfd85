-- ===== src/Analysis/Run.antt =====
-- app/workers/tasks/repository.py: `_run_pipeline`.
use repo_info_backend.Analysis.Indexing.{DiskFile, index_tree}
use repo_info_backend.Analysis.Pipeline.{advance_step, begin, finish}
use repo_info_backend.Analysis.Statistics.{security_scan}
use repo_info_backend.Analysis.Stores.{
  Clone, Dependency, Worker, store_dependencies, store_index, store_metrics, store_report,
  store_structure,
}
use repo_info_backend.Catalog.Queries.{get_repository}
use repo_info_backend.Catalog.Tables.{Repository, RepositoryFile, Shelf, restore_tables}
use repo_info_backend.Database.Session.{Action, gets, in_transaction, pure, ◌>>=◌, ◌>>◌}
use repo_info_backend.Models.Enums.{ProcessingStage, StepStatus}
use repo_info_backend.Prelude.{List, Option, length, none, some, ℕ}

unfoldable pub after_structure :
    Worker → ℕ → ℕ → List RepositoryFile → List Dependency → Action Shelf (Unit {0})
unfolding begin finish store_report
after_structure w repo_id analysis_id entries deps = do
  finish w.now analysis_id ProcessingStage.analyzing_structure
  begin w.now analysis_id ProcessingStage.analyzing_dependencies 55
  in_transaction restore_tables (store_dependencies repo_id deps)
  finish w.now analysis_id ProcessingStage.analyzing_dependencies
  begin w.now analysis_id ProcessingStage.analyzing_security 70
  let findings = security_scan entries
  store_report repo_id findings
  finish w.now analysis_id ProcessingStage.analyzing_security
  begin w.now analysis_id ProcessingStage.generating_embeddings 85
  finish w.now analysis_id ProcessingStage.generating_embeddings
  begin w.now analysis_id ProcessingStage.building_graph 95
  finish w.now analysis_id ProcessingStage.building_graph
  in_transaction restore_tables (store_metrics repo_id (length findings))
  finish w.now analysis_id ProcessingStage.completed

-- The stages after the clone.
unfoldable pub analyze : Worker → ℕ → ℕ → List DiskFile → List Dependency → Action Shelf (Unit {0})
unfolding begin finish store_index store_structure after_structure
analyze w repo_id analysis_id disk deps = do
  begin w.now analysis_id ProcessingStage.indexing 20
  let entries = index_tree w.lower repo_id 5000 disk
  store_index repo_id entries
  finish w.now analysis_id ProcessingStage.indexing
  begin w.now analysis_id ProcessingStage.analyzing_structure 40
  store_structure w repo_id entries
  after_structure w repo_id analysis_id entries deps

unfoldable pub after_clone : Worker → ℕ → ℕ → Clone → Action Shelf (Unit {0})
unfolding advance_step finish analyze
after_clone w repo_id analysis_id (Clone.git_error detail) = do
  advance_step w.now analysis_id ProcessingStage.cloning StepStatus.failed 100 (some detail)
  advance_step w.now analysis_id ProcessingStage.failed StepStatus.failed 100 (some detail)
after_clone w repo_id analysis_id (Clone.cloned disk deps) = do
  finish w.now analysis_id ProcessingStage.cloning
  analyze w repo_id analysis_id disk deps

-- `if repo is None: return`
unfoldable pub start_run : Worker → ℕ → ℕ → Option Repository → Action Shelf (Unit {0})
unfolding begin after_clone
start_run w repo_id analysis_id none = pure tt
start_run w repo_id analysis_id (some r) = do
  begin w.now analysis_id ProcessingStage.cloning 10
  after_clone w repo_id analysis_id w.clone

unfoldable pub run_pipeline : Worker → ℕ → ℕ → Action Shelf (Unit {0})
unfolding start_run
run_pipeline w repo_id analysis_id = do
  repo ← gets (get_repository repo_id)
  start_run w repo_id analysis_id repo
