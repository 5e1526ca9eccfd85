-- ===== src/Catalog/Queries.antt =====
-- app/repositories/repository.py: queries and writes of the catalog.
use repo_info_backend.Catalog.Tables.{
  ProcessingStep, Repository, RepositoryAnalysis, RepositoryArchitecture, RepositoryDependency,
  RepositoryMetrics, SecurityReport, Shelf, Tables,
}
use repo_info_backend.Core.Errors.{Exception}
use repo_info_backend.Database.Session.{Action, err, modify, ok, pure, ◌>>=◌, ◌>>◌}
use repo_info_backend.Models.Enums.{
  ProcessingStage, StepStatus, processing_stage_eq, step_status_eq,
}
use repo_info_backend.Prelude.{
  Bool, List, Option, String, Text, [], false, filter, find?, if◌then◌else◌, is_none, is_some, leb,
  nat_eq, none, not, some, string_eq, text_eq, true, update, ℕ, ◌&&◌, ◌++◌, ◌+◌, ◌==◌, ◌∷◌,
}

abbrev pub with_tables : (Tables → Tables) → Action Shelf (Unit {0})
with_tables f = modify (λ s. record s { tables = f s.tables })

abbrev pub new_id : Action Shelf ℕ
new_id s = (ok s.next_id, record s { tables = record s.tables { next_id = s.next_id + 1 } })

-- PROCESSING_SEQUENCE
abbrev pub processing_sequence : List ProcessingStage
processing_sequence =
    ProcessingStage.queued ∷ ProcessingStage.cloning ∷ ProcessingStage.indexing
    ∷ ProcessingStage.analyzing_structure ∷ ProcessingStage.analyzing_dependencies
    ∷ ProcessingStage.analyzing_security ∷ ProcessingStage.generating_embeddings
    ∷ ProcessingStage.building_graph ∷ ProcessingStage.completed ∷ []

-- STAGE_LABELS
abbrev pub stage_label : ProcessingStage → String
stage_label ProcessingStage.queued = "Queued for analysis"
stage_label ProcessingStage.cloning = "Cloning repository"
stage_label ProcessingStage.indexing = "Indexing files"
stage_label ProcessingStage.analyzing_structure = "Analyzing structure"
stage_label ProcessingStage.analyzing_dependencies = "Resolving dependencies"
stage_label ProcessingStage.analyzing_security = "Scanning for vulnerabilities"
stage_label ProcessingStage.generating_embeddings = "Generating embeddings"
stage_label ProcessingStage.building_graph = "Building knowledge graph"
stage_label ProcessingStage.completed = "Analysis complete"
stage_label ProcessingStage.failed = "Analysis failed"

-- `db.get(Repository, id)`, which sees deleted rows
unfoldable pub get_repository : ℕ → Shelf → Option Repository
get_repository id s = find? (λ r. r.id == id) s.repositories

unfoldable pub get_full : ℕ → Shelf → Option Repository
get_full repo_id s = find? (λ r. r.id == repo_id && is_none r.deleted_at) s.repositories

unfoldable pub get_by_full_name : ℕ → Text → Shelf → Option Repository
get_by_full_name user_id full_name s =
    find? (λ r. r.added_by_id == user_id && r.full_name == full_name && is_none r.deleted_at)
      s.repositories

-- `uq_repositories_owner_fullname`, which counts deleted rows too
unfoldable pub taken : ℕ → Text → Shelf → Bool
taken user_id full_name s =
    is_some (find? (λ r. r.added_by_id == user_id && r.full_name == full_name) s.repositories)

unfoldable pub add_repository : Repository → Action Shelf (Unit {0})
unfolding taken
add_repository repo s =
    if taken repo.added_by_id repo.full_name s then (err Exception.integrity, s) else (
      ok tt,
      record s { tables = record s.tables { repositories = s.repositories ++ repo ∷ [] } },
    )

abbrev pub write_repository : ℕ → (Repository → Repository) → Action Shelf (Unit {0})
write_repository id f =
    with_tables (λ t. record t { repositories = update (λ r. r.id == id) f t.repositories })

-- a pair of a user and a repository
abbrev pub is_pair : ℕ → ℕ → ℕ × ℕ → Bool
is_pair user_id repo_id p = p.0 == user_id && p.1 == repo_id

-- `delete … where p`
abbrev pub remove {ℓ} : {A : Type ℓ} → (A → Bool) → List A → List A
remove p xs = filter (λ x. not (p x)) xs

unfoldable pub is_favorite : ℕ → ℕ → Shelf → Bool
is_favorite user_id repo_id s = is_some (find? (is_pair user_id repo_id) s.favorites)

unfoldable pub is_pinned : ℕ → ℕ → Shelf → Bool
is_pinned user_id repo_id s = is_some (find? (is_pair user_id repo_id) s.pins)

unfoldable pub toggle_favorite : ℕ → ℕ → Action Shelf Bool
unfolding is_favorite
toggle_favorite user_id repo_id s =
    if is_favorite user_id repo_id s
    then (
      ok false,
      record s {
        tables = record s.tables { favorites = remove (is_pair user_id repo_id) s.favorites };
      },
    )
    else (
      ok true,
      record s { tables = record s.tables { favorites = s.favorites ++ (user_id, repo_id) ∷ [] } },
    )

unfoldable pub toggle_pin : ℕ → ℕ → Action Shelf Bool
unfolding is_pinned
toggle_pin user_id repo_id s =
    if is_pinned user_id repo_id s
    then (
      ok false,
      record s { tables = record s.tables { pins = remove (is_pair user_id repo_id) s.pins } },
    )
    else (
      ok true,
      record s { tables = record s.tables { pins = s.pins ++ (user_id, repo_id) ∷ [] } },
    )

-- the steps of a run, numbered from `i`
abbrev pub pending_step : ℕ → ℕ → ProcessingStage → ProcessingStep
pending_step analysis_id i stage = record {
  analysis_id = analysis_id;
  sequence = i;
  stage = stage;
  label = stage_label stage;
  status = StepStatus.pending;
  progress = 0;
  detail = none;
  started_at = none;
  completed_at = none;
}

abbrev pub pending_steps : ℕ → ℕ → List ProcessingStage → List ProcessingStep
pending_steps analysis_id i [] = []
pending_steps analysis_id i (stage ∷ stages) =
    pending_step analysis_id i stage ∷ pending_steps analysis_id (i + 1) stages

unfoldable pub create_run : ℕ → ℕ → ℕ → Action Shelf RepositoryAnalysis
create_run now repository_id triggered_by_id = do
  id ← new_id
  let analysis : RepositoryAnalysis = record {
    id = id;
    repository_id = repository_id;
    triggered_by_id = triggered_by_id;
    celery_task_id = none;
    stage = ProcessingStage.queued;
    error_message = none;
    started_at = now;
    completed_at = none;
  }
  with_tables (λ t. record t {
    analyses = t.analyses ++ analysis ∷ [];
    steps = t.steps ++ pending_steps id 0 processing_sequence;
  })
  pure analysis

-- The row of the greatest `started_at`; of equal ones the row that was added last.
abbrev pub later_run : RepositoryAnalysis → Option RepositoryAnalysis → RepositoryAnalysis
later_run a none = a
later_run a (some b) = if leb a.started_at b.started_at then b else a

abbrev pub newest_run : List RepositoryAnalysis → Option RepositoryAnalysis
newest_run [] = none
newest_run (x ∷ xs) = some (later_run x (newest_run xs))

unfoldable pub latest_run : ℕ → Shelf → Option RepositoryAnalysis
latest_run repository_id s = newest_run (filter (λ a. a.repository_id == repository_id) s.analyses)

-- `analysis.steps`
abbrev pub steps_of : Option RepositoryAnalysis → Shelf → List ProcessingStep
steps_of none s = []
steps_of (some a) s = filter (λ x. x.analysis_id == a.id) s.steps

unfoldable pub get_metrics_for : ℕ → Shelf → Option RepositoryMetrics
get_metrics_for repository_id s = find? (λ m. m.repository_id == repository_id) s.metrics

unfoldable pub get_architecture_for : ℕ → Shelf → Option RepositoryArchitecture
get_architecture_for repository_id s = find? (λ a. a.repository_id == repository_id) s.architectures

unfoldable pub list_dependencies : ℕ → Shelf → List RepositoryDependency
list_dependencies repository_id s = filter (λ d. d.repository_id == repository_id) s.dependencies

unfoldable pub latest_with_findings : ℕ → Shelf → Option SecurityReport
latest_with_findings repository_id s =
    find? (λ r. r.repository_id == repository_id && r.is_latest) s.reports
