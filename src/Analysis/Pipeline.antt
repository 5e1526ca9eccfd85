-- ===== src/Analysis/Pipeline.antt =====
-- app/workers/tasks/repository.py: `_advance_step` and `_run_pipeline`. Each block of the pipeline is a
-- transaction of its own; the messages on Redis, the search index and the embeddings are left out.
use repo_info_backend.Catalog.Queries.{with_tables}
use repo_info_backend.Catalog.Tables.{ProcessingStep, Repository, RepositoryAnalysis, Shelf, Tables}
use repo_info_backend.Database.Session.{Action}
use repo_info_backend.Models.Enums.{
  ProcessingStage, StepStatus, processing_stage_eq, step_status_eq,
}
use repo_info_backend.Prelude.{
  Bool, Option, Text, [], find?, if◌then◌else◌, is_none, nat_eq, none, some, text_eq, update, ℕ,
  ◌&&◌, ◌==◌, ◌||◌, ◌∷◌,
}

abbrev pub is_step : ℕ → ProcessingStage → ProcessingStep → Bool
is_step analysis_id stage x = x.analysis_id == analysis_id && x.stage == stage

-- `if detail:` is false for the empty text
abbrev new_detail : Option Text → Option Text → Option Text
new_detail none old = old
new_detail (some []) old = old
new_detail (some (c ∷ cs)) old = some (c ∷ cs)

abbrev pub is_done : StepStatus → Bool
is_done status = status == StepStatus.completed || status == StepStatus.failed

abbrev pub advanced : ℕ → StepStatus → ℕ → Option Text → ProcessingStep → ProcessingStep
advanced now status progress detail x = record x {
  status = status;
  progress = progress;
  detail = new_detail detail x.detail;
  started_at =
      if status == StepStatus.in_progress && is_none x.started_at then some now else x.started_at;
  completed_at = if is_done status then some now else x.completed_at;
}

abbrev pub run_advanced :
    ℕ → ProcessingStage → StepStatus → Option Text → RepositoryAnalysis → RepositoryAnalysis
run_advanced now stage status detail a = record a {
  stage = stage;
  completed_at =
      if status == StepStatus.completed && stage == ProcessingStage.completed
      then some now
      else a.completed_at;
  error_message = if status == StepStatus.failed then detail else a.error_message;
}

abbrev pub repository_advanced : ℕ → ProcessingStage → Repository → Repository
repository_advanced now stage r = record r {
  processing_stage = stage;
  last_analyzed_at = if stage == ProcessingStage.completed then some now else r.last_analyzed_at;
}

unfoldable pub advance_run :
    ℕ → ProcessingStage → StepStatus → Option Text → Option RepositoryAnalysis → Tables → Tables
advance_run now stage status detail none t = t
advance_run now stage status detail (some a) t = record t {
  analyses = update (λ x. x.id == a.id) (run_advanced now stage status detail) t.analyses;
  repositories =
      update (λ r. r.id == a.repository_id) (repository_advanced now stage) t.repositories;
}

unfoldable pub advance_found :
    ℕ → ℕ → ProcessingStage → StepStatus → ℕ → Option Text → Option ProcessingStep → Tables → Tables
unfolding advance_run
advance_found now analysis_id stage status progress detail none t = t
advance_found now analysis_id stage status progress detail (some x) t =
    advance_run now stage status detail (find? (λ a. a.id == analysis_id) t.analyses) (record t {
      steps = update (is_step analysis_id stage) (advanced now status progress detail) t.steps;
    })

unfoldable pub advance_step :
    ℕ → ℕ → ProcessingStage → StepStatus → ℕ → Option Text → Action Shelf (Unit {0})
unfolding advance_found
advance_step now analysis_id stage status progress detail = with_tables (λ t.
    advance_found now analysis_id stage status progress detail
      (find? (is_step analysis_id stage) t.steps) t)

unfoldable pub begin : ℕ → ℕ → ProcessingStage → ℕ → Action Shelf (Unit {0})
unfolding advance_step
begin now analysis_id stage progress =
    advance_step now analysis_id stage StepStatus.in_progress progress none

unfoldable pub finish : ℕ → ℕ → ProcessingStage → Action Shelf (Unit {0})
unfolding advance_step
finish now analysis_id stage = advance_step now analysis_id stage StepStatus.completed 100 none
