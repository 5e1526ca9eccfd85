-- ===== src/Analysis/Outcomes.antt =====
-- How a run of `_run_pipeline` of app/workers/tasks/repository.py ends.
use mathlib.Core.Option
use repo_info_backend.Analysis.Pipeline.{
  advance_found, advance_run, advance_step, advanced, begin, is_step,
}
use repo_info_backend.Analysis.Run.{after_clone, run_pipeline, start_run}
use repo_info_backend.Analysis.Stages.{Ready, advance_ready}
use repo_info_backend.Analysis.Stores.{Clone, Worker}
use repo_info_backend.Catalog.GitUrl.{after}
use repo_info_backend.Catalog.Queries.{get_repository}
use repo_info_backend.Catalog.Tables.{Repository, RepositoryAnalysis, Shelf}
use repo_info_backend.Database.Session.{Result, ok}
use repo_info_backend.Models.Enums.{
  ProcessingStage, StepStatus, processing_stage_eq, step_status_eq,
}
use repo_info_backend.Prelude.{
  Option, Option-cases, Text, ap, find?, find?-update, if◌then◌else◌, inl, inr, nat_eq, none, refl,
  some, text_eq, update, ℕ, ◌==◌, ◌∙◌, ◌≡◌,
}

-- a stage that the run has no step for
no_step :
    (now analysis_id : ℕ) (stage : ProcessingStage) (status : StepStatus) (progress : ℕ)
    (detail : Option Text) (s : Shelf)
    → find? (is_step analysis_id stage) s.steps ≡ none
    → advance_step now analysis_id stage status progress detail s ≡ (ok tt, s)
unfolding advance_step advance_found
no_step now analysis_id stage status progress detail s missing = rw missing

-- the steps after `_advance_step`
advance_steps :
    (now analysis_id : ℕ) (stage other : ProcessingStage) (status : StepStatus) (progress : ℕ)
    (detail : Option Text) (s : Shelf)
    → find? (is_step analysis_id other) s.steps ≡ none
    → find?
        (is_step analysis_id other)
        (advance_step now analysis_id stage status progress detail s).1.steps
      ≡ none
unfolding advance_step advance_found advance_run
advance_steps now analysis_id stage other status progress detail s missing =
    elim (Option-cases (find? (is_step analysis_id stage) s.steps)) [
      | inl e ↦ rw e missing
      | inr (x, e) ↦
          elim (Option-cases (find? (λ (a : RepositoryAnalysis). a.id == analysis_id) s.analyses)) [
            | inl e' ↦ rw (e, e') untouched
            | inr (a, e') ↦ rw (e, e') untouched
          ]
    ]
  where
    untouched :
        find?
          (is_step analysis_id other)
          (update (is_step analysis_id stage) (advanced now status progress detail) s.steps)
        ≡ none
    untouched =
        find?-update (is_step analysis_id other) (is_step analysis_id stage)
          (advanced now status progress detail) s.steps (λ y. refl)
        ∙ ap
            (Option.map (λ y.
              if is_step analysis_id stage y then advanced now status progress detail y else y))
            missing

-- When the clone fails the repository is left at the stage of cloning: the step to `FAILED` finds no
-- row, since a run has steps for the stages of `PROCESSING_SEQUENCE` only, and changes nothing.
pub clone_failure :
    (w : Worker) (repo_id analysis_id : ℕ) (detail : Text) (s : Shelf)
    → Ready repo_id analysis_id s
    → find? (is_step analysis_id ProcessingStage.failed) s.steps ≡ none
    → w.clone ≡ Clone.git_error detail
    → let (r, after) = run_pipeline w repo_id analysis_id s in
      (r ≡ ok tt)
      × (Option.map (λ (x : Repository). x.processing_stage) (get_repository repo_id after)
          ≡ some ProcessingStage.cloning)
unfolding run_pipeline start_run after_clone begin advance_step
clone_failure w repo_id analysis_id detail s ready no_failed failing =
    let begun : Shelf =
      (advance_step w.now analysis_id ProcessingStage.cloning StepStatus.in_progress 10 none s).1 in
    let failed : Shelf =
      (advance_step w.now analysis_id ProcessingStage.cloning StepStatus.failed 100 (some detail)
        begun).1 in
    let (ready1, at1) =
      advance_ready w.now repo_id analysis_id ProcessingStage.cloning StepStatus.in_progress 10 none
        s ready ready.has_steps.1.0 in
    let (ready2, at2) =
      advance_ready w.now repo_id analysis_id ProcessingStage.cloning StepStatus.failed 100
        (some detail) begun ready1 ready1.has_steps.1.0 in
    let none1 =
      advance_steps w.now analysis_id ProcessingStage.cloning ProcessingStage.failed
        StepStatus.in_progress 10 none s no_failed in
    let none2 =
      advance_steps w.now analysis_id ProcessingStage.cloning ProcessingStage.failed
        StepStatus.failed 100 (some detail) begun none1 in
    let stopped =
      no_step w.now analysis_id ProcessingStage.failed StepStatus.failed 100 (some detail) failed
        none2 in
    rw (ready.has_repo, failing)
      (
        refl,
        ap (λ (q : Result (Unit {0}) × Shelf). Option.map stage_of (get_repository repo_id q.1))
              stopped
            ∙ ap (Option.map stage_of) at2,
      )
  where
    stage_of : Repository → ProcessingStage
    stage_of x = x.processing_stage

-- A message that overtakes the commit of the request that sent it is lost without a trace: the worker
-- finds no repository and returns, and the tables, once committed, keep it queued.
pub run_pipeline_missing :
    (w : Worker) (repo_id analysis_id : ℕ) (s : Shelf)
    → get_repository repo_id s ≡ none
    → run_pipeline w repo_id analysis_id s ≡ (ok tt, s)
unfolding run_pipeline start_run
run_pipeline_missing w repo_id analysis_id s missing = rw missing

pub advance_architectures :
    (now analysis_id : ℕ) (stage : ProcessingStage) (status : StepStatus) (progress : ℕ)
    (detail : Option Text) (s : Shelf)
    → (advance_step now analysis_id stage status progress detail s).1.architectures
      ≡ s.architectures
unfolding advance_step advance_found advance_run
advance_architectures now analysis_id stage status progress detail s =
    elim (Option-cases (find? (is_step analysis_id stage) s.steps)) [
      | inl e ↦ rw e
      | inr (x, e) ↦
          elim (Option-cases (find? (λ (a : RepositoryAnalysis). a.id == analysis_id) s.analyses)) [
            | inl e' ↦ rw (e, e')
            | inr (a, e') ↦ rw (e, e')
          ]
    ]
