-- ===== src/Analysis/Stages.antt =====
-- What `_advance_step` of app/workers/tasks/repository.py does to a run and its repository.
use mathlib.Core.Option
use repo_info_backend.Analysis.Pipeline.{
  advance_found, advance_run, advance_step, advanced, is_step, repository_advanced, run_advanced,
}
use repo_info_backend.Catalog.Lifecycle.{is_some-map}
use repo_info_backend.Catalog.Queries.{get_repository, processing_sequence}
use repo_info_backend.Catalog.Tables.{ProcessingStep, Repository, RepositoryAnalysis, Shelf}
use repo_info_backend.Models.Enums.{
  ProcessingStage, StepStatus, processing_stage_eq, step_status_eq,
}
use repo_info_backend.Prelude.{
  All, All-map, Bool, List, Option, Text, ap, find?, find?-update, find?_holds, if◌then◌else◌,
  is_some, nat_beq_refl, nat_eq, none, refl, some, text_eq, true, update, ℕ, ◌==◌, ◌∙◌, ◌≡◌,
}

-- A run whose repository, analysis and nine steps are in the tables.
pub record Ready (repo_id analysis_id : ℕ) (s : Shelf) : Type 0 where
  pub repo : Repository
  pub run : RepositoryAnalysis
  pub has_repo : get_repository repo_id s ≡ some repo
  pub has_run : find? (λ (a : RepositoryAnalysis). a.id == analysis_id) s.analyses ≡ some run
  pub of_repo : run.repository_id ≡ repo_id
  pub has_steps :
      All
        (λ (stage : ProcessingStage). is_some (find? (is_step analysis_id stage) s.steps) ≡ true)
        processing_sequence

advanced_step :
    (now analysis_id : ℕ) (stage : ProcessingStage) (status : StepStatus) (progress : ℕ)
    (detail : Option Text) (x : ProcessingStep) (a : RepositoryAnalysis) (s : Shelf)
    → find? (is_step analysis_id stage) s.steps ≡ some x
    → find? (λ (a : RepositoryAnalysis). a.id == analysis_id) s.analyses ≡ some a
    → (advance_step now analysis_id stage status progress detail s).1 ≡ record s {
      tables = advance_run now stage status detail (some a) (record s.tables {
        steps = update (is_step analysis_id stage) (advanced now status progress detail) s.steps;
      });
    }
unfolding advance_step advance_found
advanced_step now analysis_id stage status progress detail x a s found run = rw (found, run)

is_some-found : {A : Type 0} (o : Option A) → is_some o ≡ true → (a : A) × (o ≡ some a)
is_some-found none h = cc
is_some-found (some a) h = (a, refl)

keeps_found :
    {A : Type 0} (p q : A → Bool) (f : A → A) (xs : List A)
    → ((x : A) → p (f x) ≡ p x)
    → is_some (find? p xs) ≡ true
    → is_some (find? p (update q f xs)) ≡ true
keeps_found p q f xs keep h =
    rw (find?-update p q f xs keep) (is_some-map (λ x. if q x then f x else x) (find? p xs) ∙ h)

-- A step of a ready run moves its repository to the stage, and leaves the run ready.
pub advance_ready :
    (now repo_id analysis_id : ℕ) (stage : ProcessingStage) (status : StepStatus) (progress : ℕ)
    (detail : Option Text) (s : Shelf) (ready : Ready repo_id analysis_id s)
    → is_some (find? (is_step analysis_id stage) s.steps) ≡ true
    → let after = (advance_step now analysis_id stage status progress detail s).1 in
      Ready repo_id analysis_id after
      × (get_repository repo_id after ≡ some (repository_advanced now stage ready.repo))
unfolding advance_run get_repository
advance_ready now repo_id analysis_id stage status progress detail s ready known =
    let (x, found) = is_some-found (find? (is_step analysis_id stage) s.steps) known in
    let after =
      advanced_step now analysis_id stage status progress detail x ready.run s found
        ready.has_run in
    rw after (
      record {
        repo = repository_advanced now stage ready.repo;
        run = run_advanced now stage status detail ready.run;
        has_repo = moved;
        has_run = run_found;
        of_repo = ready.of_repo;
        has_steps =
            All-map
              (λ other h.
                keeps_found (is_step analysis_id other) (is_step analysis_id stage)
                  (advanced now status progress detail) s.steps (λ y. refl) h)
              processing_sequence ready.has_steps;
      },
      moved,
    )
  where
    here : (ready.repo.id == ready.run.repository_id) ≡ true
    here =
        ap (λ k. ready.repo.id == k) ready.of_repo
        ∙ find?_holds (λ (r : Repository). r.id == repo_id) s.repositories ready.repo ready.has_repo

    moved :
        find?
          (λ (r : Repository). r.id == repo_id)
          (update
            (λ (r : Repository). r.id == ready.run.repository_id)
            (repository_advanced now stage)
            s.repositories)
        ≡ some (repository_advanced now stage ready.repo)
    moved =
        find?-update (λ (r : Repository). r.id == repo_id)
          (λ (r : Repository). r.id == ready.run.repository_id) (repository_advanced now stage)
          s.repositories (λ r. refl)
        ∙ (ap
              (Option.map (λ (r : Repository).
                if r.id == ready.run.repository_id then repository_advanced now stage r else r))
              ready.has_repo
            ∙ ap (λ b. some (if b then repository_advanced now stage ready.repo else ready.repo))
                here)

    run_found :
        find?
          (λ (a : RepositoryAnalysis). a.id == analysis_id)
          (update
            (λ (a : RepositoryAnalysis). a.id == ready.run.id)
            (run_advanced now stage status detail)
            s.analyses)
        ≡ some (run_advanced now stage status detail ready.run)
    run_found =
        find?-update (λ (a : RepositoryAnalysis). a.id == analysis_id)
          (λ (a : RepositoryAnalysis). a.id == ready.run.id) (run_advanced now stage status detail)
          s.analyses (λ a. refl)
        ∙ (ap
              (Option.map (λ (a : RepositoryAnalysis).
                if a.id == ready.run.id then run_advanced now stage status detail a else a))
              ready.has_run
            ∙ ap
                (λ b.
                  some (if b then run_advanced now stage status detail ready.run else ready.run))
                (nat_beq_refl ready.run.id))
