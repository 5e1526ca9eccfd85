-- ===== src/Catalog/Service.antt =====
-- app/services/repository_service.py: the write path, and the views of a repository.
use repo_info_backend.Catalog.GitUrl.{GitLocation, location, parse_git_url}
use repo_info_backend.Catalog.Queries.{
  add_repository, create_run, get_by_full_name, get_full, get_repository, is_favorite, is_pinned,
  latest_run, new_id, processing_sequence, stage_label, steps_of, toggle_favorite, toggle_pin,
  with_tables, write_repository,
}
use repo_info_backend.Catalog.Tables.{ProcessingStep, Repository, RepositoryAnalysis, Shelf}
use repo_info_backend.Core.Errors.{AppError, Exception}
use repo_info_backend.Database.Session.{
  Action, gets, modify, or_raise, pure, raise_if, throw, ◌>>=◌, ◌>>◌,
}
use repo_info_backend.Models.Enums.{
  ProcessingStage, RepositoryVisibility, StepStatus, processing_stage_eq, step_status_eq,
}
use repo_info_backend.Prelude.{
  Bool, List, Option, String, Text, [], codes, false, if◌then◌else◌, is_some, map, nat_eq, none,
  some, string_eq, text_eq, true, update, ℕ, ◌++◌, ◌==◌, ◌∷◌,
}

pub record ProcessingStepOut : Type 0 where
  pub stage : ProcessingStage
  pub label : String
  pub status : StepStatus
  pub progress : ℕ

pub record RepositoryOut : Type 0 where
  pub repo : Repository
  pub is_favorite : Bool
  pub is_pinned : Bool
  pub processing_steps : List ProcessingStepOut

-- the dict of the existing steps by stage: of two steps of one stage the later wins
abbrev pub step_for : ProcessingStage → List ProcessingStep → Option ProcessingStep
step_for stage [] = none
step_for stage (x ∷ xs) =
    let rest = step_for stage xs in
    elim rest [ some y ↦ some y | none ↦ if x.stage == stage then some x else none ]

abbrev pub render_step : ProcessingStage → Option ProcessingStep → ProcessingStepOut
render_step stage (some step) = record {
  stage = step.stage;
  label = step.label;
  status = step.status;
  progress = step.progress;
}
render_step stage none = record {
  stage = stage;
  label = stage_label stage;
  status = StepStatus.pending;
  progress = 0;
}

unfoldable pub render_steps : List ProcessingStep → List ProcessingStepOut
render_steps existing =
    map (λ stage. render_step stage (step_for stage existing)) processing_sequence

unfoldable pub to_out : ℕ → Repository → Shelf → RepositoryOut
unfolding is_favorite is_pinned latest_run render_steps
to_out user_id repo s = record {
  repo = repo;
  is_favorite = is_favorite user_id repo.id s;
  is_pinned = is_pinned user_id repo.id s;
  processing_steps = render_steps (steps_of (latest_run repo.id s) s);
}

-- `if repo is None or repo.added_by_id != user.id: raise NotFoundError`
abbrev pub owned : ℕ → Option Repository → Option Repository
owned user_id none = none
owned user_id (some r) = if r.added_by_id == user_id then some r else none

abbrev pub owned_repository : ℕ → Option Repository → Action Shelf Repository
owned_repository user_id r = or_raise (owned user_id r) (AppError.not_found "Repository")

-- `analyze_repository.delay`, with the broker up or down; the message leaves at once
delay : Bool → ℕ → RepositoryAnalysis → ℕ → Action Shelf (Unit {0})
delay false user_id analysis repo_id = pure tt
delay true user_id analysis repo_id = do
  task_id ← new_id
  modify (λ s. record s {
    queue =
        s.queue ++ record { repo_id = repo_id; analysis_id = analysis.id; user_id = user_id } ∷ [];
  })
  with_tables (λ t. record t {
    analyses =
        update (λ a. a.id == analysis.id) (λ a. record a { celery_task_id = some task_id })
          t.analyses;
  })

pub record RepositoryAddRequest : Type 0 where
  pub url : Text
  pub branch : Option Text
  pub visibility : RepositoryVisibility

abbrev branch_or_main : Option Text → Text
branch_or_main none = codes "main"
branch_or_main (some []) = codes "main"
branch_or_main (some (c ∷ cs)) = c ∷ cs

abbrev pub new_repository : ℕ → ℕ → GitLocation → RepositoryAddRequest → Repository
new_repository id user_id location payload = record {
  id = id;
  added_by_id = user_id;
  provider = location.provider;
  owner_login = location.owner;
  name = location.name;
  full_name = location.full_name;
  url = location.web_url;
  clone_url = location.clone_url;
  default_branch = branch_or_main payload.branch;
  visibility = payload.visibility;
  primary_language = none;
  languages = [];
  size_kb = 0;
  processing_stage = ProcessingStage.queued;
  last_analyzed_at = none;
  file_count = 0;
  total_lines = 0;
  deleted_at = none;
}

-- the `ValueError` of `parse_git_url` is no `AppError`
abbrev pub parsed : Option GitLocation → Action Shelf GitLocation
parsed none = throw (Exception.other "ValueError")
parsed (some l) = pure l

unfoldable pub add : Bool → ℕ → ℕ → RepositoryAddRequest → Action Shelf RepositoryOut
unfolding create_run add_repository delay to_out
add broker now user_id payload = do
  location ← parsed (parse_git_url payload.url)
  existing ← gets (get_by_full_name user_id location.full_name)
  raise_if (is_some existing)
      (AppError.conflict "Repository already added." (some "repository_exists"))
  id ← new_id
  let repo = new_repository id user_id location payload
  add_repository repo
  analysis ← create_run now repo.id user_id
  delay broker user_id analysis repo.id
  with_tables
      (λ t. record t { activity = t.activity ++ (user_id, "added_repository", repo.id) ∷ [] })
  gets (to_out user_id repo)

unfoldable pub reprocess : Bool → ℕ → ℕ → ℕ → Action Shelf RepositoryOut
unfolding create_run delay to_out
reprocess broker now user_id repo_id = do
  repo ← owned_repository user_id (← gets (get_full repo_id))
  write_repository repo.id (λ r. record r { processing_stage = ProcessingStage.queued })
  analysis ← create_run now repo.id user_id
  delay broker user_id analysis repo.id
  gets (to_out user_id (record repo { processing_stage = ProcessingStage.queued }))

unfoldable pub favorite : ℕ → ℕ → Action Shelf RepositoryOut
unfolding toggle_favorite to_out
favorite user_id repo_id = do
  repo ← owned_repository user_id (← gets (get_full repo_id))
  toggle_favorite user_id repo_id
  gets (to_out user_id repo)

unfoldable pub pin : ℕ → ℕ → Action Shelf RepositoryOut
unfolding toggle_pin to_out
pin user_id repo_id = do
  repo ← owned_repository user_id (← gets (get_full repo_id))
  toggle_pin user_id repo_id
  gets (to_out user_id repo)

unfoldable pub delete : ℕ → ℕ → ℕ → Action Shelf (Unit {0})
delete now user_id repo_id = do
  repo ← owned_repository user_id (← gets (get_repository repo_id))
  write_repository repo.id (λ r. record r { deleted_at = some now })

unfoldable pub get : ℕ → ℕ → Action Shelf RepositoryOut
unfolding to_out
get user_id repo_id = do
  repo ← owned_repository user_id (← gets (get_full repo_id))
  gets (to_out user_id repo)
