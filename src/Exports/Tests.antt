-- ===== src/Exports/Tests.antt =====
-- The exports on a small desk: app/workers/tasks/export.py.
use repo_info_backend.Catalog.Queries.{get_repository}
use repo_info_backend.Catalog.Tables.{Repository}
use repo_info_backend.Core.Errors.{Exception}
use repo_info_backend.Database.Session.{err, in_transaction, ok}
use repo_info_backend.Exports.Jobs.{
  ExportOut, build, cleanup_exports, get_export, request_export, upload,
}
use repo_info_backend.Exports.Lifecycle.{Filed, Reach, Reach-Filed, Step, is_stored}
use repo_info_backend.Exports.Results.{request_export-build}
use repo_info_backend.Exports.Tables.{Desk, Export, Outside}
use repo_info_backend.Models.Enums.{
  ExportFormat, ExportStatus, ProcessingStage, RepositoryProvider, RepositoryVisibility,
}
use repo_info_backend.Prelude.{
  All, Text, [], decimal, false, map, none, refl, some, true, ℕ, ◌∷◌, ◌≡◌,
}

abbrev outside : Outside
outside = record {
  broker = true;
  storage = true;
  str_id = decimal;
  dumps = λ repo now. repo;
  presigned = λ key. key;
}

abbrev owned_row : Repository
owned_row = record {
  id = 1;
  added_by_id = 7;
  provider = RepositoryProvider.github;
  owner_login = [];
  name = [];
  full_name = [];
  url = [];
  clone_url = [];
  default_branch = [];
  visibility = RepositoryVisibility.public;
  primary_language = none;
  languages = [];
  size_kb = 0;
  processing_stage = ProcessingStage.completed;
  last_analyzed_at = none;
  file_count = 0;
  total_lines = 0;
  deleted_at = none;
}

abbrev desk : Desk
desk = record {
  catalog = record {
    tables = record {
      repositories = owned_row ∷ [];
      favorites = [];
      pins = [];
      analyses = [];
      steps = [];
      files = [];
      dependencies = [];
      metrics = [];
      architectures = [];
      reports = [];
      findings = [];
      activity = [];
      next_id = 2;
    };
    queue = [];
  };
  exports = [];
  next_id = 5;
  tasks = [];
  objects = [];
}

request_export-build_example :
    (out : ExportOut) × (t : Desk) × (request_export outside 100 7 1 ExportFormat.pdf desk
      ≡ (ok out, t))
    × (out.status ≡ ExportStatus.pending)
    × (out.download_url ≡ none)
    × (t.tasks ≡ (out.id, 1) ∷ [])
    × (outside.storage ≡ true
        → (e : Export) × (u : Desk) × (key : Text) × (build outside 200 out.id 1 t
            ≡ (ok (some key), u))
          × (get_export out.id u ≡ some e)
          × (e.status ≡ ExportStatus.completed)
          × (e.storage_key ≡ some key)
          × (is_stored key u.objects ≡ true))
    × (outside.storage ≡ false
        → (e : Export) × (u : Desk) × (build outside 200 out.id 1 t
            ≡ (err (Exception.other "S3Error"), u))
          × (get_export out.id u ≡ some e)
          × (e.status ≡ ExportStatus.processing))
unfolding get_repository
request_export-build_example =
    request_export-build outside 100 200 7 1 ExportFormat.pdf owned_row desk refl refl tt refl

-- a request, and the cleanup ten days later
abbrev after_cleanup : Desk
unfolding request_export cleanup_exports get_repository
after_cleanup = (cleanup_exports 900000 (request_export outside 100 7 1 ExportFormat.pdf desk).1).1

Reach-Filed_example :
    All (Filed after_cleanup.objects) after_cleanup.exports
    × ((now job_id repo_id : ℕ)
        → let u = (build outside now job_id repo_id after_cleanup).1 in
          All (Filed u.objects) u.exports)
unfolding request_export cleanup_exports get_repository
Reach-Filed_example = Reach-Filed outside desk after_cleanup tt (
    Reach.next (Reach.next Reach.here (Step.requested 100 7 1 ExportFormat.pdf refl))
      (Step.cleaned 900000 refl))

-- the job of the request is completed by its worker
test_completed :
    map
      (λ (e : Export). e.status)
      (build outside 200 5 1 (request_export outside 100 7 1 ExportFormat.pdf desk).1).1.exports
    ≡ ExportStatus.completed ∷ []
unfolding build request_export get_export get_repository in_transaction upload
test_completed = refl
