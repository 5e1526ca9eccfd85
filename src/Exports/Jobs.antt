-- ===== src/Exports/Jobs.antt =====
-- Export jobs: `create_job` of app/repositories/export.py, `request_export` of
-- app/services/repository_service.py, the worker of app/workers/tasks/export.py, and the expiry in
-- app/workers/tasks/cleanup.py.
use repo_info_backend.Catalog.Queries.{get_repository}
use repo_info_backend.Catalog.Service.{owned}
use repo_info_backend.Core.Errors.{AppError, Exception}
use repo_info_backend.Database.Session.{
  Action, gets, in_transaction, modify, ok, or_raise, pure, throw, ◌>>=◌, ◌>>◌,
}
use repo_info_backend.Exports.Tables.{Desk, Export, Outside, restore_desk}
use repo_info_backend.Models.Enums.{ExportFormat, ExportStatus, ExportTarget, export_status_eq}
use repo_info_backend.Prelude.{
  Bool, Option, Text, [], codes, count, false, find?, if◌then◌else◌, is_some, length, ltb, nat_eq,
  none, some, string_eq, text_eq, true, update, ℕ, ◌&&◌, ◌*◌, ◌++◌, ◌+◌, ◌==◌, ◌∷◌,
}

unfoldable pub get_export : ℕ → Desk → Option Export
get_export id s = find? (λ e. e.id == id) s.exports

abbrev pub write_export : ℕ → (Export → Export) → Action Desk (Unit {0})
write_export id f = modify (λ s. record s { exports = update (λ e. e.id == id) f s.exports })

abbrev pub new_job : ℕ → ℕ → ExportTarget → ExportFormat → Option ℕ → ℕ → Export
new_job now user_id target format repository_id id = record {
  id = id;
  user_id = user_id;
  repository_id = repository_id;
  target = target;
  format = format;
  status = ExportStatus.pending;
  celery_task_id = none;
  storage_key = none;
  file_size_bytes = none;
  error_message = none;
  completed_at = none;
  expires_at = some (now + 7 * 86400);
  created_at = now;
  deleted_at = none;
}

unfoldable pub create_job : ℕ → ℕ → ExportTarget → ExportFormat → Option ℕ → Action Desk Export
create_job now user_id target format repository_id s =
    let job = new_job now user_id target format repository_id s.next_id in
    (ok job, record s { exports = s.exports ++ job ∷ []; next_id = s.next_id + 1 })

abbrev new_task_id : Action Desk ℕ
new_task_id s = (ok s.next_id, record s { next_id = s.next_id + 1 })

-- `export_repository_report.delay` in its `try`; the id of the task is new too
schedule : Outside → Export → ℕ → Action Desk Export
schedule o job repo_id =
    if o.broker
    then (do
      task_id ← new_task_id
      modify (λ s. record s { tasks = s.tasks ++ (job.id, repo_id) ∷ [] })
      write_export job.id (λ e. record e { celery_task_id = some task_id })
      pure (record job { celery_task_id = some task_id }))
    else pure job

pub record ExportOut : Type 0 where
  pub id : ℕ
  pub status : ExportStatus
  pub format : ExportFormat
  pub download_url : Option Text
  pub expires_at : Option ℕ
  pub created_at : ℕ

-- `if job.storage_key`: an empty key is false
abbrev download_url : Outside → Option Text → Option Text
download_url o none = none
download_url o (some []) = none
download_url o (some (c ∷ cs)) = some (o.presigned (c ∷ cs))

abbrev pub export_out : Outside → Export → ExportOut
export_out o job = record {
  id = job.id;
  status = job.status;
  format = job.format;
  download_url = download_url o job.storage_key;
  expires_at = job.expires_at;
  created_at = job.created_at;
}

unfoldable pub request_export : Outside → ℕ → ℕ → ℕ → ExportFormat → Action Desk ExportOut
unfolding create_job schedule
request_export o now user_id repo_id format = do
  found ← gets (λ s. owned user_id (get_repository repo_id s.catalog))
  repo ← or_raise found (AppError.not_found "Repository")
  job ← create_job now user_id ExportTarget.repository_report format (some repo.id)
  job' ← schedule o job repo.id
  pure (export_out o job')

-- `job = await db.get(Export, …)`, `if job is None: return None`, and the writes to the job
abbrev pub write_job : ℕ → (Export → Export) → Action Desk Bool
write_job job_id f s =
    if is_some (get_export job_id s) then (write_export job_id f >> pure true) s else (ok false, s)

abbrev pub in_process : Export → Export
in_process e = record e { status = ExportStatus.processing }

abbrev pub with_report : ℕ → Text → Text → Export → Export
with_report now key payload e = record e {
  status = ExportStatus.completed;
  storage_key = some key;
  file_size_bytes = some (length payload);
  completed_at = some now;
}

-- `f"reports/{repo_id}/{job_id}.json"`
abbrev pub report_key : Outside → ℕ → ℕ → Text
report_key o repo_id job_id =
    codes "reports/" ++ o.str_id repo_id ++ codes "/" ++ o.str_id job_id ++ codes ".json"

unfoldable pub upload : Outside → Text → Text → Action Desk (Unit {0})
upload o key payload =
    if o.storage
    then modify (λ s. record s { objects = (key, payload) ∷ s.objects })
    else throw (Exception.other "S3Error")

-- `_build`: two transactions, with the upload between them
unfoldable pub build : Outside → ℕ → ℕ → ℕ → Action Desk (Option Text)
unfolding get_export upload in_transaction
build o now job_id repo_id = do
  found ← in_transaction restore_desk (write_job job_id in_process)
  if found
      then (do
        upload o (report_key o repo_id job_id) (o.dumps (o.str_id repo_id) now)
        done ← in_transaction restore_desk (
            write_job job_id
              (with_report now (report_key o repo_id job_id) (o.dumps (o.str_id repo_id) now)))
        pure (if done then some (report_key o repo_id job_id) else none))
      else pure none

-- `expires_at < now` is not true of a null
abbrev pub before_now : ℕ → Option ℕ → Bool
before_now now none = false
before_now now (some t) = ltb t now

abbrev pub is_overdue : ℕ → Export → Bool
is_overdue now e = before_now now e.expires_at && e.status == ExportStatus.completed

abbrev pub expired : Export → Export
expired e = record e { status = ExportStatus.failed; error_message = some "expired" }

-- `_cleanup_exports`, with the count of the rows
unfoldable pub cleanup_exports : ℕ → Action Desk ℕ
cleanup_exports now s = (
  ok (count (is_overdue now) s.exports),
  record s { exports = update (is_overdue now) expired s.exports },
)
