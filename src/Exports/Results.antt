-- ===== src/Exports/Results.antt =====
-- From a request to the stored report: `request_export` of app/services/repository_service.py and the worker of
-- app/workers/tasks/export.py.
use repo_info_backend.Catalog.Queries.{get_repository}
use repo_info_backend.Catalog.Tables.{Repository}
use repo_info_backend.Core.Errors.{Exception}
use repo_info_backend.Database.Session.{err, in_transaction, ok}
use repo_info_backend.Exports.Jobs.{
  ExportOut, build, export_out, get_export, in_process, new_job, report_key, request_export,
  with_report,
}
use repo_info_backend.Exports.Lifecycle.{is_stored, is_stored_here}
use repo_info_backend.Exports.Tables.{Desk, Export, Outside}
use repo_info_backend.Models.Enums.{ExportFormat, ExportStatus, ExportTarget, export_status_eq}
use repo_info_backend.Prelude.{
  All, All-map, Text, [], ap, beq_false, beq_refl, false, find?-append_none, find?-none,
  find?-update, find?_holds, nat_beq_refl, nat_eq, none, refl, some, string_eq, text_eq, true,
  update, ℕ, ◌++◌, ◌+◌, ◌==◌, ◌∙◌, ◌∷◌, ◌≡◌, ◌≢◌,
}

get_export-write :
    (id : ℕ) (f : Export → Export) (s t : Desk) (j : Export)
    → ((e : Export) → (f e).id ≡ e.id)
    → get_export id s ≡ some j
    → t.exports ≡ update (λ e. e.id == id) f s.exports
    → get_export id t ≡ some (f j)
unfolding get_export
get_export-write id f s t j keep found e = rw (e) (
    find?-update (λ x. x.id == id) (λ x. x.id == id) f s.exports (λ x. ap (λ n. n == id) (keep x))
    ∙ rw (found, find?_holds (λ x. x.id == id) s.exports j found) refl)

module _ (o : Outside) (now job_id repo_id : ℕ) (s : Desk) (j : Export) where
  abbrev key : Text
  key = report_key o repo_id job_id

  abbrev payload : Text
  payload = o.dumps (o.str_id repo_id) now

  running : Desk
  running = record s { exports = update (λ e. e.id == job_id) in_process s.exports }

  filed : Desk
  unfolding running
  filed = record running {
    exports = update (λ e. e.id == job_id) (with_report now key payload) running.exports;
    objects = (key, payload) ∷ s.objects;
  }

  get_export-running :
      get_export job_id s ≡ some j → get_export job_id running ≡ some (in_process j)
  unfolding running
  get_export-running found = get_export-write job_id in_process s running j (λ e. refl) found refl

  build_completes :
      get_export job_id s ≡ some j
      → o.storage ≡ true
      → (build o now job_id repo_id s ≡ (ok (some key), filed))
        × (get_export job_id filed ≡ some (with_report now key payload (in_process j)))
        × (is_stored key filed.objects ≡ true)
  unfolding build in_transaction filed running
  build_completes found up = (
    rw (found, up, get_export-running found) refl,
    get_export-write job_id (with_report now key payload) running filed (in_process j) (λ e. refl)
        (get_export-running found) refl,
    is_stored_here key payload s.objects,
  )

  build_stuck :
      get_export job_id s ≡ some j
      → o.storage ≡ false
      → build o now job_id repo_id s ≡ (err (Exception.other "S3Error"), running)
  unfolding build in_transaction running
  build_stuck found down = rw (found, down) refl

-- The request of an owner answers with a pending job without an address to download from, and leaves the
-- message with the id of the job. The worker that takes the message, while the store answers, returns the key of the report,
-- which is stored, and completes the job; while the store is down it raises, and the job stays in process.
-- The ids of the jobs before are below the next one, and the broker answers.
pub request_export-build :
    (o : Outside) (now later user_id repo_id : ℕ) (format : ExportFormat) (r : Repository)
    (s : Desk)
    → get_repository repo_id s.catalog ≡ some r
    → r.added_by_id ≡ user_id
    → All (λ (e : Export). e.id ≢ s.next_id) s.exports
    → o.broker ≡ true
    → (out : ExportOut) × (t : Desk) × (request_export o now user_id repo_id format s ≡ (ok out, t))
      × (out.status ≡ ExportStatus.pending)
      × (out.download_url ≡ none)
      × (t.tasks ≡ s.tasks ++ (out.id, r.id) ∷ [])
      × (o.storage ≡ true
          → (e : Export) × (u : Desk) × (key : Text) × (build o later out.id r.id t
              ≡ (ok (some key), u))
            × (get_export out.id u ≡ some e)
            × (e.status ≡ ExportStatus.completed)
            × (e.storage_key ≡ some key)
            × (is_stored key u.objects ≡ true))
      × (o.storage ≡ false
          → (e : Export) × (u : Desk) × (build o later out.id r.id t
              ≡ (err (Exception.other "S3Error"), u))
            × (get_export out.id u ≡ some e)
            × (e.status ≡ ExportStatus.processing))
unfolding request_export get_export
request_export-build o now later user_id repo_id format r s found mine fresh up = (
  export_out o job,
  left,
  rw (found) (rw (mine, nat_beq_refl user_id) (rw (up) refl)),
  refl,
  refl,
  refl,
  (λ stored.
      let b = build_completes o later job.id r.id left job stands stored in
      (_, _, _, b.0, b.1, refl, refl, b.2)),
  λ down. (
    _,
    _,
    build_stuck o later job.id r.id left job stands down,
    get_export-running o later job.id r.id left job stands,
    refl,
  ),
)
  where
    created : Export
    created = new_job now user_id ExportTarget.repository_report format (some r.id) s.next_id

    job : Export
    job = record created { celery_task_id = some (s.next_id + 1) }

    left : Desk
    left = record s {
      exports =
          update (λ e. e.id == s.next_id) (λ e. record e { celery_task_id = some (s.next_id + 1) })
            (s.exports ++ created ∷ []);
      next_id = s.next_id + 1 + 1;
      tasks = s.tasks ++ (s.next_id, r.id) ∷ [];
    }

    entered : get_export s.next_id (record s { exports = s.exports ++ created ∷ [] }) ≡ some created
    entered =
        find?-append_none (λ e. e.id == s.next_id) s.exports (created ∷ [])
          (find?-none _ s.exports
            (All-map (λ e other. beq_false e.id s.next_id other) s.exports fresh))
        ∙ rw (beq_refl s.next_id) refl

    stands : get_export s.next_id left ≡ some job
    stands =
        get_export-write s.next_id (λ e. record e { celery_task_id = some (s.next_id + 1) })
          (record s { exports = s.exports ++ created ∷ [] }) left created (λ e. refl) entered refl
