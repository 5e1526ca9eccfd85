-- ===== src/Exports/Lifecycle.antt =====
-- The life of an export job, in whatever order requests, workers and the cleanup come: app/workers/tasks/export.py.
use repo_info_backend.Catalog.Queries.{get_repository}
use repo_info_backend.Catalog.Service.{owned}
use repo_info_backend.Catalog.Tables.{Repository}
use repo_info_backend.Database.Session.{in_transaction}
use repo_info_backend.Exports.Jobs.{
  before_now, build, cleanup_exports, expired, get_export, in_process, is_overdue, new_job,
  report_key, request_export, upload, with_report, write_job,
}
use repo_info_backend.Exports.Tables.{Desk, Export, Outside}
use repo_info_backend.Models.Enums.{ExportFormat, ExportStatus, ExportTarget, export_status_eq}
use repo_info_backend.Prelude.{
  All, All-append, All-map, All-update, All-update_where, Bool, Bool-cases, List, Option,
  Option-cases, Text, [], and_right, arith, beq_refl, beq→eq, false, find?, inl, inr, is_some,
  nat_eq, none, refl, some, subst, text_eq, true, update, ℕ, ◌++◌, ◌+◌, ◌==◌, ◌∷◌, ◌≡◌,
}

-- `get_object`: the object that stands under a key
unfoldable pub is_stored : Text → List (Text × Text) → Bool
is_stored key objects = is_some (find? (λ o. o.0 == key) objects)

-- A step is a request, one of the two transactions of a worker, its upload, or the cleanup. The second
-- transaction of a worker comes behind its upload.
pub data Step (o : Outside) (s : Desk) (t : Desk) : Type 0 where
  requested :
      (now user_id repo_id : ℕ) (format : ExportFormat)
      → t ≡ (request_export o now user_id repo_id format s).1
      → Step o s t
  started : (job_id : ℕ) → t ≡ (write_job job_id in_process s).1 → Step o s t
  uploaded : (key payload : Text) → t ≡ (upload o key payload s).1 → Step o s t
  finished :
      (now job_id : ℕ) (key payload : Text)
      → is_stored key s.objects ≡ true
      → t ≡ (write_job job_id (with_report now key payload) s).1
      → Step o s t
  cleaned : (now : ℕ) → t ≡ (cleanup_exports now s).1 → Step o s t

pub data Reach (o : Outside) (s : Desk) : Desk → Type 0 where
  here : Reach o s s
  next : {t u : Desk} → Reach o s t → Step o t u → Reach o s u

abbrev is_done : ExportStatus → Bool
is_done ExportStatus.pending = false
is_done ExportStatus.processing = false
is_done ExportStatus.completed = true
is_done ExportStatus.failed = true

abbrev HasObject : List (Text × Text) → Option Text → Type 0
HasObject objects none = ⊥
HasObject objects (some key) = is_stored key objects ≡ true

-- A job that is completed, or expired after that, has a key, and an object stands under it.
abbrev pub Filed : List (Text × Text) → Export → Type 0
Filed objects e = is_done e.status ≡ true → HasObject objects e.storage_key

is_stored-cons :
    (key payload other : Text) (objects : List (Text × Text))
    → is_stored other objects ≡ true
    → is_stored other ((key, payload) ∷ objects) ≡ true
unfolding is_stored
is_stored-cons key payload other objects h = ground arith

HasObject-cons :
    (key payload : Text) (objects : List (Text × Text)) (k : Option Text)
    → HasObject objects k
    → HasObject ((key, payload) ∷ objects) k
HasObject-cons key payload objects none h = elim h [ ]
HasObject-cons key payload objects (some other) h = is_stored-cons key payload other objects h

write_job-Filed :
    (job_id : ℕ) (f : Export → Export) (s : Desk)
    → ((e : Export) → Filed s.objects e → Filed s.objects (f e))
    → All (Filed s.objects) s.exports
    → All (Filed (write_job job_id f s).1.objects) (write_job job_id f s).1.exports
write_job-Filed job_id f s keep h = elim (Bool-cases (is_some (get_export job_id s))) [
  | inl t ↦ rw (t) (All-update (Filed s.objects) (λ e. e.id == job_id) f keep s.exports h)
  | inr f ↦ rw (f) h
]

upload-Filed :
    (o : Outside) (key payload : Text) (s : Desk)
    → All (Filed s.objects) s.exports
    → All (Filed (upload o key payload s).1.objects) (upload o key payload s).1.exports
unfolding upload
upload-Filed o key payload s h = elim (Bool-cases o.storage) [
  | inl t ↦ rw (t) (
      All-map (λ e keep done. HasObject-cons key payload s.objects e.storage_key (keep done))
        s.exports h)
  | inr f ↦ rw (f) h
]

completed_done : (status : ExportStatus) → status ≡ ExportStatus.completed → is_done status ≡ true
completed_done status e = rw e refl

cleanup_exports-Filed :
    (now : ℕ) (s : Desk)
    → All (Filed s.objects) s.exports
    → All (Filed s.objects) (cleanup_exports now s).1.exports
unfolding cleanup_exports
cleanup_exports-Filed now s h =
    All-update_where (Filed s.objects) (is_overdue now) expired
      (λ e due keep done. keep (
        completed_done e.status (
          beq→eq e.status ExportStatus.completed
            (and_right (before_now now e.expires_at) (e.status == ExportStatus.completed) due))))
      s.exports h

request_export-Filed :
    (o : Outside) (now user_id repo_id : ℕ) (format : ExportFormat) (s : Desk)
    → All (Filed s.objects) s.exports
    → let t = (request_export o now user_id repo_id format s).1 in All (Filed t.objects) t.exports
unfolding request_export
request_export-Filed o now user_id repo_id format s h =
    elim (Option-cases (owned user_id (get_repository repo_id s.catalog))) [
      | inl e ↦ rw (e) h
      | inr (repo, e) ↦ rw (e) (elim (Bool-cases o.broker) [
        | inl t ↦ rw (t) (
            All-update (Filed s.objects) (λ x. x.id == s.next_id)
              (λ x. record x { celery_task_id = some (s.next_id + 1) }) (λ x k. k) _ (added repo))
        | inr f ↦ rw (f) (added repo)
      ])
    ]
  where
    added :
        (repo : Repository)
        → All (Filed s.objects) (
            s.exports
            ++ new_job now user_id ExportTarget.repository_report format (some repo.id) s.next_id
              ∷ [])
    added repo = All-append (Filed s.objects) s.exports _ h ((λ done. cc), tt)

Step-Filed :
    (o : Outside) (s t : Desk)
    → Step o s t
    → All (Filed s.objects) s.exports
    → All (Filed t.objects) t.exports
unfolding cleanup_exports
Step-Filed o s t (requested now user_id repo_id format e) h =
    rw e (request_export-Filed o now user_id repo_id format s h)
Step-Filed o s t (started job_id e) h =
    rw e (write_job-Filed job_id in_process s (λ x k done. cc) h)
Step-Filed o s t (uploaded key payload e) h = rw e (upload-Filed o key payload s h)
Step-Filed o s t (finished now job_id key payload stored e) h =
    rw e (write_job-Filed job_id (with_report now key payload) s (λ x k done. stored) h)
Step-Filed o s t (cleaned now e) h = rw e (cleanup_exports-Filed now s h)

Steps-Filed :
    {o : Outside} {s t : Desk}
    → All (Filed s.objects) s.exports
    → Reach o s t
    → All (Filed t.objects) t.exports
Steps-Filed h here = h
Steps-Filed h (next r step) = Step-Filed _ _ _ step (Steps-Filed h r)

Reach-trans : {o : Outside} {s t u : Desk} → Reach o s t → Reach o t u → Reach o s u
Reach-trans r here = r
Reach-trans r (next r' step) = next (Reach-trans r r') step

pub is_stored_here :
    (key payload : Text) (objects : List (Text × Text))
    → is_stored key ((key, payload) ∷ objects) ≡ true
unfolding is_stored
is_stored_here key payload objects = rw (beq_refl key)

-- a whole run of the worker is a sequence of steps
build-Reach :
    (o : Outside) (now job_id repo_id : ℕ) (s : Desk) → Reach o s (build o now job_id repo_id s).1
unfolding build in_transaction
build-Reach o now job_id repo_id s = elim (Bool-cases (is_some (get_export job_id s))) [
  | inr f ↦ subst (Reach o s) {x = s} (rw (f) refl) here
  | inl t ↦ elim (Bool-cases o.storage) [
    | inl up ↦ elim (Bool-cases (is_some (get_export job_id running))) [
      | inl t' ↦ subst (Reach o s) {x = filed} (rw (t, up, t') refl) (
          next {t = stored} (after_upload t up) (
            finished now job_id key payload (is_stored_here key payload s.objects)
              (rw (up, t') refl)))
      | inr f' ↦ subst (Reach o s) {x = stored} (rw (t, up, f') refl) (after_upload t up)
    ]
    | inr down ↦ subst (Reach o s) {x = running} (rw (t, down) refl) (after_start t)
  ]
]
  where
    key : Text
    key = report_key o repo_id job_id

    payload : Text
    payload = o.dumps (o.str_id repo_id) now

    running : Desk
    running = record s { exports = update (λ e. e.id == job_id) in_process s.exports }

    stored : Desk
    stored = record running { objects = (key, payload) ∷ s.objects }

    filed : Desk
    filed = record stored {
      exports = update (λ e. e.id == job_id) (with_report now key payload) running.exports;
    }

    after_start : is_some (get_export job_id s) ≡ true → Reach o s running
    after_start t = next here (started job_id (rw (t) refl))

    after_upload : is_some (get_export job_id s) ≡ true → o.storage ≡ true → Reach o s stored
    after_upload t up = next (after_start t) (uploaded key payload (rw (up) refl))

-- A job that is completed, or that has expired after that, has the key of an object that is stored,
-- whatever requests, uploads, transactions of workers and cleanups have come before, in any order;
-- and so it is after a whole run of the worker, whether or not the store answers.
pub Reach-Filed :
    (o : Outside) (s t : Desk)
    → All (Filed s.objects) s.exports
    → Reach o s t
    → All (Filed t.objects) t.exports
      × ((now job_id repo_id : ℕ)
          → let u = (build o now job_id repo_id t).1 in All (Filed u.objects) u.exports)
Reach-Filed o s t h r = (
  Steps-Filed h r,
  λ now job_id repo_id. Steps-Filed h (Reach-trans r (build-Reach o now job_id repo_id t)),
)
