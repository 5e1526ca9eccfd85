-- ===== src/Exports/Tables.antt =====
-- app/models/export.py: the jobs of exports, beside the catalog, the queue of the broker and the objects
-- that the store of app/storage/s3_client.py holds. Of a download nothing is written.
use repo_info_backend.Catalog.Tables.{Shelf}
use repo_info_backend.Models.Enums.{ExportFormat, ExportStatus, ExportTarget}
use repo_info_backend.Prelude.{Bool, List, Option, String, Text, ℕ}

pub record Export : Type 0 where
  pub id : ℕ
  pub user_id : ℕ
  pub repository_id : Option ℕ
  pub target : ExportTarget
  pub format : ExportFormat
  pub status : ExportStatus
  pub celery_task_id : Option ℕ
  pub storage_key : Option Text
  pub file_size_bytes : Option ℕ
  pub error_message : Option String
  pub completed_at : Option ℕ
  pub expires_at : Option ℕ
  pub created_at : ℕ
  pub deleted_at : Option ℕ

-- the objects stand by their keys, the newest first
pub record Desk : Type 0 where
  pub catalog : Shelf
  pub exports : List Export
  pub next_id : ℕ
  pub tasks : List (ℕ × ℕ)
  pub objects : List (Text × Text)

-- the tables only: a message and an object stay
abbrev pub restore_desk : Desk → Desk → Desk
restore_desk old new = record new {
  catalog = old.catalog;
  exports = old.exports;
  next_id = old.next_id;
}

-- What is outside: whether the broker and the object store answer, `str` of an id, the bytes of the
-- report of `json.dumps`, and the address of `presigned_get`.
pub record Outside : Type 0 where
  pub broker : Bool
  pub storage : Bool
  pub str_id : ℕ → Text
  pub dumps : Text → ℕ → Text
  pub presigned : Text → Text
