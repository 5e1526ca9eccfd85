-- ===== src/Models/Enums/Exports.antt =====
-- app/models/enums.py, the enumerations of export jobs.
use repo_info_backend.Prelude.{
  ℕ, zero, suc, String, ◌≡◌, refl, some, List, [], ◌∷◌, Eq, enum_eq, of_value,
}

pub data ExportFormat : Type 0 where
  pdf json markdown zip : ExportFormat

unfoldable pub export_format_value : ExportFormat → String
export_format_value ExportFormat.pdf = "pdf"
export_format_value ExportFormat.json = "json"
export_format_value ExportFormat.markdown = "markdown"
export_format_value ExportFormat.zip = "zip"

abbrev pub export_format_members : List ExportFormat
export_format_members =
    ExportFormat.pdf ∷ ExportFormat.json ∷ ExportFormat.markdown ∷ ExportFormat.zip ∷ []

pub export_format-of_value :
    (m : ExportFormat)
    → of_value export_format_value export_format_members (export_format_value m) ≡ some m
unfolding export_format_value
export_format-of_value ExportFormat.pdf = refl
export_format-of_value ExportFormat.json = refl
export_format-of_value ExportFormat.markdown = refl
export_format-of_value ExportFormat.zip = refl

pub data ExportStatus : Type 0 where
  pending processing completed failed : ExportStatus

unfoldable pub export_status_value : ExportStatus → String
export_status_value ExportStatus.pending = "pending"
export_status_value ExportStatus.processing = "processing"
export_status_value ExportStatus.completed = "completed"
export_status_value ExportStatus.failed = "failed"

abbrev export_status_index : ExportStatus → ℕ
export_status_index ExportStatus.pending = 0
export_status_index ExportStatus.processing = 1
export_status_index ExportStatus.completed = 2
export_status_index ExportStatus.failed = 3

abbrev export_status_at : ℕ → ExportStatus
export_status_at zero = ExportStatus.pending
export_status_at (suc zero) = ExportStatus.processing
export_status_at (suc (suc zero)) = ExportStatus.completed
export_status_at _ = ExportStatus.failed

pub export_status_at-index : (m : ExportStatus) → export_status_at (export_status_index m) ≡ m
export_status_at-index ExportStatus.pending = refl
export_status_at-index ExportStatus.processing = refl
export_status_at-index ExportStatus.completed = refl
export_status_at-index ExportStatus.failed = refl

instance abbrev pub export_status_eq : Eq ExportStatus
export_status_eq = enum_eq export_status_index export_status_at export_status_at-index

pub data ExportTarget : Type 0 where
  repository_report security_report architecture_report chat_transcript analytics_report :
      ExportTarget
