-- ===== src/Catalog/ViewTests.antt =====
-- The views of app/services/repository_service.py on a repository with a security report.
use repo_info_backend.Catalog.Queries.{get_metrics_for, get_repository, latest_with_findings}
use repo_info_backend.Catalog.Reports.{get_security_counts}
use repo_info_backend.Catalog.Tables.{SecurityReport, Shelf}
use repo_info_backend.Catalog.Tests.{engine_row}
use repo_info_backend.Catalog.Views.{
  SecurityReportOut, count_of, get_metrics, get_security, severities,
}
use repo_info_backend.Database.Session.{ok}
use repo_info_backend.Models.Enums.{SecuritySeverity}
use repo_info_backend.Prelude.{All, [], refl, some, true, ℕ, ◌∷◌, ◌≡◌}

abbrev scanned_report : SecurityReport
scanned_report = record {
  id = 9;
  repository_id = 1;
  score = 70;
  summary = (SecuritySeverity.high, 3) ∷ [];
  is_latest = true;
}

abbrev scanned : Shelf
scanned = record {
  tables = record {
    repositories = engine_row ∷ [];
    favorites = [];
    pins = [];
    analyses = [];
    steps = [];
    files = [];
    dependencies = [];
    metrics = [];
    architectures = [];
    reports = scanned_report ∷ [];
    findings = [];
    activity = [];
    next_id = 10;
  };
  queue = [];
}

test_get_security_counts :
    (out : SecurityReportOut) × (get_security 7 1 scanned ≡ (ok out, scanned))
    × All (λ severity. (n : ℕ) × (count_of severity out.summary ≡ some n)) severities
    × ((report : SecurityReport) (severity : SecuritySeverity) (n : ℕ)
        → latest_with_findings 1 scanned ≡ some report
        → count_of severity report.summary ≡ some n
        → count_of severity out.summary ≡ some n)
unfolding get_repository
test_get_security_counts = get_security_counts 7 1 scanned engine_row refl refl

test_metrics :
    (get_metrics 7 1 scanned).0 ≡ ok (record { code_smells = 0; bugs = 0; lines_of_code = 0 })
unfolding get_metrics get_repository get_metrics_for
test_metrics = refl
