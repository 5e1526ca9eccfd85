-- ===== src/Analysis/Stores.antt =====
-- app/workers/tasks/repository.py: the transactions of `_run_pipeline` that store results.
use repo_info_backend.Analysis.Architecture.{detect_architecture}
use repo_info_backend.Analysis.Indexing.{DiskFile}
use repo_info_backend.Analysis.Statistics.{Finding, is_file, language_stats, score, summary_of}
use repo_info_backend.Catalog.Paths.{path_eq}
use repo_info_backend.Catalog.Queries.{
  get_architecture_for, get_metrics_for, get_repository, new_id, taken, with_tables,
}
use repo_info_backend.Catalog.Tables.{
  FilePath, Repository, RepositoryArchitecture, RepositoryDependency, RepositoryFile,
  SecurityFinding, SecurityReport, Shelf, restore_tables,
}
use repo_info_backend.Core.Errors.{Exception}
use repo_info_backend.Database.Session.{
  Action, err, gets, in_transaction, ok, pure, throw, ◌>>=◌, ◌>>◌,
}
use repo_info_backend.Models.Enums.{DependencyType}
use repo_info_backend.Prelude.{
  Bool, List, Option, Text, [], count, false, find?, if◌then◌else◌, is_some, map, nat_eq, none,
  some, string_eq, text_eq, true, update, ℕ, ◌&&◌, ◌++◌, ◌/◌, ◌==◌, ◌∷◌,
}

-- a row of `_parse_dependencies`
pub record Dependency : Type 0 where
  pub name : Text
  pub version : Option Text
  pub ecosystem : Text
  pub dependency_type : DependencyType

-- `GitCommandError`, or the files of the clone and the dependencies that its manifests name
pub data Clone : Type 0 where
  git_error : Text → Clone
  cloned : List DiskFile → List Dependency → Clone

-- What a run reads from outside the database.
pub record Worker : Type 0 where
  pub now : ℕ
  pub clone : Clone
  pub lower : Text → Text
  pub iterate : List FilePath → List FilePath

-- `total_bytes / 1024`, cut to an integer
abbrev pub indexed : List RepositoryFile → Repository → Repository
indexed entries r =
    let (primary, stats, total) = language_stats entries in
    record r {
      file_count = count is_file entries;
      primary_language = primary;
      languages = stats;
      size_kb = total / 1024;
    }

unfoldable pub store_index : ℕ → List RepositoryFile → Action Shelf (Unit {0})
store_index repo_id entries = with_tables (λ t. record t {
  files = t.files ++ entries;
  repositories = update (λ r. r.id == repo_id) (indexed entries) t.repositories;
})

-- `repository_id` is unique
unfoldable pub store_architecture : RepositoryArchitecture → Action Shelf (Unit {0})
store_architecture arch s =
    if is_some (get_architecture_for arch.repository_id s) then (err Exception.integrity, s) else (
      ok tt,
      record s { tables = record s.tables { architectures = s.architectures ++ arch ∷ [] } },
    )

abbrev pub same_dependency : ℕ → Dependency → RepositoryDependency → Bool
same_dependency repo_id d x =
    x.repository_id == repo_id && x.name == d.name && x.ecosystem == d.ecosystem

abbrev pub dependency_row : ℕ → ℕ → Dependency → RepositoryDependency
dependency_row id repo_id d = record {
  id = id;
  repository_id = repo_id;
  name = d.name;
  version = d.version;
  ecosystem = d.ecosystem;
  dependency_type = d.dependency_type;
  is_vulnerable = false;
}

-- `uq_repo_dependencies_name`
unfoldable pub store_dependencies : ℕ → List Dependency → Action Shelf (Unit {0})
store_dependencies repo_id [] = pure tt
store_dependencies repo_id (d ∷ ds) = do
  taken ← gets (λ s. is_some (find? (same_dependency repo_id d) s.dependencies))
  if taken then throw Exception.integrity else pure tt
  id ← new_id
  with_tables (λ t. record t { dependencies = t.dependencies ++ dependency_row id repo_id d ∷ [] })
  store_dependencies repo_id ds

abbrev pub finding_row : ℕ → Finding → SecurityFinding
finding_row report_id f = record {
  report_id = report_id;
  severity = f.severity;
  file_path = f.file_path;
  line = f.line;
}

unfoldable pub store_report : ℕ → List Finding → Action Shelf (Unit {0})
store_report repo_id findings = do
  id ← new_id
  let report : SecurityReport = record {
    id = id;
    repository_id = repo_id;
    score = score findings;
    summary = summary_of findings;
    is_latest = true;
  }
  with_tables (λ t. record t {
    reports = t.reports ++ report ∷ [];
    findings = t.findings ++ map (finding_row id) findings;
  })

-- `repository_id` is unique, and `r.total_lines` fails where the row has gone
abbrev pub metrics_for : ℕ → ℕ → Option Repository → Action Shelf (Unit {0})
metrics_for repo_id code_smells none s = (err (Exception.other "AttributeError"), s)
metrics_for repo_id code_smells (some r) s =
    if is_some (get_metrics_for repo_id s) then (err Exception.integrity, s) else (
      ok tt,
      record s {
        tables = record s.tables {
          metrics =
              s.metrics
              ++ record {
                repository_id = repo_id;
                code_smells = code_smells;
                bugs = 0;
                lines_of_code = r.total_lines;
              }
                ∷ [];
        };
      },
    )

unfoldable pub store_metrics : ℕ → ℕ → Action Shelf (Unit {0})
store_metrics repo_id code_smells s = metrics_for repo_id code_smells (get_repository repo_id s) s

-- The block that stores the architecture, and what follows it.
unfoldable pub store_structure : Worker → ℕ → List RepositoryFile → Action Shelf (Unit {0})
unfolding store_architecture
store_structure w repo_id entries =
    in_transaction restore_tables
      (store_architecture (detect_architecture w.iterate repo_id entries))
