-- ===== src/Catalog/Tables.antt =====
-- app/models/repository.py: the tables of the catalog and of an analysis. Percentages and scores are
-- whole numbers, and the columns that nothing under app/ writes are left out.
use repo_info_backend.Models.Enums.{
  DependencyType, ProcessingStage, RepositoryProvider, RepositoryVisibility, SecuritySeverity,
  StepStatus,
}
use repo_info_backend.Prelude.{Bool, List, Option, String, Text, ℕ}

pub record Repository : Type 0 where
  pub id : ℕ
  pub added_by_id : ℕ
  pub provider : RepositoryProvider
  pub owner_login : Text
  pub name : Text
  pub full_name : Text
  pub url : Text
  pub clone_url : Text
  pub default_branch : Text
  pub visibility : RepositoryVisibility
  pub primary_language : Option Text
  -- the bytes of each language
  pub languages : List (Text × ℕ)
  pub size_kb : ℕ
  pub processing_stage : ProcessingStage
  pub last_analyzed_at : Option ℕ
  pub file_count : ℕ
  pub total_lines : ℕ
  pub deleted_at : Option ℕ

pub record RepositoryAnalysis : Type 0 where
  pub id : ℕ
  pub repository_id : ℕ
  pub triggered_by_id : ℕ
  pub celery_task_id : Option ℕ
  pub stage : ProcessingStage
  pub error_message : Option Text
  pub started_at : ℕ
  pub completed_at : Option ℕ

pub record ProcessingStep : Type 0 where
  pub analysis_id : ℕ
  pub sequence : ℕ
  pub stage : ProcessingStage
  pub label : String
  pub status : StepStatus
  pub progress : ℕ
  pub detail : Option Text
  pub started_at : Option ℕ
  pub completed_at : Option ℕ

-- `node_type` is "file" or "directory"
pub data NodeType : Type 0 where
  file directory : NodeType

-- A path is its names, the innermost first: `src/app/main.py` is main.py, app, src.
abbrev pub FilePath : Type 0
FilePath = List Text

pub record RepositoryFile : Type 0 where
  pub repository_id : ℕ
  pub path : FilePath
  pub parent_path : Option FilePath
  pub name : Text
  pub node_type : NodeType
  pub language : Option Text
  pub size_bytes : ℕ
  pub depth : ℕ

pub record RepositoryDependency : Type 0 where
  pub id : ℕ
  pub repository_id : ℕ
  pub name : Text
  pub version : Option Text
  pub ecosystem : Text
  pub dependency_type : DependencyType
  pub is_vulnerable : Bool

pub record RepositoryMetrics : Type 0 where
  pub repository_id : ℕ
  pub code_smells : ℕ
  pub bugs : ℕ
  pub lines_of_code : ℕ

pub record RepositoryArchitecture : Type 0 where
  pub repository_id : ℕ
  pub pattern : Text
  pub layers : List (Text × List FilePath)
  pub entry_points : List FilePath

pub record SecurityFinding : Type 0 where
  pub report_id : ℕ
  pub severity : SecuritySeverity
  pub file_path : FilePath
  pub line : ℕ

pub record SecurityReport : Type 0 where
  pub id : ℕ
  pub repository_id : ℕ
  pub score : ℕ
  pub summary : List (SecuritySeverity × ℕ)
  pub is_latest : Bool

pub record Tables : Type 0 where
  pub repositories : List Repository
  -- (user, repository)
  pub favorites : List (ℕ × ℕ)
  pub pins : List (ℕ × ℕ)
  pub analyses : List RepositoryAnalysis
  pub steps : List ProcessingStep
  pub files : List RepositoryFile
  pub dependencies : List RepositoryDependency
  pub metrics : List RepositoryMetrics
  pub architectures : List RepositoryArchitecture
  pub reports : List SecurityReport
  pub findings : List SecurityFinding
  -- (user, verb, repository)
  pub activity : List (ℕ × String × ℕ)
  pub next_id : ℕ

-- A message of `analyze_repository.delay(repo_id, analysis_id, user_id)`.
pub record AnalysisTask : Type 0 where
  pub repo_id : ℕ
  pub analysis_id : ℕ
  pub user_id : ℕ

-- The tables, and the queue of the broker, which a restore_tables does not take back.
pub record Shelf : Type 0 where
  pub tables : Tables
  pub open tables use *
  pub queue : List AnalysisTask

abbrev pub restore_tables : Shelf → Shelf → Shelf
restore_tables old new = record new { tables = old.tables }
