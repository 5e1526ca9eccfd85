-- ===== src/Models/Enums/Catalog.antt =====
-- app/models/enums.py, the enumerations of repositories and their analysis.
use repo_info_backend.Prelude.{
  ℕ, zero, suc, String, ◌≡◌, refl, some, List, [], ◌∷◌, Eq, enum_eq, of_value,
}

pub data RepositoryVisibility : Type 0 where
  public private internal : RepositoryVisibility

pub data RepositoryProvider : Type 0 where
  github gitlab bitbucket upload git_url : RepositoryProvider

unfoldable pub repository_provider_value : RepositoryProvider → String
repository_provider_value RepositoryProvider.github = "github"
repository_provider_value RepositoryProvider.gitlab = "gitlab"
repository_provider_value RepositoryProvider.bitbucket = "bitbucket"
repository_provider_value RepositoryProvider.upload = "upload"
repository_provider_value RepositoryProvider.git_url = "git_url"

abbrev pub repository_provider_members : List RepositoryProvider
repository_provider_members =
    RepositoryProvider.github ∷ RepositoryProvider.gitlab ∷ RepositoryProvider.bitbucket
    ∷ RepositoryProvider.upload ∷ RepositoryProvider.git_url ∷ []

pub repository_provider-of_value :
    (m : RepositoryProvider)
    → of_value repository_provider_value repository_provider_members (repository_provider_value m)
      ≡ some m
unfolding repository_provider_value
repository_provider-of_value RepositoryProvider.github = refl
repository_provider-of_value RepositoryProvider.gitlab = refl
repository_provider-of_value RepositoryProvider.bitbucket = refl
repository_provider-of_value RepositoryProvider.upload = refl
repository_provider-of_value RepositoryProvider.git_url = refl

pub data ProcessingStage : Type 0 where
  queued cloning indexing analyzing_structure analyzing_dependencies analyzing_security
        generating_embeddings building_graph completed failed :
      ProcessingStage

unfoldable pub processing_stage_value : ProcessingStage → String
processing_stage_value ProcessingStage.queued = "queued"
processing_stage_value ProcessingStage.cloning = "cloning"
processing_stage_value ProcessingStage.indexing = "indexing"
processing_stage_value ProcessingStage.analyzing_structure = "analyzing_structure"
processing_stage_value ProcessingStage.analyzing_dependencies = "analyzing_dependencies"
processing_stage_value ProcessingStage.analyzing_security = "analyzing_security"
processing_stage_value ProcessingStage.generating_embeddings = "generating_embeddings"
processing_stage_value ProcessingStage.building_graph = "building_graph"
processing_stage_value ProcessingStage.completed = "completed"
processing_stage_value ProcessingStage.failed = "failed"

abbrev processing_stage_index : ProcessingStage → ℕ
processing_stage_index ProcessingStage.queued = 0
processing_stage_index ProcessingStage.cloning = 1
processing_stage_index ProcessingStage.indexing = 2
processing_stage_index ProcessingStage.analyzing_structure = 3
processing_stage_index ProcessingStage.analyzing_dependencies = 4
processing_stage_index ProcessingStage.analyzing_security = 5
processing_stage_index ProcessingStage.generating_embeddings = 6
processing_stage_index ProcessingStage.building_graph = 7
processing_stage_index ProcessingStage.completed = 8
processing_stage_index ProcessingStage.failed = 9

abbrev processing_stage_at : ℕ → ProcessingStage
processing_stage_at zero = ProcessingStage.queued
processing_stage_at (suc zero) = ProcessingStage.cloning
processing_stage_at (suc (suc zero)) = ProcessingStage.indexing
processing_stage_at (suc (suc (suc zero))) = ProcessingStage.analyzing_structure
processing_stage_at (suc (suc (suc (suc zero)))) = ProcessingStage.analyzing_dependencies
processing_stage_at (suc (suc (suc (suc (suc zero))))) = ProcessingStage.analyzing_security
processing_stage_at (suc (suc (suc (suc (suc (suc zero)))))) = ProcessingStage.generating_embeddings
processing_stage_at (suc (suc (suc (suc (suc (suc (suc zero))))))) = ProcessingStage.building_graph
processing_stage_at (suc (suc (suc (suc (suc (suc (suc (suc zero)))))))) = ProcessingStage.completed
processing_stage_at _ = ProcessingStage.failed

pub processing_stage_at-index :
    (m : ProcessingStage) → processing_stage_at (processing_stage_index m) ≡ m
processing_stage_at-index ProcessingStage.queued = refl
processing_stage_at-index ProcessingStage.cloning = refl
processing_stage_at-index ProcessingStage.indexing = refl
processing_stage_at-index ProcessingStage.analyzing_structure = refl
processing_stage_at-index ProcessingStage.analyzing_dependencies = refl
processing_stage_at-index ProcessingStage.analyzing_security = refl
processing_stage_at-index ProcessingStage.generating_embeddings = refl
processing_stage_at-index ProcessingStage.building_graph = refl
processing_stage_at-index ProcessingStage.completed = refl
processing_stage_at-index ProcessingStage.failed = refl

instance abbrev pub processing_stage_eq : Eq ProcessingStage
processing_stage_eq = enum_eq processing_stage_index processing_stage_at processing_stage_at-index

pub data StepStatus : Type 0 where
  pending in_progress completed failed : StepStatus

abbrev step_status_index : StepStatus → ℕ
step_status_index StepStatus.pending = 0
step_status_index StepStatus.in_progress = 1
step_status_index StepStatus.completed = 2
step_status_index StepStatus.failed = 3

abbrev step_status_at : ℕ → StepStatus
step_status_at zero = StepStatus.pending
step_status_at (suc zero) = StepStatus.in_progress
step_status_at (suc (suc zero)) = StepStatus.completed
step_status_at _ = StepStatus.failed

pub step_status_at-index : (m : StepStatus) → step_status_at (step_status_index m) ≡ m
step_status_at-index StepStatus.pending = refl
step_status_at-index StepStatus.in_progress = refl
step_status_at-index StepStatus.completed = refl
step_status_at-index StepStatus.failed = refl

instance abbrev pub step_status_eq : Eq StepStatus
step_status_eq = enum_eq step_status_index step_status_at step_status_at-index

pub data SecuritySeverity : Type 0 where
  critical high medium low info : SecuritySeverity

unfoldable pub security_severity_value : SecuritySeverity → String
security_severity_value SecuritySeverity.critical = "critical"
security_severity_value SecuritySeverity.high = "high"
security_severity_value SecuritySeverity.medium = "medium"
security_severity_value SecuritySeverity.low = "low"
security_severity_value SecuritySeverity.info = "info"

abbrev pub security_severity_members : List SecuritySeverity
security_severity_members =
    SecuritySeverity.critical ∷ SecuritySeverity.high ∷ SecuritySeverity.medium
    ∷ SecuritySeverity.low ∷ SecuritySeverity.info ∷ []

pub security_severity-of_value :
    (m : SecuritySeverity)
    → of_value security_severity_value security_severity_members (security_severity_value m)
      ≡ some m
unfolding security_severity_value
security_severity-of_value SecuritySeverity.critical = refl
security_severity-of_value SecuritySeverity.high = refl
security_severity-of_value SecuritySeverity.medium = refl
security_severity-of_value SecuritySeverity.low = refl
security_severity-of_value SecuritySeverity.info = refl

abbrev security_severity_index : SecuritySeverity → ℕ
security_severity_index SecuritySeverity.critical = 0
security_severity_index SecuritySeverity.high = 1
security_severity_index SecuritySeverity.medium = 2
security_severity_index SecuritySeverity.low = 3
security_severity_index SecuritySeverity.info = 4

abbrev security_severity_at : ℕ → SecuritySeverity
security_severity_at zero = SecuritySeverity.critical
security_severity_at (suc zero) = SecuritySeverity.high
security_severity_at (suc (suc zero)) = SecuritySeverity.medium
security_severity_at (suc (suc (suc zero))) = SecuritySeverity.low
security_severity_at _ = SecuritySeverity.info

pub security_severity_at-index :
    (m : SecuritySeverity) → security_severity_at (security_severity_index m) ≡ m
security_severity_at-index SecuritySeverity.critical = refl
security_severity_at-index SecuritySeverity.high = refl
security_severity_at-index SecuritySeverity.medium = refl
security_severity_at-index SecuritySeverity.low = refl
security_severity_at-index SecuritySeverity.info = refl

instance abbrev pub security_severity_eq : Eq SecuritySeverity
security_severity_eq =
    enum_eq security_severity_index security_severity_at security_severity_at-index

pub data DependencyType : Type 0 where
  internal external dev : DependencyType

unfoldable pub dependency_type_value : DependencyType → String
dependency_type_value DependencyType.internal = "internal"
dependency_type_value DependencyType.external = "external"
dependency_type_value DependencyType.dev = "dev"

abbrev pub dependency_type_members : List DependencyType
dependency_type_members =
    DependencyType.internal ∷ DependencyType.external ∷ DependencyType.dev ∷ []

pub dependency_type-of_value :
    (m : DependencyType)
    → of_value dependency_type_value dependency_type_members (dependency_type_value m) ≡ some m
unfolding dependency_type_value
dependency_type-of_value DependencyType.internal = refl
dependency_type-of_value DependencyType.external = refl
dependency_type-of_value DependencyType.dev = refl
