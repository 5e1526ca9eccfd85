-- ===== src/Catalog/Views.antt =====
-- app/services/repository_service.py: the metrics, the architecture, the dependencies and the security
-- report that the owner of a repository is shown, with the columns that the model keeps. An id of a node
-- of the graph is the root's or that of a row.
use repo_info_backend.Catalog.Paths.{path_eq}
use repo_info_backend.Catalog.Queries.{
  get_architecture_for, get_metrics_for, get_repository, latest_with_findings, list_dependencies,
}
use repo_info_backend.Catalog.Service.{owned_repository}
use repo_info_backend.Catalog.Tables.{
  FilePath, Repository, RepositoryArchitecture, RepositoryDependency, RepositoryMetrics,
  SecurityFinding, SecurityReport, Shelf,
}
use repo_info_backend.Database.Session.{Action, gets, pure, ◌>>=◌}
use repo_info_backend.Models.Enums.{DependencyType, SecuritySeverity, security_severity_eq}
use repo_info_backend.Prelude.{
  Bool, List, Option, Text, [], codes, false, filter, if◌then◌else◌, is_some, map, nat_eq, none,
  some, string_eq, text_eq, ℕ, ◌++◌, ◌==◌, ◌∷◌,
}

pub record RepositoryMetricsOut : Type 0 where
  pub code_smells : ℕ
  pub bugs : ℕ
  pub lines_of_code : ℕ

abbrev metrics_out : Repository → Option RepositoryMetrics → RepositoryMetricsOut
metrics_out repo none = record { code_smells = 0; bugs = 0; lines_of_code = repo.total_lines }
metrics_out repo (some m) = record {
  code_smells = m.code_smells;
  bugs = m.bugs;
  lines_of_code = m.lines_of_code;
}

unfoldable pub get_metrics : ℕ → ℕ → Action Shelf RepositoryMetricsOut
unfolding get_metrics_for
get_metrics user_id repo_id = do
  repo ← owned_repository user_id (← gets (get_repository repo_id))
  m ← gets (get_metrics_for repo_id)
  pure (metrics_out repo m)

pub record ArchitectureOverviewOut : Type 0 where
  pub pattern : Text
  pub layers : List (Text × List FilePath)
  pub entry_points : List FilePath

abbrev architecture_out : Option RepositoryArchitecture → ArchitectureOverviewOut
architecture_out none = record { pattern = codes "Unknown"; layers = []; entry_points = [] }
architecture_out (some arch) = record {
  pattern = arch.pattern;
  layers = arch.layers;
  entry_points = arch.entry_points;
}

unfoldable pub get_architecture : ℕ → ℕ → Action Shelf ArchitectureOverviewOut
unfolding get_architecture_for
get_architecture user_id repo_id = do
  repo ← owned_repository user_id (← gets (get_repository repo_id))
  arch ← gets (get_architecture_for repo_id)
  pure (architecture_out arch)

-- `root:<name>`, and the `str` of the id of a row
pub data NodeId : Type 0 where
  root : Text → NodeId
  dependency : ℕ → NodeId

pub record DependencyNodeOut : Type 0 where
  pub id : NodeId
  pub label : Text
  pub version : Option Text
  pub dependency_type : DependencyType
  pub vulnerable : Bool

pub record DependencyEdgeOut : Type 0 where
  pub source : NodeId
  pub target : NodeId

pub record DependencyGraphOut : Type 0 where
  pub nodes : List DependencyNodeOut
  pub edges : List DependencyEdgeOut

abbrev pub node_of : RepositoryDependency → DependencyNodeOut
node_of r = record {
  id = NodeId.dependency r.id;
  label = r.name;
  version = r.version;
  dependency_type = r.dependency_type;
  vulnerable = r.is_vulnerable;
}

abbrev pub root_node : Text → DependencyNodeOut
root_node name = record {
  id = NodeId.root name;
  label = name;
  version = none;
  dependency_type = DependencyType.internal;
  vulnerable = false;
}

abbrev pub edge_to : Text → RepositoryDependency → DependencyEdgeOut
edge_to name r = record { source = NodeId.root name; target = NodeId.dependency r.id }

unfoldable pub get_dependencies : ℕ → ℕ → Action Shelf DependencyGraphOut
unfolding list_dependencies
get_dependencies user_id repo_id = do
  repo ← owned_repository user_id (← gets (get_repository repo_id))
  rows ← gets (list_dependencies repo_id)
  pure (record {
    nodes = root_node repo.name ∷ map node_of rows;
    edges = map (edge_to repo.name) rows;
  })

pub record SecurityReportOut : Type 0 where
  pub score : ℕ
  pub findings : List SecurityFinding
  pub summary : List (SecuritySeverity × ℕ)

abbrev pub count_of : SecuritySeverity → List (SecuritySeverity × ℕ) → Option ℕ
count_of severity [] = none
count_of severity (e ∷ summary) = if e.0 == severity then some e.1 else count_of severity summary

-- `summary.setdefault(sev, 0)`
abbrev pub set_default :
    SecuritySeverity → List (SecuritySeverity × ℕ) → List (SecuritySeverity × ℕ)
set_default severity summary =
    if is_some (count_of severity summary) then summary else summary ++ (severity, 0) ∷ []

abbrev pub severities : List SecuritySeverity
severities =
    SecuritySeverity.critical ∷ SecuritySeverity.high ∷ SecuritySeverity.medium
    ∷ SecuritySeverity.low ∷ SecuritySeverity.info ∷ []

abbrev pub set_defaults :
    List SecuritySeverity → List (SecuritySeverity × ℕ) → List (SecuritySeverity × ℕ)
set_defaults [] summary = summary
set_defaults (severity ∷ rest) summary = set_defaults rest (set_default severity summary)

abbrev pub security_out : List SecurityFinding → Option SecurityReport → SecurityReportOut
security_out findings none = record {
  score = 100;
  findings = [];
  summary = map (λ severity. (severity, 0)) severities;
}
security_out findings (some report) = record {
  score = report.score;
  findings = filter (λ f. f.report_id == report.id) findings;
  summary = set_defaults severities report.summary;
}

unfoldable pub get_security : ℕ → ℕ → Action Shelf SecurityReportOut
unfolding latest_with_findings
get_security user_id repo_id = do
  repo ← owned_repository user_id (← gets (get_repository repo_id))
  report ← gets (latest_with_findings repo_id)
  gets (λ s. security_out s.findings report)
