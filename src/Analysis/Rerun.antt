-- ===== src/Analysis/Rerun.antt =====
-- A second run of `_run_pipeline` of app/workers/tasks/repository.py.
use repo_info_backend.Analysis.Architecture.{detect_architecture}
use repo_info_backend.Analysis.Indexing.{DiskFile, index_tree}
use repo_info_backend.Analysis.Outcomes.{advance_architectures}
use repo_info_backend.Analysis.Pipeline.{advance_step, begin, finish}
use repo_info_backend.Analysis.Run.{after_clone, after_structure, analyze, run_pipeline, start_run}
use repo_info_backend.Analysis.Stores.{
  Clone, Dependency, Worker, store_architecture, store_index, store_structure,
}
use repo_info_backend.Catalog.Queries.{get_architecture_for, get_repository}
use repo_info_backend.Catalog.Tables.{
  Repository, RepositoryArchitecture, RepositoryFile, Shelf, restore_tables,
}
use repo_info_backend.Core.Errors.{Exception}
use repo_info_backend.Database.Session.{Action, Result, continue, err, in_transaction, ok, ◌>>◌}
use repo_info_backend.Models.Enums.{
  ProcessingStage, StepStatus, processing_stage_eq, step_status_eq,
}
use repo_info_backend.Prelude.{
  List, Option, ap, find?, is_some, nat_eq, none, refl, some, text_eq, true, ℕ, ◌==◌, ◌∙◌, ◌≡◌,
}

then_ :
    {A : Type 0} (m : Action Shelf (Unit {0})) (k : Action Shelf A) (s s' : Shelf)
    → m s ≡ (ok tt, s')
    → (m >> k) s ≡ k s'
then_ m k s s' h = ap (continue (λ _. k)) h

begin_ok :
    (now analysis_id : ℕ) (stage : ProcessingStage) (progress : ℕ) (s : Shelf)
    → begin now analysis_id stage progress s ≡ (ok tt, (begin now analysis_id stage progress s).1)
unfolding begin advance_step
begin_ok now analysis_id stage progress s = refl

finish_ok :
    (now analysis_id : ℕ) (stage : ProcessingStage) (s : Shelf)
    → finish now analysis_id stage s ≡ (ok tt, (finish now analysis_id stage s).1)
unfolding finish advance_step
finish_ok now analysis_id stage s = refl

store_index_ok :
    (repo_id : ℕ) (es : List RepositoryFile) (s : Shelf)
    → store_index repo_id es s ≡ (ok tt, (store_index repo_id es s).1)
unfolding store_index
store_index_ok repo_id es s = refl

begin_architectures :
    (now analysis_id : ℕ) (stage : ProcessingStage) (progress : ℕ) (s : Shelf)
    → (begin now analysis_id stage progress s).1.architectures ≡ s.architectures
unfolding begin
begin_architectures now analysis_id stage progress s =
    advance_architectures now analysis_id stage StepStatus.in_progress progress none s

finish_architectures :
    (now analysis_id : ℕ) (stage : ProcessingStage) (s : Shelf)
    → (finish now analysis_id stage s).1.architectures ≡ s.architectures
unfolding finish
finish_architectures now analysis_id stage s =
    advance_architectures now analysis_id stage StepStatus.completed 100 none s

-- the states of a run up to the stage of the structure
module _ (w : Worker) (repo_id analysis_id : ℕ) (disk : List DiskFile) (s : Shelf) where
  entries : List RepositoryFile
  entries = index_tree w.lower repo_id 5000 disk

  indexing_state : Shelf
  indexing_state = (begin w.now analysis_id ProcessingStage.indexing 20 s).1

  indexed_state : Shelf
  unfolding indexing_state entries
  indexed_state = (store_index repo_id entries indexing_state).1

  structure_state : Shelf
  unfolding indexed_state
  structure_state =
      (begin w.now analysis_id ProcessingStage.analyzing_structure 40
        (finish w.now analysis_id ProcessingStage.indexing indexed_state).1).1

  structure_architectures : structure_state.architectures ≡ s.architectures
  unfolding structure_state store_index
  structure_architectures =
      begin_architectures w.now analysis_id ProcessingStage.analyzing_structure 40
        (finish w.now analysis_id ProcessingStage.indexing indexed_state).1
      ∙ (finish_architectures w.now analysis_id ProcessingStage.indexing indexed_state
          ∙ begin_architectures w.now analysis_id ProcessingStage.indexing 20 s)

  store_structure_fails :
      is_some (get_architecture_for repo_id structure_state) ≡ true
      → store_structure w repo_id entries structure_state
        ≡ (err Exception.integrity, restore_tables structure_state structure_state)
  unfolding in_transaction store_structure store_architecture detect_architecture
  store_structure_fails h = rw h

  analyze_fails :
      (deps : List Dependency)
      → is_some (get_architecture_for repo_id structure_state) ≡ true
      → (analyze w repo_id analysis_id disk deps s).0 ≡ err Exception.integrity
  unfolding analyze structure_state indexed_state indexing_state entries
  analyze_fails deps h =
      let k4 : Action Shelf (Unit {0}) =
        store_structure w repo_id entries >> after_structure w repo_id analysis_id entries deps in
      let k3 : Action Shelf (Unit {0}) =
        begin w.now analysis_id ProcessingStage.analyzing_structure 40 >> k4 in
      let k2 : Action Shelf (Unit {0}) = finish w.now analysis_id ProcessingStage.indexing >> k3 in
      let k1 : Action Shelf (Unit {0}) = store_index repo_id entries >> k2 in
      let finished : Shelf = (finish w.now analysis_id ProcessingStage.indexing indexed_state).1 in
      ap (λ (q : Result (Unit {0}) × Shelf). q.0)
        (then_ (begin w.now analysis_id ProcessingStage.indexing 20) k1 s indexing_state
            (begin_ok w.now analysis_id ProcessingStage.indexing 20 s)
          ∙ (then_ (store_index repo_id entries) k2 indexing_state indexed_state
                (store_index_ok repo_id entries indexing_state)
              ∙ (then_ (finish w.now analysis_id ProcessingStage.indexing) k3 indexed_state finished
                    (finish_ok w.now analysis_id ProcessingStage.indexing indexed_state)
                  ∙ (then_ (begin w.now analysis_id ProcessingStage.analyzing_structure 40) k4
                        finished structure_state
                        (begin_ok w.now analysis_id ProcessingStage.analyzing_structure 40 finished)
                      ∙ ap (continue (λ _. after_structure w repo_id analysis_id entries deps))
                          (store_structure_fails h)))))

first : {p q : Result (Unit {0}) × Shelf} → p ≡ q → p.0 ≡ q.0
first e = ap (λ (r : Result (Unit {0}) × Shelf). r.0) e

-- A repository whose architecture is stored cannot be analyzed again: once the clone has worked the
-- run fails with an integrity error, for the architecture of a repository must be unique.
pub rerun_fails :
    (w : Worker) (repo_id analysis_id : ℕ) (disk : List DiskFile) (deps : List Dependency)
    (r : Repository) (arch : RepositoryArchitecture) (s : Shelf)
    → get_repository repo_id s ≡ some r
    → get_architecture_for repo_id s ≡ some arch
    → w.clone ≡ Clone.cloned disk deps
    → (run_pipeline w repo_id analysis_id s).0 ≡ err Exception.integrity
unfolding run_pipeline start_run after_clone get_architecture_for
rerun_fails w repo_id analysis_id disk deps r arch s found has_arch works =
    let begun : Shelf = (begin w.now analysis_id ProcessingStage.cloning 10 s).1 in
    let cloned_state : Shelf = (finish w.now analysis_id ProcessingStage.cloning begun).1 in
    let kept =
      structure_architectures w repo_id analysis_id disk cloned_state
      ∙ (finish_architectures w.now analysis_id ProcessingStage.cloning begun
          ∙ begin_architectures w.now analysis_id ProcessingStage.cloning 10 s) in
    let stored =
      ap
        (λ (rows : List RepositoryArchitecture).
          is_some (find? (λ a. a.repository_id == repo_id) rows))
        kept
      ∙ ap (λ (o : Option RepositoryArchitecture). is_some o) has_arch in
    ap (λ (o : Option Repository). (start_run w repo_id analysis_id o s).0) found
    ∙ (first (
          then_ (begin w.now analysis_id ProcessingStage.cloning 10)
            (after_clone w repo_id analysis_id w.clone) s begun
            (begin_ok w.now analysis_id ProcessingStage.cloning 10 s))
        ∙ (ap (λ c. (after_clone w repo_id analysis_id c begun).0) works
            ∙ (first (
                  then_ (finish w.now analysis_id ProcessingStage.cloning)
                    (analyze w repo_id analysis_id disk deps) begun cloned_state
                    (finish_ok w.now analysis_id ProcessingStage.cloning begun))
                ∙ analyze_fails w repo_id analysis_id disk cloned_state deps stored)))
