-- ===== src/Analysis/Success.antt =====
-- A run of `_run_pipeline` of app/workers/tasks/repository.py that succeeds.
use mathlib.Core.Option
use repo_info_backend.Analysis.Architecture.{detect_architecture}
use repo_info_backend.Analysis.Indexing.{DiskFile, index_tree}
use repo_info_backend.Analysis.Pipeline.{advance_step, begin, finish, is_step, repository_advanced}
use repo_info_backend.Analysis.Run.{after_clone, after_structure, analyze, run_pipeline, start_run}
use repo_info_backend.Analysis.Stages.{Ready, advance_ready}
use repo_info_backend.Analysis.Statistics.{Finding, security_scan}
use repo_info_backend.Analysis.Stores.{
  Clone, Dependency, Worker, indexed, metrics_for, same_dependency, store_architecture,
  store_dependencies, store_index, store_metrics, store_report, store_structure,
}
use repo_info_backend.Catalog.Queries.{
  get_architecture_for, get_metrics_for, get_repository, processing_sequence,
}
use repo_info_backend.Catalog.Tables.{
  Repository, RepositoryAnalysis, RepositoryFile, Shelf, restore_tables,
}
use repo_info_backend.Database.Session.{
  Action, Result, close, continue, err, in_transaction, ok, ◌>>◌,
}
use repo_info_backend.Models.Enums.{
  ProcessingStage, StepStatus, processing_stage_eq, step_status_eq,
}
use repo_info_backend.Prelude.{
  All, Bool-cases, List, Option, [], ap, find?, find?-update, find?_holds, if◌then◌else◌, inl, inr,
  is_some, length, nat_eq, none, refl, some, subst, sym, text_eq, true, ℕ, ◌==◌, ◌∙◌, ◌∷◌, ◌≡◌,
}

-- what holds in the state of a success
abbrev Ends : (Shelf → Type 0) → Result (Unit {0}) × Shelf → Type 0
Ends Q (ok a, s) = Q s
Ends Q (err e, s) = Unit

record Post (P Q : Shelf → Type 0) (m : Action Shelf (Unit {0})) : Type 0 where
  pub holds : (s : Shelf) → P s → Ends Q (m s)

Ends-then :
    (R Q : Shelf → Type 0) (k : Action Shelf (Unit {0})) (p : Result (Unit {0}) × Shelf)
    → Ends R p
    → Post R Q k
    → Ends Q (continue (λ _. k) p)
Ends-then R Q k (ok a, s) h post = post.holds s h
Ends-then R Q k (err e, s) h post = tt

module _ (w : Worker) (repo_id analysis_id : ℕ) where
  ReadyRun : Shelf → Type 0
  ReadyRun s = Ready repo_id analysis_id s

  and_then :
      (Q : Shelf → Type 0) (m k : Action Shelf (Unit {0}))
      → Post ReadyRun ReadyRun m
      → Post ReadyRun Q k
      → Post ReadyRun Q (m >> k)
  and_then Q m k first rest = record {
    holds = λ s h. Ends-then ReadyRun Q k (m s) (first.holds s h) rest;
  }

  -- the step of a stage of the sequence
  Stepped : ProcessingStage → Type 0
  Stepped stage =
      (s : Shelf) → ReadyRun s → is_some (find? (is_step analysis_id stage) s.steps) ≡ true

  begin_keeps :
      (stage : ProcessingStage) (progress : ℕ)
      → Stepped stage
      → Post ReadyRun ReadyRun (begin w.now analysis_id stage progress)
  unfolding begin advance_step ReadyRun Stepped
  begin_keeps stage progress stepped = record {
    holds = λ s h.
        ((advance_ready w.now repo_id analysis_id stage StepStatus.in_progress progress none s h
          (stepped s h)).0);
  }

  finish_keeps :
      (stage : ProcessingStage)
      → Stepped stage
      → Post ReadyRun ReadyRun (finish w.now analysis_id stage)
  unfolding finish advance_step ReadyRun Stepped
  finish_keeps stage stepped = record {
    holds = λ s h.
        ((advance_ready w.now repo_id analysis_id stage StepStatus.completed 100 none s h
          (stepped s h)).0);
  }

  -- the tables that a run reads
  same_tables :
      (s s' : Shelf)
      → s'.repositories ≡ s.repositories
      → s'.analyses ≡ s.analyses
      → s'.steps ≡ s.steps
      → ReadyRun s
      → ReadyRun s'
  unfolding ReadyRun get_repository
  same_tables s s' r a x h = record {
    repo = h.repo;
    run = h.run;
    has_repo = ap (λ rows. find? (λ (y : Repository). y.id == repo_id) rows) r ∙ h.has_repo;
    has_run =
        ap (λ rows. find? (λ (y : RepositoryAnalysis). y.id == analysis_id) rows) a ∙ h.has_run;
    of_repo = h.of_repo;
    has_steps =
        subst
          (λ rows.
            All
              (λ (stage : ProcessingStage). is_some (find? (is_step analysis_id stage) rows) ≡ true)
              processing_sequence)
          (sym x) h.has_steps;
  }

  store_index_keeps : (es : List RepositoryFile) → Post ReadyRun ReadyRun (store_index repo_id es)
  unfolding store_index ReadyRun get_repository
  store_index_keeps es = record {
    holds = λ s h. (record {
      repo = indexed es h.repo;
      run = h.run;
      has_repo =
          find?-update (λ (r : Repository). r.id == repo_id) (λ (r : Repository). r.id == repo_id)
            (indexed es) s.repositories (λ r. refl)
          ∙ (ap (Option.map (λ (r : Repository). if r.id == repo_id then indexed es r else r))
                h.has_repo
              ∙ ap (λ b. some (if b then indexed es h.repo else h.repo))
                  (find?_holds (λ (r : Repository). r.id == repo_id) s.repositories h.repo
                    h.has_repo));
      has_run = h.has_run;
      of_repo = h.of_repo;
      has_steps = h.has_steps;
    });
  }

  store_structure_keeps :
      (es : List RepositoryFile) → Post ReadyRun ReadyRun (store_structure w repo_id es)
  unfolding store_structure store_architecture in_transaction
  store_structure_keeps es = record {
    holds = λ s h.
        (elim (Bool-cases (
          is_some
            (get_architecture_for (detect_architecture w.iterate repo_id es).repository_id s))) [
              | inl t ↦ rw t tt
              | inr f ↦ rw f (same_tables s _ refl refl refl h)
            ]);
  }

  Ends-close :
      (Q : Shelf → Type 0) (old : Shelf) (p : Result (Unit {0}) × Shelf)
      → Ends Q p
      → Ends Q (close restore_tables old p)
  Ends-close Q old (ok a, s) h = h
  Ends-close Q old (err e, s) h = h

  transaction_keeps :
      (m : Action Shelf (Unit {0}))
      → Post ReadyRun ReadyRun m
      → Post ReadyRun ReadyRun (in_transaction restore_tables m)
  unfolding in_transaction
  transaction_keeps m keeps = record {
    holds = λ s h. (Ends-close ReadyRun s (m s) (keeps.holds s h));
  }

  store_dependencies_keeps :
      (ds : List Dependency) → Post ReadyRun ReadyRun (store_dependencies repo_id ds)
  unfolding store_dependencies
  store_dependencies_keeps [] = record { holds = λ s h. h }
  store_dependencies_keeps (d ∷ ds) = record {
    holds = λ s h. (elim (Bool-cases (is_some (find? (same_dependency repo_id d) s.dependencies))) [
      | inl t ↦ rw t tt
      | inr f ↦ rw f ((store_dependencies_keeps ds).holds _ (same_tables s _ refl refl refl h))
    ]);
  }

  store_report_keeps : (fs : List Finding) → Post ReadyRun ReadyRun (store_report repo_id fs)
  unfolding store_report
  store_report_keeps fs = record { holds = λ s h. (same_tables s _ refl refl refl h) }

  with_repository :
      (n : ℕ) (o : Option Repository) (s : Shelf)
      → ReadyRun s
      → Ends ReadyRun (metrics_for repo_id n o s)
  with_repository n none s h = tt
  with_repository n (some r) s h = elim (Bool-cases (is_some (get_metrics_for repo_id s))) [
    | inl t ↦ rw t tt
    | inr f ↦ rw f (same_tables s _ refl refl refl h)
  ]

  store_metrics_keeps : (n : ℕ) → Post ReadyRun ReadyRun (store_metrics repo_id n)
  unfolding store_metrics
  store_metrics_keeps n = record { holds = λ s h. with_repository n (get_repository repo_id s) s h }

  -- The repository of a finished run.
  Completed : Shelf → Type 0
  Completed s =
      (r : Repository) × (get_repository repo_id s ≡ some r)
      × (r.processing_stage ≡ ProcessingStage.completed)
      × (r.last_analyzed_at ≡ some w.now)

  finish_completes : Post ReadyRun Completed (finish w.now analysis_id ProcessingStage.completed)
  unfolding finish advance_step ReadyRun Completed
  finish_completes = record {
    holds = λ s h.
        (let (ready, moved) =
            advance_ready w.now repo_id analysis_id ProcessingStage.completed StepStatus.completed
              100 none s h h.has_steps.1.1.1.1.1.1.1.1.0 in
          (repository_advanced w.now ProcessingStage.completed h.repo, moved, refl, refl));
  }

  after_structure_completes :
      (es : List RepositoryFile) (ds : List Dependency)
      → Post ReadyRun Completed (after_structure w repo_id analysis_id es ds)
  unfolding after_structure ReadyRun Stepped
  after_structure_completes es ds =
      and_then Completed _ _
        (finish_keeps ProcessingStage.analyzing_structure (λ s h. h.has_steps.1.1.1.0))
        (and_then Completed _ _
          (begin_keeps ProcessingStage.analyzing_dependencies 55 (λ s h. h.has_steps.1.1.1.1.0))
          (and_then Completed _ _
            (transaction_keeps (store_dependencies repo_id ds) (store_dependencies_keeps ds))
            (and_then Completed _ _
              (finish_keeps ProcessingStage.analyzing_dependencies (λ s h. h.has_steps.1.1.1.1.0))
              (and_then Completed _ _
                (begin_keeps ProcessingStage.analyzing_security 70 (λ s h. h.has_steps.1.1.1.1.1.0))
                (and_then Completed _ _ (store_report_keeps (security_scan es)) (
                  and_then Completed _ _
                    (finish_keeps ProcessingStage.analyzing_security
                      (λ s h. h.has_steps.1.1.1.1.1.0))
                    (and_then Completed _ _
                      (begin_keeps ProcessingStage.generating_embeddings 85
                        (λ s h. h.has_steps.1.1.1.1.1.1.0))
                      (and_then Completed _ _
                        (finish_keeps ProcessingStage.generating_embeddings
                          (λ s h. h.has_steps.1.1.1.1.1.1.0))
                        (and_then Completed _ _
                          (begin_keeps ProcessingStage.building_graph 95
                            (λ s h. h.has_steps.1.1.1.1.1.1.1.0))
                          (and_then Completed _ _
                            (finish_keeps ProcessingStage.building_graph
                              (λ s h. h.has_steps.1.1.1.1.1.1.1.0))
                            (and_then Completed _ _
                              (transaction_keeps (store_metrics repo_id (length (security_scan es)))
                                (store_metrics_keeps (length (security_scan es))))
                              finish_completes)))))))))))

  analyze_completes :
      (disk : List DiskFile) (ds : List Dependency)
      → Post ReadyRun Completed (analyze w repo_id analysis_id disk ds)
  unfolding analyze ReadyRun Stepped
  analyze_completes disk ds =
      let es : List RepositoryFile = index_tree w.lower repo_id 5000 disk in
      and_then Completed _ _ (begin_keeps ProcessingStage.indexing 20 (λ s h. h.has_steps.1.1.0)) (
        and_then Completed _ _ (store_index_keeps es) (
          and_then Completed _ _ (finish_keeps ProcessingStage.indexing (λ s h. h.has_steps.1.1.0))
            (and_then Completed _ _
              (begin_keeps ProcessingStage.analyzing_structure 40 (λ s h. h.has_steps.1.1.1.0))
              (and_then Completed _ _ (store_structure_keeps es)
                (after_structure_completes es ds)))))

  start_completes :
      (disk : List DiskFile) (ds : List Dependency)
      → Post ReadyRun Completed (
          begin w.now analysis_id ProcessingStage.cloning 10
          >> after_clone w repo_id analysis_id (Clone.cloned disk ds))
  unfolding after_clone ReadyRun Stepped
  start_completes disk ds =
      and_then Completed _ _ (begin_keeps ProcessingStage.cloning 10 (λ s h. h.has_steps.1.0)) (
        and_then Completed _ _ (finish_keeps ProcessingStage.cloning (λ s h. h.has_steps.1.0))
          (analyze_completes disk ds))

-- A run that succeeds on a clone ends with its repository completed and stamped with the time of the
-- run, when the repository, the analysis and its nine steps were there to begin with.
pub run_completes :
    (w : Worker) (repo_id analysis_id : ℕ) (disk : List DiskFile) (ds : List Dependency)
    (s s' : Shelf)
    → Ready repo_id analysis_id s
    → w.clone ≡ Clone.cloned disk ds
    → run_pipeline w repo_id analysis_id s ≡ (ok tt, s')
    → (r : Repository) × (get_repository repo_id s' ≡ some r)
      × (r.processing_stage ≡ ProcessingStage.completed)
      × (r.last_analyzed_at ≡ some w.now)
unfolding run_pipeline start_run Completed ReadyRun
run_completes w repo_id analysis_id disk ds s s' ready works h =
    let run : Action Shelf (Unit {0}) =
      begin w.now analysis_id ProcessingStage.cloning 10
      >> after_clone w repo_id analysis_id (Clone.cloned disk ds) in
    let same : run s ≡ (ok tt, s') =
      ap
        (λ c.
          (begin w.now analysis_id ProcessingStage.cloning 10
              >> after_clone w repo_id analysis_id c)
            s)
        (sym works)
      ∙ (ap (λ o. start_run w repo_id analysis_id o s) (sym ready.has_repo) ∙ h) in
    subst (Ends (Completed w repo_id analysis_id)) same
      ((start_completes w repo_id analysis_id disk ds).holds s ready)
