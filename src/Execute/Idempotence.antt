-- ===== src/Execute/Idempotence.antt =====
-- A job that is delivered again.
use mathlib.Core.Path.{subst}
use b2b_app.Prelude.{
  ℕ, ◌≡◌, ◌≢◌, ◌∙◌, ◌⊎◌, inl, inr, refl, ap, String, Bool, true, ◌||◌, Option, none, some, List, [],
  ◌∷◌, ◌++◌, map, if◌then◌else◌, str_eq, Result, ok, err, any, Bool-cases, arith, eq_refl,
}
use b2b_app.Json.{Value, Js}
use b2b_app.Workflow.{WorkflowGraph}
use b2b_app.Graph.{GraphError}
use b2b_app.Database.{Table}
use b2b_app.Runner.{Run}
use b2b_app.Runner.Steps.{RunStatus, World, Failure}
use b2b_app.Schema.{safe_parse, check_fields_total}
use b2b_app.Execute.{
  Job, WorkflowRow, RunRow, Outcome, Db, is_manual, find_workflow, new_run, update_run, is_run,
  finish, record_run_failure, already_ran, ignored, graph_invalid, conclude, settle_run,
  run_created, refuse_graph, run_parsed, run_workflow_row, unless_found, execute_workflow_run,
}

any-update :
    {A : Type 0} (p w : A → Bool) (f : A → A) (xs : List A)
    → ((a : A) → p (f a) ≡ p a)
    → any p (map (λ a. if w a then f a else a) xs) ≡ any p xs
any-update p w f [] same = refl
any-update p w f (x ∷ xs) same = elim (Bool-cases (w x)) [
  | inl e ↦ rw (e, same x, any-update p w f xs same) refl
  | inr e ↦ rw (e, any-update p w f xs same) refl
]

any-append_last :
    {A : Type 0} (p : A → Bool) (xs : List A) (x : A) → p x ≡ true → any p (xs ++ x ∷ []) ≡ true
any-append_last p [] x h = ground arith
any-append_last p (y ∷ ys) x h = ground (arith, any-append_last p ys x h)

module _ (js : Js) (world : World js.Number) (runs : Table (RunRow js.Number))
    (workflows : List (WorkflowRow js.Number))
    (parse : Value js.Number → Result (List String) (WorkflowGraph js.Number))
    (explain : List String → List GraphError → String) where
  abbrev D : Type 0
  D = Db js world runs workflows parse explain

  abbrev same_execution : String → RunRow js.Number → Bool
  same_execution e r = str_eq r.execution_id e

  abbrev is_recorded : Job js.Number → D → Bool
  is_recorded job db = any (same_execution job.execution_id) (runs.rows db.runs)

  -- The columns of a created row are those of the job.
  module _ (job : Job js.Number) (id : String) (now : ℕ) (db : D) where
    abbrev Unchanged : Option (Result Failure Outcome × D) → Type 0
    Unchanged x = (o : Outcome) × (x ≡ some (ok o, db))

    abbrev Recorded : Option (Result Failure Outcome × D) → Type 0
    Recorded none = Unit
    Recorded (some (r, db')) = (db' ≡ db) ⊎ (is_recorded job db' ≡ true)

    module _
        (refused : (r : RunRow js.Number)
          → r.execution_id ≡ job.execution_id
          → runs.create r db.runs ≡ none) where
      run_parsed_refused :
          (w : WorkflowRow js.Number) (x : Option (Result String (WorkflowGraph js.Number)))
          → x ≢ none
          → Unchanged (run_parsed js world runs workflows parse explain job w id now x db)
      unfolding run_parsed refuse_graph run_created
      run_parsed_refused w none total = elim (total refl) [ ]
      run_parsed_refused w (some (err error)) total =
          rw (refused (new_run js world runs workflows parse explain job w id "failed" now) refl)
            (graph_invalid none, refl)
      run_parsed_refused w (some (ok g)) total =
          rw (refused (new_run js world runs workflows parse explain job w id "started" now) refl)
            (already_ran none, refl)

      run_workflow_row_refused :
          (o : Option (WorkflowRow js.Number))
          → Unchanged (run_workflow_row js world runs workflows parse explain job o id now db)
      unfolding run_workflow_row safe_parse
      run_workflow_row_refused none = (ignored, refl)
      run_workflow_row_refused (some w) =
          elim (Bool-cases (is_manual job.job_type || str_eq w.status "active")) [
            | inl runs_it ↦
                rw runs_it
                  (run_parsed_refused w _ (check_fields_total parse explain (parse w.graph)))
            | inr idle ↦ rw idle (ignored, refl)
          ]

      unless_found_refused :
          (o : Option (RunRow js.Number))
          → Unchanged (unless_found js world runs workflows parse explain o job id now db)
      unfolding unless_found
      unless_found_refused (some r) = (already_ran (some (r.id, r.status)), refl)
      unless_found_refused none = run_workflow_row_refused (
          find_workflow js world runs workflows parse explain job.workflow_id job.organization_id
            workflows)

    recorded_update :
        (status : String) (duration finished : ℕ) (mid : D)
        → is_recorded job mid ≡ true
        → any (same_execution job.execution_id) (
            runs.rows (
              update_run js world runs workflows parse explain job.organization_id id status
                duration finished mid.runs))
          ≡ true
    unfolding update_run
    recorded_update status duration finished mid h =
        let w = is_run js world runs workflows parse explain job.organization_id id in
        let f = finish js world runs workflows parse explain status duration finished in
        ap (any (same_execution job.execution_id)) (runs.rows-update_many w f mid.runs)
        ∙ any-update (same_execution job.execution_id) w f (runs.rows mid.runs) (λ r. refl)
        ∙ h

    conclude-Recorded :
        (r : Run js.Number world.State) (status : RunStatus) (mid : D)
        → is_recorded job mid ≡ true
        → is_recorded job (conclude js world runs workflows parse explain job id now r status mid).1
          ≡ true
    unfolding conclude update_run record_run_failure
    conclude-Recorded r RunStatus.succeeded mid h = recorded_update "succeeded" _ _ mid h
    conclude-Recorded r RunStatus.failed mid h = recorded_update "failed" _ _ mid h
    conclude-Recorded r RunStatus.filtered mid h = recorded_update "filtered" _ _ mid h

    settle_run-Recorded :
        (x : Option (Option Failure × Run js.Number world.State)) (mid : D)
        → is_recorded job mid ≡ true
        → Recorded (settle_run js world runs workflows parse explain job id now x mid)
    unfolding settle_run
    settle_run-Recorded none mid h = tt
    settle_run-Recorded (some (some failure, r)) mid h = inr h
    settle_run-Recorded (some (none, r)) mid h = inr (conclude-Recorded r r.status _ h)

    module _ (status : String) (w : WorkflowRow js.Number) (created : runs.State)
        (done : runs.create
            (new_run js world runs workflows parse explain job w id status now)
            db.runs
          ≡ some created) where
      created_recorded : any (same_execution job.execution_id) (runs.rows created) ≡ true
      created_recorded =
          ap (any (same_execution job.execution_id)) (runs.rows-create _ db.runs created done)
          ∙ any-append_last (same_execution job.execution_id) (runs.rows db.runs) _
              (eq_refl job.execution_id)

    run_created-Recorded :
        (g : WorkflowGraph js.Number) (w : WorkflowRow js.Number) (o : Option runs.State)
        → runs.create (new_run js world runs workflows parse explain job w id "started" now) db.runs
          ≡ o
        → Recorded (run_created js world runs workflows parse explain job g id now o db)
    unfolding run_created
    run_created-Recorded g w none done = inl refl
    run_created-Recorded g w (some created) done =
        settle_run-Recorded _ _ (created_recorded "started" w created done)

    refuse_graph-Recorded :
        (w : WorkflowRow js.Number) (error : String) (o : Option runs.State)
        → runs.create (new_run js world runs workflows parse explain job w id "failed" now) db.runs
          ≡ o
        → Recorded (
            some (
              ok (refuse_graph js world runs workflows parse explain job id error o db).0,
              (refuse_graph js world runs workflows parse explain job id error o db).1,
            ))
    unfolding refuse_graph record_run_failure
    refuse_graph-Recorded w error none done = inl refl
    refuse_graph-Recorded w error (some created) done =
        inr (created_recorded "failed" w created done)

    run_parsed-Recorded :
        (w : WorkflowRow js.Number) (x : Option (Result String (WorkflowGraph js.Number)))
        → Recorded (run_parsed js world runs workflows parse explain job w id now x db)
    unfolding run_parsed
    run_parsed-Recorded w none = tt
    run_parsed-Recorded w (some (err error)) = refuse_graph-Recorded w error _ refl
    run_parsed-Recorded w (some (ok g)) = run_created-Recorded g w _ refl

    run_workflow_row-Recorded :
        (o : Option (WorkflowRow js.Number))
        → Recorded (run_workflow_row js world runs workflows parse explain job o id now db)
    unfolding run_workflow_row
    run_workflow_row-Recorded none = inl refl
    run_workflow_row-Recorded (some w) =
        elim (Bool-cases (is_manual job.job_type || str_eq w.status "active")) [
          | inl runs_it ↦ rw runs_it (run_parsed-Recorded w _)
          | inr idle ↦ rw idle (inl refl)
        ]

    unless_found-Recorded :
        (o : Option (RunRow js.Number))
        → Recorded (unless_found js world runs workflows parse explain o job id now db)
    unfolding unless_found
    unless_found-Recorded (some r) = inl refl
    unless_found-Recorded none = run_workflow_row-Recorded _

    execute-Recorded :
        (x : Result Failure Outcome) (db' : D)
        → execute_workflow_run js world runs workflows parse explain job id now db ≡ some (x, db')
        → (db' ≡ db) ⊎ (is_recorded job db' ≡ true)
    unfolding execute_workflow_run
    execute-Recorded x db' e = subst Recorded e (unless_found-Recorded _)

  -- A job that is delivered twice is carried out at most once. Where the database refuses a second
  -- row with an execution id, either the first delivery changes nothing at all, or the second
  -- returns without an exception and changes nothing: no row, no dead letter, no entry in the audit
  -- log, and nothing outside. This holds also where the first delivery ended in an exception.
  pub execute_workflow_run_twice :
      ((r : RunRow js.Number) (s : runs.State)
        → any (same_execution r.execution_id) (runs.rows s) ≡ true
        → runs.create r s ≡ none)
      → (job : Job js.Number) (id id' : String) (now later : ℕ) (db db' : D)
      → (x : Result Failure Outcome)
      → execute_workflow_run js world runs workflows parse explain job id now db ≡ some (x, db')
      → (db' ≡ db)
        ⊎ ((o : Outcome) × (execute_workflow_run js world runs workflows parse explain job id' later
                db'
              ≡ some (ok o, db')))
  unfolding execute_workflow_run
  execute_workflow_run_twice unique job id id' now later db db' x first =
      elim (execute-Recorded job id now db x db' first) [
        | inl same ↦ inl same
        | inr recorded ↦ inr (
            unless_found_refused job id' later db'
              (λ r keyed. unique r db'.runs (rw keyed recorded)) _)
      ]
