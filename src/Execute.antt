-- ===== src/Execute.antt =====
-- lib/execute.ts: `executeWorkflowRun`, with the writers of lib/data/runs.ts that it calls. The step
-- logs, which `onStep` writes without being awaited, are not modelled.
pub mod Idempotence
pub mod Samples
mod Tests
use b2b_app.Prelude.{
  ℕ, ◌+◌, String, Bool, true, false, not, ◌&&◌, ◌||◌, Option, none, some, List, [], ◌∷◌, ◌++◌,
  if◌then◌else◌, str_eq, get_or, Result, ok, err,
}
use b2b_app.Json.{Value, Js}
use b2b_app.Workflow.{WorkflowGraph}
use b2b_app.Graph.{GraphError, validate_graph}
use b2b_app.Schema.{safe_parse}
use b2b_app.Database.{Table, is_none}
use b2b_app.Runner.{Run, Options, run_workflow, run_duration_ms}
use b2b_app.Runner.Steps.{RunStatus, StepLogRecord, TriggerEvent, Trace, World, Failure}

pub data JobType : Type 0 where
  webhook manual schedule retry : JobType

-- WorkflowRunJobData
pub record Job (N : Type 0) : Type 0 where
  pub job_type : JobType
  pub organization_id : String
  pub workflow_id : String
  pub execution_id : String
  pub event : TriggerEvent N

-- The columns of a workflow that are read here; `graph` is the stored JSON.
pub record WorkflowRow (N : Type 0) : Type 0 where
  pub id : String
  pub organization_id : String
  pub status : String
  pub version : ℕ
  pub graph : Value N

pub record RunRow (N : Type 0) : Type 0 where
  pub id : String
  pub organization_id : String
  pub workflow_id : String
  pub workflow_version : ℕ
  pub execution_id : String
  pub status : String
  pub event_id : String
  pub event_payload : Value N
  pub trigger_type : JobType
  pub started_at : ℕ
  pub duration_ms : Option ℕ
  pub finished_at : Option ℕ

pub record DeadLetter (N : Type 0) : Type 0 where
  pub organization_id : String
  pub workflow_id : String
  pub run_id : String
  pub step_key : String
  pub step_type : String
  pub payload : Value N
  pub error : String
  pub attempts : ℕ
  pub source : String

pub record AuditEvent : Type 0 where
  pub organization_id : String
  pub action : String
  pub resource_type : String
  pub resource_id : String

-- ExecuteResult
pub data Outcome : Type 0 where
  already_ran : (run : Option (String × String)) → Outcome
  ignored : Outcome
  started : (run_id status : String) (duration_ms : ℕ) → Outcome
  graph_invalid : (run_id : Option String) → Outcome

abbrev pub is_manual : JobType → Bool
is_manual JobType.manual = true
is_manual _ = false

abbrev pub status_text : RunStatus → String
status_text RunStatus.succeeded = "succeeded"
status_text RunStatus.failed = "failed"
status_text RunStatus.filtered = "filtered"

abbrev pub last : {A : Type 0} → List A → Option A
last [] = none
last (x ∷ []) = some x
last (x ∷ y ∷ ys) = last (y ∷ ys)

-- What the database and the runner's world come to.
pub record Store (R D S : Type 0) : Type 0 where
  pub runs : R
  pub dead_letters : List D
  pub audit : List AuditEvent
  pub state : S

-- `parse` is the part of the graph's schema that zod checks field by field, and `explain` puts the
-- errors of a refused graph into the words of the dead letter.
module _ (js : Js) (world : World js.Number) (runs : Table (RunRow js.Number))
    (workflows : List (WorkflowRow js.Number))
    (parse : Value js.Number → Result (List String) (WorkflowGraph js.Number))
    (explain : List String → List GraphError → String) where
  open js use {Number}

  abbrev pub Db : Type 0
  Db = Store runs.State (DeadLetter Number) world.State

  abbrev pub find_workflow :
      String → String → List (WorkflowRow Number) → Option (WorkflowRow Number)
  find_workflow id org [] = none
  find_workflow id org (w ∷ ws) =
      if str_eq w.id id && str_eq w.organization_id org then some w else find_workflow id org ws

  unfoldable pub find_run_by_execution_id : String → String → runs.State → Option (RunRow Number)
  find_run_by_execution_id org execution_id s =
      elim (runs.find_first (λ r. str_eq r.execution_id execution_id) s) [
        | none ↦ none
        | some r ↦ if str_eq r.organization_id org then some r else none
      ]

  -- The row of `createRun`, with the id that the database draws.
  abbrev pub new_run : Job Number → WorkflowRow Number → String → String → ℕ → RunRow Number
  new_run job w id status now = record {
    id = id;
    organization_id = job.organization_id;
    workflow_id = job.workflow_id;
    workflow_version = w.version;
    execution_id = job.execution_id;
    status = status;
    event_id = job.event.id;
    event_payload = job.event.payload;
    trigger_type = job.job_type;
    started_at = now;
    duration_ms = none;
    finished_at = none;
  }

  abbrev pub is_run : String → String → RunRow Number → Bool
  is_run org id r = str_eq r.id id && str_eq r.organization_id org

  abbrev pub finish : String → ℕ → ℕ → RunRow Number → RunRow Number
  finish status duration finished r = record r {
    status = status;
    duration_ms = some duration;
    finished_at = some finished;
  }

  unfoldable pub update_run : String → String → String → ℕ → ℕ → runs.State → runs.State
  update_run org id status duration finished s =
      (runs.update_many (is_run org id) (finish status duration finished) s).1

  -- createDeadLetter, and the entry in the audit log.
  unfoldable pub record_run_failure : Job Number → String → String → ℕ → Db → Db
  record_run_failure job run_id error attempts db = record db {
    dead_letters =
        db.dead_letters
        ++ (record {
          organization_id = job.organization_id;
          workflow_id = job.workflow_id;
          run_id = run_id;
          step_key = "workflow";
          step_type = "workflow";
          payload = job.event.payload;
          error = error;
          attempts = attempts;
          source = "engine";
        })
          ∷ [];
    audit =
        db.audit
        ++ (record {
          organization_id = job.organization_id;
          action = "run.failed";
          resource_type = "workflow_run";
          resource_id = run_id;
        })
          ∷ [];
  }

  abbrev pub options : Options
  options = record { max_attempts = 3; backoff_base_ms = 500; has_dispatcher = true }

  abbrev pub trace_of : Job Number → Trace
  trace_of job = record {
    execution_id = job.execution_id;
    organization_id = job.organization_id;
    workflow_id = job.workflow_id;
    event_id = job.event.id;
  }

  -- result.steps[result.steps.length - 1]
  abbrev pub failed_error : Option (StepLogRecord Number) → String
  failed_error none = "Workflow failed."
  failed_error (some step) = get_or step.error_message "Workflow failed."

  abbrev pub failed_attempt : Option (StepLogRecord Number) → ℕ
  failed_attempt none = 1
  failed_attempt (some step) = step.attempt

  -- What follows `runWorkflow`. `now` is `startedAt`.
  unfoldable pub conclude :
      Job Number → String → ℕ → Run Number world.State → RunStatus → Db → Outcome × Db
  conclude job id now r RunStatus.failed db =
      let duration = run_duration_ms js world options job.event.payload (trace_of job) r in
      (
        started id "failed" duration,
        record_run_failure job id (failed_error (last r.steps)) (failed_attempt (last r.steps))
            (record db {
              runs = update_run job.organization_id id "failed" duration (now + duration) db.runs;
            }),
      )
  conclude job id now r status db =
      let duration = run_duration_ms js world options job.event.payload (trace_of job) r in
      (
        started id (status_text status) duration,
        record db {
          runs =
              update_run job.organization_id id (status_text status) duration (now + duration)
                db.runs;
          audit =
              db.audit
              ++ (record {
                organization_id = job.organization_id;
                action = "workflow.executed";
                resource_type = "workflow";
                resource_id = job.workflow_id;
              })
                ∷ [];
        },
      )

  -- An exception of the runner leaves the row as it was created.
  unfoldable pub settle_run :
      Job Number
      → String
      → ℕ
      → Option (Option Failure × Run Number world.State)
      → Db
      → Option (Result Failure Outcome × Db)
  settle_run job id now none db = none
  settle_run job id now (some (some failure, r)) db =
      some (err failure, record db { state = r.state })
  settle_run job id now (some (none, r)) db =
      let (outcome, db') = conclude job id now r r.status (record db { state = r.state }) in
      some (ok outcome, db')

  -- The run of a graph that parsed; `created` is the answer of `createRun`.
  unfoldable pub run_created :
      Job Number
      → WorkflowGraph Number
      → String
      → ℕ
      → Option runs.State
      → Db
      → Option (Result Failure Outcome × Db)
  run_created job g id now none db = some (ok (already_ran none), db)
  run_created job g id now (some created) db =
      settle_run job id now
        (run_workflow js world options job.event.payload (trace_of job) g db.state)
        (record db { runs = created })

  unfoldable pub refuse_graph : Job Number → String → String → Option runs.State → Db → Outcome × Db
  refuse_graph job id error none db = (graph_invalid none, db)
  refuse_graph job id error (some created) db =
      (graph_invalid (some id), record_run_failure job id error 0 (record db { runs = created }))

  unfoldable pub run_parsed :
      Job Number
      → WorkflowRow Number
      → String
      → ℕ
      → Option (Result String (WorkflowGraph Number))
      → Db
      → Option (Result Failure Outcome × Db)
  run_parsed job w id now none db = none
  run_parsed job w id now (some (err error)) db =
      let (outcome, db') =
        refuse_graph job id error (runs.create (new_run job w id "failed" now) db.runs) db in
      some (ok outcome, db')
  run_parsed job w id now (some (ok g)) db =
      run_created job g id now (runs.create (new_run job w id "started" now) db.runs) db

  unfoldable pub run_workflow_row :
      Job Number
      → Option (WorkflowRow Number)
      → String
      → ℕ
      → Db
      → Option (Result Failure Outcome × Db)
  run_workflow_row job none id now db = some (ok ignored, db)
  run_workflow_row job (some w) id now db =
      if is_manual job.job_type || str_eq w.status "active"
      then run_parsed job w id now (safe_parse parse explain w.graph) db
      else some (ok ignored, db)

  unfoldable pub unless_found :
      Option (RunRow Number) → Job Number → String → ℕ → Db → Option (Result Failure Outcome × Db)
  unless_found (some r) job id now db = some (ok (already_ran (some (r.id, r.status))), db)
  unless_found none job id now db =
      run_workflow_row job (find_workflow job.workflow_id job.organization_id workflows) id now db

  -- `id` is the id that the database draws for the run, and `now` the time. `none` stands for a lack
  -- of fuel in the sort.
  unfoldable pub execute_workflow_run :
      Job Number → String → ℕ → Db → Option (Result Failure Outcome × Db)
  execute_workflow_run job id now db =
      unless_found (find_run_by_execution_id job.organization_id job.execution_id db.runs) job id
        now db
