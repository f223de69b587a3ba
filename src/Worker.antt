-- ===== src/Worker.antt =====
-- lib/workers.ts: `processJob`, which carries out what the queue hands to a worker.
pub mod Timed
mod Tests
use Prim.Native.String
use b2b_app.Prelude.{
  ℕ, ◌+◌, String, Bool, true, false, ◌&&◌, not, Option, none, some, List, [], ◌∷◌, if◌then◌else◌,
  str_eq, Result, ok, err, get_or,
}
use b2b_app.Prelude.Texts.{◌+++◌, after_prefix}
use b2b_app.Json.{Value, obj, str, num, end, field, Js}
use b2b_app.Workflow.{WorkflowGraph}
use b2b_app.Graph.{GraphError}
use b2b_app.Database.{Table}
use b2b_app.Runner.Steps.{World, Failure}
use b2b_app.Execute.{Job, JobType, WorkflowRow, RunRow, Outcome, Db, execute_workflow_run}
use b2b_app.Schedules.{ScheduleJobData, parse_schedule_id}

-- A job of the queue. Its name begins with "schedule:" where a job scheduler made it, with the data
-- of the scheduler's registration; the other jobs are those of `enqueueWorkflowRun`.
pub data QueueJob (N : Type 0) : Type 0 where
  timed : (name : String) (payload : Option ScheduleJobData) → QueueJob N
  enqueued : Job N → QueueJob N

pub data JobOutcome : Type 0 where
  unknown_schedule : JobOutcome
  executed : Outcome → JobOutcome

-- data && data.organizationId && data.workflowId
abbrev pub has_target : ScheduleJobData → Bool
has_target d = not (str_eq d.organization_id "") && not (str_eq d.workflow_id "")

-- name.replace(/^schedule:/, "")
abbrev pub behind_name : String → String
behind_name name = get_or (after_prefix "schedule:" name) name

unfoldable pub parse_name : String → Option ScheduleJobData → Option ScheduleJobData
parse_name name none = parse_schedule_id (behind_name name)
parse_name name (some d) =
    if has_target d
    then parse_schedule_id
        (d.organization_id +++ (":" +++ (d.workflow_id +++ (":" +++ d.trigger_key))))
    else parse_schedule_id (behind_name name)

module _ (js : Js) (world : World js.Number) (runs : Table (RunRow js.Number))
    (workflows : List (WorkflowRow js.Number))
    (parse : Value js.Number → Result (List String) (WorkflowGraph js.Number))
    (explain : List String → List GraphError → String)
    (derive : String → String → String → ℕ → String) where
  open js use {Number, of_nat}

  abbrev pub S : Type 0
  S = Db js world runs workflows parse explain

  -- The job of a schedule that was read; `event_id` is drawn, and `derive` is `deriveExecutionId`.
  abbrev pub schedule_job : ScheduleJobData → String → ℕ → Job Number
  schedule_job d event_id now = record {
    job_type = JobType.schedule;
    organization_id = d.organization_id;
    workflow_id = d.workflow_id;
    execution_id = derive d.organization_id d.workflow_id event_id now;
    event = record {
      id = event_id;
      occurred_at_ms = now;
      payload = obj (
          field "schedule"
            (obj
              (field "triggerKey" (str d.trigger_key) (field "firedAtMs" (num (of_nat now)) end)))
            end);
    };
  }

  abbrev pub as_job_outcome :
      Option (Result Failure Outcome × S) → Option (Result Failure JobOutcome × S)
  as_job_outcome none = none
  as_job_outcome (some (ok o, db)) = some (ok (executed o), db)
  as_job_outcome (some (err e, db)) = some (err e, db)

  unfoldable pub run_schedule :
      Option ScheduleJobData → String → String → ℕ → S → Option (Result Failure JobOutcome × S)
  run_schedule none event_id id now db = some (ok unknown_schedule, db)
  run_schedule (some d) event_id id now db = as_job_outcome (
      execute_workflow_run js world runs workflows parse explain (schedule_job d event_id now) id
        now db)

  -- `id` is the id that the database draws for the run, and `now` the time.
  unfoldable pub process_job :
      QueueJob Number → String → String → ℕ → S → Option (Result Failure JobOutcome × S)
  process_job (timed name payload) event_id id now db =
      run_schedule (parse_name name payload) event_id id now db
  process_job (enqueued job) event_id id now db =
      as_job_outcome (execute_workflow_run js world runs workflows parse explain job id now db)
