-- ===== src/Runner.antt =====
-- lib/dag/runner.ts: `runWorkflow` and `summarizeRun`. The parts of an action and of a filter or a
-- transform stand in the modules below.
pub mod Steps
pub mod Conditions
pub mod Attempts
mod Logs
pub mod Pipeline
pub mod Broken
pub mod Retries
mod Tests
use b2b_app.Prelude.{
  ℕ, zero, suc, ◌+◌, ◌-◌, String, Bool, true, false, not, Option, none, some, List, [], ◌∷◌, ◌++◌,
  if◌then◌else◌, str_eq, length, keep, Result, ok, err,
}
use b2b_app.Json.{Value, undefined, bool, obj, Fields, end, field, Js, set_own, is_cloneable}
use b2b_app.JsonPath.{Thrown, clone_error}
use b2b_app.Workflow.{WorkflowNode, WorkflowGraph, NodeConfig}
use b2b_app.Graph.{GraphError, Sorted, order, invalid, topo_sort}
use Steps.{
  StepStatus, RunStatus, StepLogRecord, TriggerEvent, Trace, RunContext, World, Failure,
  graph_error, thrown, no_dispatcher, make_step, context_with_vars,
}
use Conditions.{evaluate_conditions, apply_transform}
use Attempts.{ActionOutcome, execute_action_with_retry}

abbrev pub is_failed : StepStatus → Bool
is_failed StepStatus.failed = true
is_failed _ = false

-- The variables of `runWorkflow`, the world, and the uses of the clock so far.
pub record Run (N S : Type 0) : Type 0 where
  pub vars : Fields N
  pub steps : List (StepLogRecord N)
  pub status : RunStatus
  pub broken : Bool
  pub state : S
  pub ticks : ℕ

pub record Options : Type 0 where
  pub max_attempts : ℕ
  pub backoff_base_ms : ℕ
  pub has_dispatcher : Bool

module _ (js : Js) (world : World js.Number) (options : Options) (payload : Value js.Number)
    (trace : Trace) where
  open js use {Number}
  open world use {State, clock}

  abbrev pub context_of : Fields Number → RunContext Number
  context_of vars = record { payload = payload; vars = vars; trace = trace }

  abbrev pub root_of : Fields Number → Value Number
  root_of vars = context_with_vars (context_of vars)

  -- emitStep
  abbrev pub emit : StepLogRecord Number → Run Number State → Run Number State
  emit step r = record r { steps = r.steps ++ step ∷ [] }

  abbrev pub elapsed : Run Number State → ℕ
  elapsed r = clock (r.ticks + 1) - clock r.ticks

  -- The record of a step that takes a snapshot, or the exception of `structuredClone`.
  abbrev pub log_with_snapshot :
      Fields Number → StepLogRecord Number → Run Number State → Option Failure × Run Number State
  log_with_snapshot vars step r =
      if is_cloneable (root_of vars)
      then (none, emit step (record r { ticks = r.ticks + 2 }))
      else (some (thrown clone_error), r)

  unfoldable pub run_trigger :
      WorkflowNode Number → Run Number State → Option Failure × Run Number State
  run_trigger node r =
      log_with_snapshot r.vars
        (record (make_step node StepStatus.succeeded 1) {
          input = payload;
          output = root_of r.vars;
          duration_ms = elapsed r;
        })
        r

  abbrev pub filter_step : WorkflowNode Number → Run Number State → Bool → StepLogRecord Number
  filter_step node r passed =
      let output = obj (field "passed" (bool passed) end) in
      if passed
      then record (make_step node StepStatus.succeeded 1) {
        input = root_of r.vars;
        output = output;
        duration_ms = elapsed r;
      }
      else record (make_step node StepStatus.failed 1) {
        input = root_of r.vars;
        output = output;
        error_message = some "Filter conditions did not match; downstream steps skipped.";
        duration_ms = elapsed r;
      }

  unfoldable pub run_filter :
      WorkflowNode Number
      → Result Thrown Bool
      → Run Number State
      → Option Failure × Run Number State
  run_filter node (err e) r = (some (thrown e), r)
  run_filter node (ok true) r = log_with_snapshot r.vars (filter_step node r true) r
  run_filter node (ok false) r =
      log_with_snapshot r.vars (filter_step node r false)
        (record r { status = RunStatus.filtered; broken = true })

  -- The variable is set before the snapshot that the record takes as its input.
  unfoldable pub run_transform :
      WorkflowNode Number
      → Result Thrown (Value Number)
      → Run Number State
      → Option Failure × Run Number State
  run_transform node (err e) r = (some (thrown e), r)
  run_transform node (ok output) r =
      let vars' = set_own node.key output r.vars in
      log_with_snapshot vars'
        (record (make_step node StepStatus.succeeded 1) {
          input = root_of vars';
          output = output;
          duration_ms = elapsed r;
        })
        (record r { vars = vars' })

  abbrev pub settle_action :
      WorkflowNode Number → Run Number State → ActionOutcome Number × State × ℕ → Run Number State
  settle_action node r (outcome, s, t) =
      let r' =
        emit outcome.step
          (record r { vars = set_own node.key outcome.output r.vars; state = s; ticks = t }) in
      if is_failed outcome.status
      then record r' { status = RunStatus.failed; broken = true }
      else r'

  -- An exception leaves what the dispatcher and the clock came to.
  abbrev pub conclude_action :
      WorkflowNode Number
      → Run Number State
      → Result Thrown (ActionOutcome Number)
      → State
      → ℕ
      → Option Failure × Run Number State
  conclude_action node r (err e) s t = (some (thrown e), record r { state = s; ticks = t })
  conclude_action node r (ok outcome) s t = (none, settle_action node r (outcome, s, t))

  unfoldable pub run_action :
      WorkflowNode Number → Run Number State → Option Failure × Run Number State
  run_action node r =
      let (tried, s, t) =
        execute_action_with_retry js world node (context_of r.vars) options.max_attempts
          options.backoff_base_ms r.state (r.ticks + 1) in
      if options.has_dispatcher then conclude_action node r tried s t else (some no_dispatcher, r)

  -- The switch over the node's type.
  unfoldable pub run_config :
      NodeConfig Number → WorkflowNode Number → Run Number State → Option Failure × Run Number State
  run_config (NodeConfig.trigger c) node r = run_trigger node r
  run_config (NodeConfig.filter c) node r =
      run_filter node (evaluate_conditions js c (root_of r.vars)) r
  run_config (NodeConfig.transform c) node r =
      run_transform node (apply_transform js c (root_of r.vars)) r
  run_config (NodeConfig.action c) node r = run_action node r

  -- The test of `pipelineBroken`.
  abbrev pub run_when_broken :
      Bool → WorkflowNode Number → Run Number State → Option Failure × Run Number State
  run_when_broken true node r = (none, emit (make_step node StepStatus.skipped 1) r)
  run_when_broken false node r = run_config node.config node r

  unfoldable pub run_node :
      WorkflowNode Number → Run Number State → Option Failure × Run Number State
  run_node node r = run_when_broken r.broken node r

  -- The `for` loop. An exception ends it, and leaves what was emitted before.
  unfoldable pub run_nodes :
      List (WorkflowNode Number) → Run Number State → Option Failure × Run Number State
  run_nodes [] r = (none, r)
  run_nodes (node ∷ nodes) r =
      let (failure, r') = run_node node r in
      elim failure [ some f ↦ (some f, r') | none ↦ run_nodes nodes r' ]

  abbrev pub begin : State → Run Number State
  begin s = record {
    vars = end;
    steps = [];
    status = RunStatus.succeeded;
    broken = false;
    state = s;
    ticks = 1;
  }

  -- What follows the sort. `none` stands for a sort that ran out of fuel.
  unfoldable pub run_sorted :
      Option (Sorted Number) → State → Option (Option Failure × Run Number State)
  run_sorted none s = none
  run_sorted (some (invalid errors)) s = some (some (graph_error errors), begin s)
  run_sorted (some (order nodes)) s = some (run_nodes nodes (begin s))

  unfoldable pub run_workflow :
      WorkflowGraph Number → State → Option (Option Failure × Run Number State)
  run_workflow graph s = run_sorted (topo_sort graph) s

  -- durationMs, of a run that ended here.
  unfoldable pub run_duration_ms : Run Number State → ℕ
  run_duration_ms r = clock r.ticks - clock 0

pub record Summary : Type 0 where
  pub status : RunStatus
  pub total_steps : ℕ
  pub failed_steps : ℕ
  pub duration_ms : ℕ

unfoldable pub summarize_run : {N S : Type 0} → Run N S → ℕ → Summary
summarize_run {N} r duration = record {
  status = r.status;
  total_steps = length r.steps;
  failed_steps = length (keep (λ (s : StepLogRecord N). is_failed s.status) r.steps);
  duration_ms = duration;
}
