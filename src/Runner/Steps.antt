-- ===== src/Runner/Steps.antt =====
-- lib/dag/runner.ts: the records of a run, and what the engine takes from outside.
use b2b_app.Prelude.{ℕ, ◌≡◌, ◌<◌, String, Bool, Option, none, List, get_or}
use b2b_app.Json.{Value, undefined, obj, Fields, end, field}
use b2b_app.JsonPath.{Thrown}
use b2b_app.Workflow.{WorkflowNode, NodeConfig}
use b2b_app.Graph.{GraphError}

pub data StepStatus : Type 0 where
  succeeded failed skipped : StepStatus

pub data RunStatus : Type 0 where
  succeeded failed filtered : RunStatus

pub data StepType : Type 0 where
  trigger filter transform action : StepType

-- An absent `input` or `output` is the value `undefined`; an absent `httpStatus` is `none`.
pub record StepLogRecord (N : Type 0) : Type 0 where
  pub step_key : String
  pub step_type : StepType
  pub label : String
  pub status : StepStatus
  pub attempt : ℕ
  pub input : Value N
  pub output : Value N
  pub error_message : Option String
  pub http_status : Option ℕ
  pub duration_ms : ℕ

pub record DispatchResult (N : Type 0) : Type 0 where
  pub http_status : Option ℕ
  pub is_ok : Bool
  pub retryable : Bool
  pub output : Value N
  pub error_message : Option String

-- What an awaited call of the dispatcher comes to. `other_error` is any other exception.
pub data Reply (N : Type 0) : Type 0 where
  replied : DispatchResult N → Reply N
  retryable_error permanent_error other_error : (message : String) → Reply N

pub record TriggerEvent (N : Type 0) : Type 0 where
  pub id : String
  pub occurred_at_ms : ℕ
  pub payload : Value N

pub record Trace : Type 0 where
  pub execution_id : String
  pub organization_id : String
  pub workflow_id : String
  pub event_id : String

pub record RunContext (N : Type 0) : Type 0 where
  pub payload : Value N
  pub vars : Fields N
  pub trace : Trace

-- What runs outside of the engine.
pub record World (N : Type 0) : Type 1 where
  pub State : Type 0
  pub dispatch : WorkflowNode N → RunContext N → ℕ → State → Reply N × State
  -- Math.floor(Math.random() * full)
  pub random_below : ℕ → State → ℕ × State
  pub random_below-lt : (full : ℕ) (s : State) → 0 < full → (random_below full s).0 < full
  pub random_below-zero : (s : State) → (random_below 0 s).0 ≡ 0
  pub sleep : ℕ → State → State
  -- The reading of the clock at its n-th use.
  pub clock : ℕ → ℕ

pub data Failure : Type 0 where
  graph_error : List GraphError → Failure
  thrown : Thrown → Failure
  no_dispatcher : Failure

-- NODE_LABELS
abbrev pub node_label : StepType → String
node_label trigger = "Trigger"
node_label filter = "Filter"
node_label transform = "Transform"
node_label action = "Action"

module _ {N : Type 0} where
  abbrev pub type_of : NodeConfig N → StepType
  type_of (NodeConfig.trigger c) = trigger
  type_of (NodeConfig.filter c) = filter
  type_of (NodeConfig.transform c) = transform
  type_of (NodeConfig.action c) = action

  -- makeStepRecord with no extras.
  abbrev pub make_step : WorkflowNode N → StepStatus → ℕ → StepLogRecord N
  make_step node status attempt = record {
    step_key = node.key;
    step_type = type_of node.config;
    label = get_or node.label (node_label (type_of node.config));
    status = status;
    attempt = attempt;
    input = undefined;
    output = undefined;
    error_message = none;
    http_status = none;
    duration_ms = 0;
  }

  -- contextWithVars
  abbrev pub context_with_vars : RunContext N → Value N
  context_with_vars c = obj (field "payload" c.payload (field "vars" (obj c.vars) end))
