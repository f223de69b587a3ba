-- ===== src/Runner/Tests.antt =====
-- Runs of a small workflow with a dispatcher that fails at times.
use b2b_app.Prelude.{
  ℕ, ◌+◌, ◌*◌, ◌^◌, ◌-◌, ◌≤◌, ◌≡◌, ◌≢◌, ◌⊎◌, refl, String, true, false, none, some, List, [], ◌∷◌,
  ◌++◌, map, arith, ok, ltb, leb, str_eq, if◌then◌else◌,
}
use b2b_app.Json.{null, end, Js, is_cloneable, items_cloneable, fields_cloneable}
use b2b_app.Workflow.{WorkflowNode, WorkflowEdge, WorkflowGraph, trigger, action, app_event, slack}
use b2b_app.Graph.{order, topo_sort, program}
use b2b_app.Runner.{
  Run, Options, run_workflow, run_sorted, run_nodes, run_node, run_config, run_trigger, run_action,
  begin, summarize_run,
}
use b2b_app.Runner.Steps.{
  StepStatus, RunStatus, StepLogRecord, DispatchResult, Reply, replied, retryable_error,
  permanent_error, Trace, RunContext, World, make_step,
}
use b2b_app.Runner.Attempts.{
  ActionOutcome, settled, attempts_from, execute_action_with_retry, jittered_backoff_ms, success,
}
use b2b_app.Runner.Retries.{execute-counts, observed}
use b2b_app.Runner.Pipeline.{
  IsPipelineLog, statuses, run_workflow-keys, run_workflow-IsPipelineLog, summarize_run-counts,
}
use b2b_app.Runner.Broken.{run_nodes_broken}

-- Numbers that are whole, and objects that inherit nothing.
abbrev plain : Js
plain = record {
  Number = ℕ;
  lt = ltb;
  le = leb;
  eq = λ m n. if leb m n then leb n m else false;
  to_text = λ v. some "";
  includes = str_eq;
  starts_with = str_eq;
  ends_with = str_eq;
  regex_test = λ p s. none;
  inherited = λ k. none;
  of_nat = λ n. n;
}

abbrev fine : DispatchResult ℕ
fine = record {
  http_status = some 200;
  is_ok = true;
  retryable = false;
  output = null;
  error_message = none;
}

-- The first attempt is turned away, and a node "bad" is refused for good.
abbrev answer : String → ℕ → Reply ℕ
answer key attempt =
    if str_eq key "bad"
    then permanent_error "refused"
    else if leb attempt 1
    then retryable_error "busy"
    else replied fine

abbrev flaky : World ℕ
flaky = record {
  State = ℕ;
  dispatch = λ node context attempt s. (answer node.key attempt, s + 1);
  random_below = λ full s. (0, s);
  random_below-lt = λ full s h. h;
  random_below-zero = λ s. refl;
  sleep = λ ms s. s;
  clock = λ n. 10 * n;
}

abbrev start : WorkflowNode ℕ
start = record { key = "start"; label = none; config = trigger (app_event "order.created") }

abbrev send : String → WorkflowNode ℕ
send key = record {
  key = key;
  label = none;
  config = action (slack (record { credential_id = "c"; text = "hi"; channel = none }));
}

abbrev edge : String → String → WorkflowEdge
edge a b = record { source = a; target = b }

abbrev graph : WorkflowGraph ℕ
graph = record {
  nodes = start ∷ send "late" ∷ send "good" ∷ send "bad" ∷ [];
  edges = edge "start" "good" ∷ edge "good" "bad" ∷ edge "bad" "late" ∷ [];
}

abbrev options : Options
options = record { max_attempts = 3; backoff_base_ms = 100; has_dispatcher = true }

abbrev trace : Trace
trace = record { execution_id = "e"; organization_id = "o"; workflow_id = "w"; event_id = "v" }

abbrev sorted : List (WorkflowNode ℕ)
sorted = start ∷ send "good" ∷ send "bad" ∷ send "late" ∷ []

abbrev final : Run ℕ ℕ
final = (run_nodes plain flaky options null trace sorted (begin plain flaky options null trace 0)).1

-- Two calls for the good node, one for the bad one, and none for the last.
final_calls : final.state ≡ 3
unfolding run_nodes run_node run_config run_trigger run_action execute_action_with_retry
    attempts_from settled jittered_backoff_ms is_cloneable items_cloneable fields_cloneable
final_calls = refl

final_done : run_workflow plain flaky options null trace graph 0 ≡ some (none, final)
unfolding program run_workflow run_sorted run_nodes run_node run_config run_trigger run_action
    execute_action_with_retry attempts_from settled jittered_backoff_ms is_cloneable items_cloneable
    fields_cloneable
final_done = refl

run_workflow-keys_example :
    (ns : List (WorkflowNode ℕ)) × (topo_sort graph ≡ some (order ns))
    × (map (λ (x : StepLogRecord ℕ). x.step_key) final.steps ≡ map (λ n. n.key) ns)
run_workflow-keys_example =
    run_workflow-keys plain flaky options null trace graph 0 final final_done

run_workflow-IsPipelineLog_example : IsPipelineLog final.status (statuses final)
run_workflow-IsPipelineLog_example =
    run_workflow-IsPipelineLog plain flaky options null trace graph 0 final final_done

summarize_run-counts_example :
    ((final.status ≡ RunStatus.succeeded) × ((summarize_run final 7).failed_steps ≡ 0))
    ⊎ ((final.status ≢ RunStatus.succeeded) × ((summarize_run final 7).failed_steps ≡ 1))
summarize_run-counts_example =
    summarize_run-counts plain flaky options null trace graph 0 final final_done 7

abbrev broken_run : Run ℕ ℕ
broken_run = record (begin plain flaky options null trace 5) {
  status = RunStatus.failed;
  broken = true;
}

run_nodes_broken_example :
    run_nodes plain flaky options null trace (send "good" ∷ []) broken_run ≡ (
      none,
      record broken_run {
        steps = [] ++ map (λ node. make_step node StepStatus.skipped 1) (send "good" ∷ []);
      },
    )
run_nodes_broken_example =
    run_nodes_broken plain flaky options null trace (send "good" ∷ []) broken_run refl

abbrev context : RunContext ℕ
context = record { payload = null; vars = end; trace = trace }

abbrev tried : ActionOutcome ℕ
tried = success plain flaky (send "good") context 3 100 2 fine 10

tried_ok :
    (execute_action_with_retry plain (observed flaky) (send "good") context 3 100 (0, 0, 0) 0).0
    ≡ ok tried
unfolding execute_action_with_retry attempts_from settled jittered_backoff_ms is_cloneable
    items_cloneable fields_cloneable
tried_ok = refl

execute-counts_example :
    ((execute_action_with_retry plain (observed flaky) (send "good") context 3 100 (0, 0, 0) 0).1.1
      ≡ 2)
    × (1 ≤ 2)
    × (2 ≤ 3)
    × ((execute_action_with_retry plain
            (observed flaky)
            (send "good")
            context
            3
            100
            (0, 0, 0)
            0).1.2
          + 100
        ≤ 100 * 2 ^ (3 - 1))
execute-counts_example =
    execute-counts plain flaky (send "good") context 3 100 0 0 (omega arith) tried tried_ok
