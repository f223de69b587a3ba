-- ===== src/Execute/Tests.antt =====
-- A job delivered twice, over a table that refuses a second row of an execution id.
use b2b_app.Prelude.{◌≡◌, ◌⊎◌, refl, Option, none, some, [], ◌∷◌, map, Result, ok}
use b2b_app.Json.{is_cloneable, items_cloneable, fields_cloneable}
use b2b_app.Graph.{program}
use b2b_app.Runner.{
  run_workflow, run_sorted, run_nodes, run_node, run_config, run_trigger, run_action,
  run_duration_ms,
}
use b2b_app.Runner.Steps.{Failure}
use b2b_app.Runner.Attempts.{execute_action_with_retry, attempts_from, settled, jittered_backoff_ms}
use b2b_app.Schema.{safe_parse, check_fields, check_graph}
use b2b_app.Execute.{
  Outcome, Db, started, find_run_by_execution_id, update_run, record_run_failure, conclude,
  settle_run, run_created, run_parsed, run_workflow_row, unless_found, execute_workflow_run,
}
use b2b_app.Execute.Samples.{
  plain, counting, unique_rows, workflows, parse, explain, job, insert_unique,
}
use b2b_app.Execute.Idempotence.{execute_workflow_run_twice}

abbrev empty : Db plain counting unique_rows workflows parse explain
empty = record { runs = []; dead_letters = []; audit = []; state = 0 }

abbrev result :
    Option (Result Failure Outcome × Db plain counting unique_rows workflows parse explain)
result = execute_workflow_run plain counting unique_rows workflows parse explain job "r1" 100 empty

abbrev after : Db plain counting unique_rows workflows parse explain
after = elim result [ none ↦ empty | some x ↦ x.1 ]

-- The dead letter of a run that failed before its last node: the message and the attempt are those
-- of the last, skipped, step, not "refused" of the failed one.
letter : map (λ d. d.error) after.dead_letters ≡ "Workflow failed." ∷ []
unfolding execute_workflow_run unless_found run_workflow_row run_parsed run_created settle_run
    conclude update_run record_run_failure safe_parse check_fields check_graph
    find_run_by_execution_id program run_workflow run_sorted run_nodes run_node run_config
    run_trigger run_action execute_action_with_retry attempts_from settled jittered_backoff_ms
    is_cloneable items_cloneable fields_cloneable run_duration_ms
letter = refl

first_done : result ≡ some (ok (started "r1" "failed" 60), after)
unfolding execute_workflow_run unless_found run_workflow_row run_parsed run_created settle_run
    conclude update_run record_run_failure safe_parse check_fields check_graph
    find_run_by_execution_id program run_workflow run_sorted run_nodes run_node run_config
    run_trigger run_action execute_action_with_retry attempts_from settled jittered_backoff_ms
    is_cloneable items_cloneable fields_cloneable run_duration_ms
first_done = refl

execute_workflow_run_twice_example :
    (after ≡ empty)
    ⊎ ((o : Outcome) × (execute_workflow_run plain counting unique_rows workflows parse explain job
            "r2" 200 after
          ≡ some (ok o, after)))
execute_workflow_run_twice_example =
    execute_workflow_run_twice plain counting unique_rows workflows parse explain insert_unique job
      "r1" "r2" 100 200 empty after (ok (started "r1" "failed" 60)) first_done
