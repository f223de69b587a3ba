-- ===== src/Runner/Broken.antt =====
-- What `runWorkflow` does once a node has failed.
use mathlib.Core.List.{append_assoc, append-nil}
use b2b_app.Prelude.{Option, ◌≡◌, refl, ap, ◌∙◌, true, none, some, List, [], ◌∷◌, ◌++◌, map}
use b2b_app.Json.{Value, Js}
use b2b_app.Workflow.{WorkflowNode}
use b2b_app.Runner.{Run, Options, run_node, run_nodes, run_when_broken}
use b2b_app.Runner.Steps.{StepStatus, Trace, World, Failure, make_step}

module _ (js : Js) (world : World js.Number) (options : Options) (payload : Value js.Number)
    (trace : Trace) where
  -- From a broken run on, the loop logs a skipped step with attempt 1 for every node that is left,
  -- throws nothing, and changes nothing else: no dispatch, no wait, no variable, and no use of the
  -- clock.
  pub run_nodes_broken :
      (nodes : List (WorkflowNode js.Number)) (r : Run js.Number world.State)
      → r.broken ≡ true
      → run_nodes js world options payload trace nodes r ≡ (
        none,
        record r { steps = r.steps ++ map (λ node. make_step node StepStatus.skipped 1) nodes },
      )
  unfolding run_nodes run_node
  run_nodes_broken [] r e = rw (append-nil r.steps) refl
  run_nodes_broken (node ∷ nodes) r e =
      let step = make_step node StepStatus.skipped 1 in
      let next : Run js.Number world.State = record r { steps = r.steps ++ step ∷ [] } in
      let skipped : run_node js world options payload trace node r ≡ (none, next) =
        ap (λ b. run_when_broken js world options payload trace b node r) e in
      let rest = map (λ (n : WorkflowNode js.Number). make_step n StepStatus.skipped 1) nodes in
      let appended : (r.steps ++ step ∷ []) ++ rest ≡ r.steps ++ step ∷ rest =
        append_assoc r.steps (step ∷ []) rest in
      ap (after nodes) skipped
      ∙ run_nodes_broken nodes next e
      ∙ ap (λ log. (none, record r { steps = log })) appended
    where
      after :
          List (WorkflowNode js.Number)
          → Option Failure × Run js.Number world.State
          → Option Failure × Run js.Number world.State
      after ns x = elim x.0 [
        | some f ↦ (some f, x.1)
        | none ↦ run_nodes js world options payload trace ns x.1
      ]
