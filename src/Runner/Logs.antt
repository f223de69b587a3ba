-- ===== src/Runner/Logs.antt =====
-- What the loop of `runWorkflow` logs.
use mathlib.Core.List.{append_assoc, append-nil}
use mathlib.Core.Path.{subst}
use b2b_app.Prelude.{
  ℕ, ◌+◌, ◌≡◌, ◌≢◌, inl, inr, refl, ◌∙◌, String, Bool, true, false, Option, none, some, List, [],
  ◌∷◌, ◌++◌, map, Result, ok, err, Bool-cases,
}
use b2b_app.Json.{Value, Js, set_own, is_cloneable}
use b2b_app.JsonPath.{Thrown}
use b2b_app.Workflow.{WorkflowNode, NodeConfig}
use b2b_app.Runner.{
  Run, Options, run_trigger, run_filter, run_transform, run_action, run_config, run_node, run_nodes,
  root_of, context_of, settle_action, conclude_action, run_when_broken,
}
use b2b_app.Runner.Steps.{StepStatus, RunStatus, StepLogRecord, Trace, World, Failure}
use b2b_app.Runner.Conditions.{evaluate_conditions, apply_transform}
use b2b_app.Runner.Attempts.{ActionOutcome}
use b2b_app.Runner.Retries.{IsOutcomeOf, execute-IsOutcomeOf}

-- How one node moves a run: it emits one record with the node's key, and
pub data Move {N S : Type 0} (key : String) (r : Run N S) : Run N S → Type 0 where
  -- nothing but that record changes in a broken run;
  skips :
      {r' : Run N S} (step : StepLogRecord N)
      → r.broken ≡ true
      → r' ≡ record r { steps = r.steps ++ step ∷ [] }
      → step.step_key ≡ key
      → step.status ≡ StepStatus.skipped
      → Move key r r'
  -- a success leaves the status;
  passes :
      {r' : Run N S} (step : StepLogRecord N)
      → r.broken ≡ false
      → r'.broken ≡ false
      → r'.steps ≡ r.steps ++ step ∷ []
      → r'.status ≡ r.status
      → step.step_key ≡ key
      → step.status ≡ StepStatus.succeeded
      → Move key r r'
  -- a failure breaks the run.
  breaks :
      {r' : Run N S} (step : StepLogRecord N)
      → r.broken ≡ false
      → r'.broken ≡ true
      → r'.steps ≡ r.steps ++ step ∷ []
      → r'.status ≢ RunStatus.succeeded
      → step.step_key ≡ key
      → step.status ≡ StepStatus.failed
      → Move key r r'

-- A statement about the run, where no exception ended it.
abbrev pub OnDone : {R : Type 0} → (R → Type 0) → Option Failure × R → Type 0
OnDone P (none, r) = P r
OnDone P (some f, r) = Unit

pub OnDone-eq :
    {R : Type 0} (P : R → Type 0) (x : Option Failure × R) {r : R}
    → OnDone P x
    → x ≡ (none, r)
    → P r
OnDone-eq P (none, r') h e = let same : r' ≡ _ = cc in subst P same h
OnDone-eq P (some f, r') h e = cc

module _ (js : Js) (world : World js.Number) (options : Options) (payload : Value js.Number)
    (trace : Trace) where
  abbrev R : Type 0
  R = Run js.Number world.State

  module _ (node : WorkflowNode js.Number) (r : R) (live : r.broken ≡ false) where
    run_trigger-Move : OnDone (Move node.key r) (run_trigger js world options payload trace node r)
    unfolding run_trigger
    run_trigger-Move =
        elim (Bool-cases (is_cloneable (root_of js world options payload trace r.vars))) [
          | inl e ↦ rw e (Move.passes _ live live refl refl refl refl)
          | inr e ↦ rw e tt
        ]

    run_filter-Move :
        (verdict : Result Thrown Bool)
        → OnDone (Move node.key r) (run_filter js world options payload trace node verdict r)
    unfolding run_filter
    run_filter-Move (err f) = tt
    run_filter-Move (ok true) =
        elim (Bool-cases (is_cloneable (root_of js world options payload trace r.vars))) [
          | inl e ↦ rw e (Move.passes _ live live refl refl refl refl)
          | inr e ↦ rw e tt
        ]
    run_filter-Move (ok false) =
        elim (Bool-cases (is_cloneable (root_of js world options payload trace r.vars))) [
          | inl e ↦ rw e (Move.breaks _ live refl refl (λ p. cc) refl refl)
          | inr e ↦ rw e tt
        ]

    run_transform-Move :
        (verdict : Result Thrown (Value js.Number))
        → OnDone (Move node.key r) (run_transform js world options payload trace node verdict r)
    unfolding run_transform
    run_transform-Move (err f) = tt
    run_transform-Move (ok output) =
        elim (Bool-cases (
          is_cloneable (root_of js world options payload trace (set_own node.key output r.vars)))) [
            | inl e ↦ rw e (Move.passes _ live live refl refl refl refl)
            | inr e ↦ rw e tt
          ]

    settle_action-Move :
        (o : ActionOutcome js.Number) (s : world.State) (t : ℕ)
        → IsOutcomeOf node o
        → Move node.key r (settle_action js world options payload trace node r (o, s, t))
    settle_action-Move o s t w = elim w.final [
      | inl good ↦ rw good (Move.passes o.step live live refl refl w.keyed (w.same_status ∙ good))
      | inr bad ↦ rw bad (Move.breaks o.step live refl refl (λ p. cc) w.keyed (w.same_status ∙ bad))
    ]

    conclude_action-Move :
        (tried : Result Thrown (ActionOutcome js.Number)) (s : world.State) (t : ℕ)
        → ((o : ActionOutcome js.Number) → tried ≡ ok o → IsOutcomeOf node o)
        → OnDone (Move node.key r) (conclude_action js world options payload trace node r tried s t)
    conclude_action-Move (err e) s t w = tt
    conclude_action-Move (ok o) s t w = settle_action-Move o s t (w o refl)

    run_action-Move : OnDone (Move node.key r) (run_action js world options payload trace node r)
    unfolding run_action
    run_action-Move =
        let context = context_of js world options payload trace r.vars in
        let most = options.max_attempts in
        let base = options.backoff_base_ms in
        elim (Bool-cases options.has_dispatcher) [
          | inr e ↦ rw e tt
          | inl e ↦ rw e (
              conclude_action-Move _ _ _
                (execute-IsOutcomeOf js world node context most base r.state (r.ticks + 1)))
        ]

    run_config-Move :
        (config : NodeConfig js.Number)
        → OnDone (Move node.key r) (run_config js world options payload trace config node r)
    unfolding run_config
    run_config-Move (NodeConfig.trigger c) = run_trigger-Move
    run_config-Move (NodeConfig.filter c) =
        run_filter-Move (evaluate_conditions js c (root_of js world options payload trace r.vars))
    run_config-Move (NodeConfig.transform c) =
        run_transform-Move (apply_transform js c (root_of js world options payload trace r.vars))
    run_config-Move (NodeConfig.action c) = run_action-Move

  run_when_broken-Move :
      (broken : Bool) (node : WorkflowNode js.Number) (r : R)
      → r.broken ≡ broken
      → OnDone (Move node.key r) (run_when_broken js world options payload trace broken node r)
  run_when_broken-Move true node r e = Move.skips _ e refl refl refl
  run_when_broken-Move false node r e = run_config-Move node r e node.config

  run_node-Move :
      (node : WorkflowNode js.Number) (r : R)
      → OnDone (Move node.key r) (run_node js world options payload trace node r)
  unfolding run_node
  run_node-Move node r = run_when_broken-Move r.broken node r refl

  -- An induction rule over the loop: a property of the log that every move keeps.
  pub run_nodes_ind :
      (P : List String → R → Type 0)
      → ((keys : List String) (node : WorkflowNode js.Number) (r r' : R)
          → P keys r
          → Move node.key r r'
          → P (keys ++ node.key ∷ []) r')
      → (nodes : List (WorkflowNode js.Number)) (keys : List String) (r : R) → P keys r
      → OnDone
          (P (keys ++ map (λ n. n.key) nodes))
          (run_nodes js world options payload trace nodes r)
  unfolding run_nodes
  run_nodes_ind P step [] keys r h = rw append-nil h
  run_nodes_ind P step (node ∷ nodes) keys r h =
      moved (run_node js world options payload trace node r) (run_node-Move node r) (λ r' m.
        rw (← append_assoc keys (node.key ∷ []) (map (λ n. n.key) nodes))
          (run_nodes_ind P step nodes (keys ++ node.key ∷ []) r' (step keys node r r' h m)))
    where
      moved :
          (x : Option Failure × R)
          → OnDone (Move node.key r) x
          → ((r' : R)
              → Move node.key r r'
              → OnDone
                  (P (keys ++ node.key ∷ map (λ n. n.key) nodes))
                  (run_nodes js world options payload trace nodes r'))
          → OnDone (P (keys ++ node.key ∷ map (λ n. n.key) nodes)) (elim x.0 [
            | some f ↦ (some f, x.1)
            | none ↦ run_nodes js world options payload trace nodes x.1
          ])
      moved (some f, r') m next = tt
      moved (none, r') m next = next r' m
