-- ===== src/Runner/Pipeline.antt =====
-- What a run of `runWorkflow` logs from beginning to end.
use mathlib.Core.List.{append_assoc, map-append}
use b2b_app.Prelude.{
  ℕ, ◌≡◌, ◌≢◌, ◌⊎◌, inl, inr, refl, sym, ap, ◌∙◌, String, true, false, Option, none, some, List, [],
  ◌∷◌, ◌++◌, map, length, keep, tally, tally-append, arith, Bool-cases,
}
use b2b_app.Json.{Value, Js}
use b2b_app.Workflow.{WorkflowNode, WorkflowGraph}
use b2b_app.Graph.{Sorted, order, invalid, topo_sort}
use b2b_app.Runner.{
  Run, Options, is_failed, run_nodes, run_sorted, run_workflow, begin, summarize_run,
}
use b2b_app.Runner.Steps.{StepStatus, RunStatus, StepLogRecord, Trace, World}
use b2b_app.Runner.Logs.{Move, OnDone, OnDone-eq, run_nodes_ind}

abbrev pub statuses : {N S : Type 0} → Run N S → List StepStatus
statuses r = map (λ s. s.status) r.steps

abbrev pub AllAre : StepStatus → List StepStatus → Type 0
AllAre st [] = Unit
AllAre st (x ∷ xs) = (x ≡ st) × AllAre st xs

-- Successes only; or successes, one failure, and only skipped steps behind it.
pub data IsPipelineLog (status : RunStatus) (log : List StepStatus) : Type 0 where
  clean : status ≡ RunStatus.succeeded → AllAre StepStatus.succeeded log → IsPipelineLog status log
  cut :
      (before after : List StepStatus)
      → log ≡ before ++ StepStatus.failed ∷ after
      → AllAre StepStatus.succeeded before
      → AllAre StepStatus.skipped after
      → status ≢ RunStatus.succeeded
      → IsPipelineLog status log

AllAre-concat :
    (st x : StepStatus) (xs : List StepStatus) → AllAre st xs → x ≡ st → AllAre st (xs ++ x ∷ [])
AllAre-concat st x [] h e = (e, tt)
AllAre-concat st x (y ∷ xs) (p, h) e = (p, AllAre-concat st x xs h e)

-- The invariant of the loop: the keys so far are those of the records, in their order.
record IsLogged {N S : Type 0} (keys : List String) (r : Run N S) : Type 0 where
  listed : map (λ (s : StepLogRecord N). s.step_key) r.steps ≡ keys
  live :
      r.broken ≡ false → (r.status ≡ RunStatus.succeeded) × AllAre StepStatus.succeeded (statuses r)
  dead :
      r.broken ≡ true
      → (r.status ≢ RunStatus.succeeded)
        × (before : List StepStatus) × (after : List StepStatus) × (statuses r
            ≡ before ++ StepStatus.failed ∷ after)
        × AllAre StepStatus.succeeded before
        × AllAre StepStatus.skipped after

module _ {N S : Type 0} (r r' : Run N S) (step : StepLogRecord N)
    (logged : r'.steps ≡ r.steps ++ step ∷ []) where
  statuses-step : statuses r' ≡ statuses r ++ step.status ∷ []
  statuses-step = rw (logged, map-append (λ (s : StepLogRecord N). s.status) r.steps) refl

  keys-step :
      (keys : List String) (key : String)
      → map (λ (s : StepLogRecord N). s.step_key) r.steps ≡ keys
      → step.step_key ≡ key
      → map (λ (s : StepLogRecord N). s.step_key) r'.steps ≡ keys ++ key ∷ []
  keys-step keys key listed keyed =
      rw (logged, map-append (λ (s : StepLogRecord N). s.step_key) r.steps, listed, keyed) refl

module _ {N S : Type 0} where
  IsLogged-step :
      (keys : List String) (key : String) (r r' : Run N S)
      → IsLogged keys r
      → Move key r r'
      → IsLogged (keys ++ key ∷ []) r'
  IsLogged-step keys key r r' i (Move.skips step broken same keyed skipped) =
      let logged : r'.steps ≡ r.steps ++ step ∷ [] = ap (λ x. x.steps) same in
      let as_before : r'.broken ≡ r.broken = ap (λ x. x.broken) same in
      let status : r'.status ≡ r.status = ap (λ x. x.status) same in
      let (bad, before, after, cut_at, good, skips) = i.dead broken in
      record {
        listed = keys-step r r' step logged keys key i.listed keyed;
        live = λ e. cc;
        dead = λ e. (
          λ p. bad (sym status ∙ p),
          before,
          after ++ step.status ∷ [],
          statuses-step r r' step logged
              ∙ ap (λ x. x ++ step.status ∷ []) cut_at
              ∙ append_assoc before (StepStatus.failed ∷ after) (step.status ∷ []),
          good,
          AllAre-concat StepStatus.skipped step.status after skips skipped,
        );
      }
  IsLogged-step keys key r r' i (Move.passes step was is_live logged kept keyed good) =
      let (fine, all_good) = i.live was in
      record {
        listed = keys-step r r' step logged keys key i.listed keyed;
        live = λ e. (
          kept ∙ fine,
          rw (statuses-step r r' step logged) (AllAre-concat _ _ (statuses r) all_good good),
        );
        dead = λ e. cc;
      }
  IsLogged-step keys key r r' i (Move.breaks step was is_dead logged bad keyed fail) =
      let (fine, all_good) = i.live was in
      record {
        listed = keys-step r r' step logged keys key i.listed keyed;
        live = λ e. cc;
        dead = λ e. (
          bad,
          statuses r,
          [],
          statuses-step r r' step logged ∙ ap (λ x. statuses r ++ x ∷ []) fail,
          all_good,
          tt,
        );
      }

  IsPipelineLog-IsLogged :
      (keys : List String) (r : Run N S) → IsLogged keys r → IsPipelineLog r.status (statuses r)
  IsPipelineLog-IsLogged keys r i = elim (Bool-cases r.broken) [
    | inl e ↦
        let (bad, before, after, cut_at, good, skips) = i.dead e in
        IsPipelineLog.cut before after cut_at good skips bad
    | inr e ↦ let (fine, all_good) = i.live e in IsPipelineLog.clean fine all_good
  ]

abbrev failures : List StepStatus → ℕ
failures xs = tally is_failed xs

failures-AllAre :
    (st : StepStatus) (xs : List StepStatus) → is_failed st ≡ false → AllAre st xs → failures xs ≡ 0
failures-AllAre st [] h a = refl
failures-AllAre st (x ∷ xs) h (e, a) =
    let first : is_failed x ≡ false = ap is_failed e ∙ h in
    rw first (omega (arith, failures-AllAre st xs h a))

length-keep_failed :
    {N : Type 0} (steps : List (StepLogRecord N))
    → length (keep (λ (s : StepLogRecord N). is_failed s.status) steps)
      ≡ failures (map (λ (s : StepLogRecord N). s.status) steps)
length-keep_failed [] = refl
length-keep_failed (x ∷ steps) = ground (arith, length-keep_failed steps)

-- The failed steps of a pipeline's log are none or one.
failures-IsPipelineLog :
    (status : RunStatus) (log : List StepStatus)
    → IsPipelineLog status log
    → ((status ≡ RunStatus.succeeded) × (failures log ≡ 0))
      ⊎ ((status ≢ RunStatus.succeeded) × (failures log ≡ 1))
failures-IsPipelineLog status log (IsPipelineLog.clean fine a) =
    inl (fine, failures-AllAre _ log refl a)
failures-IsPipelineLog status log (IsPipelineLog.cut before after e good skips bad) =
    let count : failures (before ++ StepStatus.failed ∷ after) ≡ 1 = omega (
      arith,
      tally-append is_failed before (StepStatus.failed ∷ after),
      failures-AllAre StepStatus.succeeded before refl good,
      failures-AllAre StepStatus.skipped after refl skips,
    ) in
    inr (bad, ap failures e ∙ count)

module _ (js : Js) (world : World js.Number) (options : Options) (payload : Value js.Number)
    (trace : Trace) where
  run_nodes-IsLogged :
      (nodes : List (WorkflowNode js.Number)) (s : world.State)
      → OnDone
          (IsLogged (map (λ n. n.key) nodes))
          (run_nodes js world options payload trace nodes (begin js world options payload trace s))
  run_nodes-IsLogged nodes s =
      run_nodes_ind js world options payload trace IsLogged
        (λ keys node r r'. IsLogged-step keys node.key r r') nodes []
        (begin js world options payload trace s)
        (record { listed = refl; live = λ e. (refl, tt); dead = λ e. cc })

  run_sorted-IsLogged :
      (sorted : Option (Sorted js.Number)) (s : world.State) (r : Run js.Number world.State)
      → run_sorted js world options payload trace sorted s ≡ some (none, r)
      → (ns : List (WorkflowNode js.Number)) × (sorted ≡ some (order ns))
        × IsLogged (map (λ n. n.key) ns) r
  unfolding run_sorted
  run_sorted-IsLogged none s r e = cc
  run_sorted-IsLogged (some (invalid errors)) s r e = cc
  run_sorted-IsLogged (some (order ns)) s r e =
      let first = begin js world options payload trace s in
      let x = run_nodes js world options payload trace ns first in
      let ended : x ≡ (none, r) = cc in
      (ns, refl, OnDone-eq (IsLogged (map (λ n. n.key) ns)) x (run_nodes-IsLogged ns s) ended)

  module _ (graph : WorkflowGraph js.Number) (s : world.State) (r : Run js.Number world.State)
      (done : run_workflow js world options payload trace graph s ≡ some (none, r)) where
    -- A run of a workflow that no exception ends logs exactly one step for each node of the sorted
    -- graph, under the node's key and in the order of the sort.
    pub run_workflow-keys :
        (ns : List (WorkflowNode js.Number)) × (topo_sort graph ≡ some (order ns))
        × (map (λ (x : StepLogRecord js.Number). x.step_key) r.steps ≡ map (λ n. n.key) ns)
    unfolding run_workflow
    run_workflow-keys =
        let (ns, sorted, logged) = run_sorted-IsLogged (topo_sort graph) s r done in
        (ns, sorted, logged.listed)

    -- The log of a run that no exception ends either holds successes only, and the run has
    -- succeeded; or it holds successes, then one failed step, then skipped steps only, and the run
    -- has not succeeded.
    pub run_workflow-IsPipelineLog : IsPipelineLog r.status (statuses r)
    unfolding run_workflow
    run_workflow-IsPipelineLog =
        let (ns, sorted, logged) = run_sorted-IsLogged (topo_sort graph) s r done in
        IsPipelineLog-IsLogged (map (λ n. n.key) ns) r logged

    -- The summary of a run that no exception ends counts one failed step where the status is not
    -- `succeeded`, and none where it is.
    pub summarize_run-counts :
        (duration : ℕ)
        → ((r.status ≡ RunStatus.succeeded) × ((summarize_run r duration).failed_steps ≡ 0))
          ⊎ ((r.status ≢ RunStatus.succeeded) × ((summarize_run r duration).failed_steps ≡ 1))
    unfolding summarize_run
    summarize_run-counts duration =
        rw (length-keep_failed r.steps)
          (failures-IsPipelineLog r.status (statuses r) run_workflow-IsPipelineLog)
