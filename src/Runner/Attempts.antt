-- ===== src/Runner/Attempts.antt =====
-- lib/dag/runner.ts: `jitteredBackoffMs` and `executeActionWithRetry`.
use b2b_app.Prelude.{
  ℕ, zero, suc, ◌+◌, ◌-◌, ◌*◌, ◌^◌, String, Bool, true, false, none, some, if◌then◌else◌, leb,
  Result, ok, err, get_or,
}
use b2b_app.Json.{Value, undefined, obj, num, end, field, Js, is_cloneable}
use b2b_app.JsonPath.{Thrown, clone_error}
use b2b_app.Workflow.{WorkflowNode}
use b2b_app.Runner.Steps.{
  StepStatus, StepLogRecord, DispatchResult, Reply, replied, retryable_error, permanent_error,
  other_error, RunContext, World, make_step, context_with_vars,
}

pub record ActionOutcome (N : Type 0) : Type 0 where
  pub status : StepStatus
  pub step : StepLogRecord N
  pub output : Value N

-- What the `catch` makes of an exception.
abbrev pub failed_with : {N : Type 0} → Bool → String → DispatchResult N
failed_with again message = record {
  http_status = none;
  is_ok = false;
  retryable = again;
  output = undefined;
  error_message = some message;
}

unfoldable pub settled : {N : Type 0} → Reply N → DispatchResult N
settled (replied r) = r
settled (retryable_error m) = failed_with true m
settled (permanent_error m) = failed_with false m
settled (other_error m) = failed_with true m

module _ (js : Js) (world : World js.Number) where
  open js use {Number, of_nat}
  open world use {State, dispatch, random_below, sleep, clock}

  -- The delay before the next attempt: below `baseMs * 2 ** (attempt - 1)`.
  unfoldable pub jittered_backoff_ms : ℕ → ℕ → State → ℕ × State
  jittered_backoff_ms attempt base s = random_below (base * 2 ^ (attempt - 1)) s

  -- What an attempt, or the loop, comes to: the outcome, the world, and the uses of the clock.
  abbrev pub Tried : Type 0
  Tried = Result Thrown (ActionOutcome Number) × State × ℕ

  module _ (node : WorkflowNode Number) (context : RunContext Number) (max_attempts base : ℕ) where
    abbrev pub success : ℕ → DispatchResult Number → ℕ → ActionOutcome Number
    success attempt r duration = record {
      status = StepStatus.succeeded;
      output = r.output;
      step = record (make_step node StepStatus.succeeded attempt) {
        input = context_with_vars context;
        output = r.output;
        http_status = r.http_status;
        duration_ms = duration;
      };
    }

    -- A failure; `output` is undefined unless the last attempt failed.
    abbrev pub gave_up : ℕ → DispatchResult Number → Value Number → ℕ → ActionOutcome Number
    gave_up attempt r output duration = record {
      status = StepStatus.failed;
      output = undefined;
      step = record (make_step node StepStatus.failed attempt) {
        input = context_with_vars context;
        output = output;
        error_message = some (get_or r.error_message "Action failed.");
        http_status = r.http_status;
        duration_ms = duration;
      };
    }

    -- The return behind the loop.
    abbrev pub exhausted : ActionOutcome Number
    exhausted = record {
      status = StepStatus.failed;
      output = undefined;
      step = record (make_step node StepStatus.failed max_attempts) {
        error_message = some "Action failed after exhausting retries.";
      };
    }

    -- The loop from `attempt` on, with so many rounds left and so many failed attempts behind it.
    unfoldable pub attempts_from : ℕ → ℕ → ℕ → State → ℕ → Tried
    attempts_from zero attempt failures s t = (ok exhausted, s, t)
    attempts_from (suc rounds) attempt failures s t =
        let (reply, s') = dispatch node context attempt s in
        let r = settled reply in
        let duration = clock (t + 1) - clock t in
        let (delay, s'') = jittered_backoff_ms attempt base s' in
        let again = attempts_from rounds (attempt + 1) (failures + 1) (sleep delay s'') (t + 2) in
        if is_cloneable (context_with_vars context)
        then if r.is_ok
          then (ok (success attempt r duration), s', t + 2)
          else if leb max_attempts attempt
          then (
            ok (
                gave_up attempt r (obj (field "attempts" (num (of_nat (failures + 1))) end))
                  duration),
            s',
            t + 2,
          )
          else if r.retryable
          then again
          else (ok (gave_up attempt r undefined duration), s', t + 2)
        else (err clone_error, s, t + 1)

    -- executeActionWithRetry
    unfoldable pub execute_action_with_retry : State → ℕ → Tried
    execute_action_with_retry s t = attempts_from max_attempts 1 0 s t
