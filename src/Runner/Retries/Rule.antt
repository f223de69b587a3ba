-- ===== src/Runner/Retries/Rule.antt =====
-- An induction rule for the loop of `executeActionWithRetry`.
use b2b_app.Prelude.{
  ℕ, zero, suc, ◌+◌, ◌-◌, ◌<◌, ◌≡◌, inl, inr, true, false, leb, ok, err, arith, Bool-cases,
}
use b2b_app.Json.{Value, Js, is_cloneable, undefined}
use b2b_app.JsonPath.{clone_error}
use b2b_app.Workflow.{WorkflowNode}
use b2b_app.Runner.Steps.{DispatchResult, RunContext, World, context_with_vars}
use b2b_app.Runner.Attempts.{
  settled, attempts_from, execute_action_with_retry, jittered_backoff_ms, Tried, success, gave_up,
  exhausted,
}

module _ (js : Js) (world : World js.Number) (node : WorkflowNode js.Number)
    (context : RunContext js.Number) (max_attempts base : ℕ) where
  abbrev reply_at : ℕ → world.State → DispatchResult js.Number
  reply_at attempt s = settled (world.dispatch node context attempt s).0

  abbrev after_dispatch : ℕ → world.State → world.State
  after_dispatch attempt s = (world.dispatch node context attempt s).1

  -- The state in which the next attempt begins.
  abbrev after_wait : ℕ → world.State → world.State
  after_wait attempt s =
      let (delay, s') = jittered_backoff_ms js world attempt base (after_dispatch attempt s) in
      world.sleep delay s'

  -- What to show of `P rounds attempt s x`: the loop with so many rounds left, at this attempt and
  -- in this state, comes to `x`.
  pub record AttemptRule (P : ℕ → ℕ → world.State → Tried js world → Type 0) : Type 0 where
    pub ends :
        (attempt : ℕ) (s : world.State) (t : ℕ)
        → P 0 attempt s (ok (exhausted js world node context max_attempts base), s, t)
    pub uncloned :
        (rounds attempt : ℕ) (s : world.State) (t : ℕ)
        → P (suc rounds) attempt s (err clone_error, s, t + 1)
    pub succeeds :
        (rounds attempt : ℕ) (s : world.State) (t : ℕ)
        → (reply_at attempt s).is_ok ≡ true
        → P (suc rounds) attempt s (
          ok (
              success js world node context max_attempts base attempt
                (reply_at attempt s)
                (world.clock (t + 1) - world.clock t)),
          after_dispatch attempt s,
          t + 2,
        )
    pub gives_up :
        (rounds attempt : ℕ) (s : world.State) (t : ℕ) (output : Value js.Number)
        → (reply_at attempt s).is_ok ≡ false
        → P (suc rounds) attempt s (
          ok (
              gave_up js world node context max_attempts base attempt
                (reply_at attempt s)
                output
                (world.clock (t + 1) - world.clock t)),
          after_dispatch attempt s,
          t + 2,
        )
    pub retries :
        (rounds attempt : ℕ) (s : world.State)
        → (reply_at attempt s).is_ok ≡ false
        → attempt < max_attempts
        → (x : Tried js world) → P rounds (attempt + 1) (after_wait attempt s) x
        → P (suc rounds) attempt s x

  module _ (P : ℕ → ℕ → world.State → Tried js world → Type 0) (rule : AttemptRule P) where
    attempts_ind :
        (rounds attempt failures : ℕ) (s : world.State) (t : ℕ)
        → P rounds attempt s
            (attempts_from js world node context max_attempts base rounds attempt failures s t)
    unfolding attempts_from
    attempts_ind zero attempt failures s t = rule.ends attempt s t
    attempts_ind (suc rounds) attempt failures s t =
        let r = reply_at attempt s in
        let next =
          attempts_ind rounds (attempt + 1) (failures + 1) (after_wait attempt s) (t + 2) in
        elim (Bool-cases (is_cloneable (context_with_vars context))) [
          | inr e ↦ rw e (rule.uncloned rounds attempt s t)
          | inl e ↦ elim (Bool-cases r.is_ok) [
            | inl good ↦ rw (e, good) (rule.succeeds rounds attempt s t good)
            | inr bad ↦ elim (Bool-cases (leb max_attempts attempt)) [
              | inl last ↦ rw (e, bad, last) (rule.gives_up rounds attempt s t _ bad)
              | inr early ↦ elim (Bool-cases r.retryable) [
                | inl again ↦
                    rw (e, bad, early, again)
                      (rule.retries rounds attempt s bad (ground arith) _ next)
                | inr never ↦
                    rw (e, bad, early, never) (rule.gives_up rounds attempt s t undefined bad)
              ]
            ]
          ]
        ]

    pub execute_ind :
        (s : world.State) (t : ℕ)
        → P max_attempts 1 s (execute_action_with_retry js world node context max_attempts base s t)
    unfolding execute_action_with_retry
    execute_ind s t = attempts_ind max_attempts 1 0 s t
