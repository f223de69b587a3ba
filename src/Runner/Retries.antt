-- ===== src/Runner/Retries.antt =====
-- What `executeActionWithRetry` does to the outside world, and what it reports.
mod Rule
use native.Mathlib.Nat.{two-pow-succ, pow-le-pow_right, mul-le-mul_left}
use native.Mathlib.Decide.{dec_lt}
use mathlib.Core.Path.{subst}
use b2b_app.Prelude.{
  ℕ, zero, suc, ◌+◌, ◌-◌, ◌*◌, ◌^◌, ◌≤◌, ◌<◌, ◌≡◌, ◌≢◌, ◌⊎◌, inl, inr, refl, sym, ap, ◌∙◌, String,
  Bool, true, false, Option, none, some, List, [], ◌∷◌, if◌then◌else◌, leb, Result, ok, err, get_or,
  arith, Bool-cases,
}
use b2b_app.Json.{Value, Js, is_cloneable}
use b2b_app.JsonPath.{Thrown, clone_error}
use b2b_app.Workflow.{WorkflowNode}
use b2b_app.Runner.Steps.{
  StepStatus, StepLogRecord, DispatchResult, Reply, RunContext, World, make_step, context_with_vars,
}
use b2b_app.Runner.Attempts.{
  ActionOutcome, settled, execute_action_with_retry, jittered_backoff_ms, Tried,
}
use Rule.{AttemptRule, execute_ind}

-- The record of an outcome is that of the node, its status is the outcome's, and it is no skip.
pub record IsOutcomeOf {N : Type 0} (node : WorkflowNode N) (o : ActionOutcome N) : Type 0 where
  pub keyed : o.step.step_key ≡ node.key
  pub same_status : o.step.status ≡ o.status
  pub final : (o.status ≡ StepStatus.succeeded) ⊎ (o.status ≡ StepStatus.failed)

-- A statement about the outcome, where there is one.
abbrev OnOutcome {ℓ} : {O : Type 0} → (O → Type ℓ) → Result Thrown O → Type ℓ
OnOutcome P (ok o) = P o
OnOutcome P (err e) = Unit

OnOutcome-map :
    {O : Type 0} (P Q : O → Type 0) (r : Result Thrown O)
    → ((o : O) → P o → Q o)
    → OnOutcome P r
    → OnOutcome Q r
OnOutcome-map P Q (ok o) f h = f o h
OnOutcome-map P Q (err e) f h = tt

module _ (js : Js) (world : World js.Number) (node : WorkflowNode js.Number)
    (context : RunContext js.Number) (max_attempts base : ℕ) where
  outcome_rule :
      AttemptRule js world node context max_attempts base
        (λ rounds attempt s x. OnOutcome (IsOutcomeOf node) x.0)
  outcome_rule = record {
    ends = λ attempt s t. record { keyed = refl; same_status = refl; final = inr refl };
    uncloned = λ rounds attempt s t. tt;
    succeeds =
        λ rounds attempt s t good. record { keyed = refl; same_status = refl; final = inl refl };
    gives_up =
        λ rounds attempt s t out bad. record { keyed = refl; same_status = refl; final = inr refl };
    retries = λ rounds attempt s bad early x ih. ih;
  }

  pub execute-IsOutcomeOf :
      (s : world.State) (t : ℕ) (o : ActionOutcome js.Number)
      → (execute_action_with_retry js world node context max_attempts base s t).0 ≡ ok o
      → IsOutcomeOf node o
  execute-IsOutcomeOf s t o e =
      subst (OnOutcome (IsOutcomeOf node)) e
        (execute_ind js world node context max_attempts base _ outcome_rule s t)

-- The same world, with the calls of the dispatcher and the milliseconds of the waits counted.
abbrev pub observed : {N : Type 0} → World N → World N
observed w = record {
  State = w.State × ℕ × ℕ;
  dispatch = λ node context attempt s.
      let (reply, s') = w.dispatch node context attempt s.0 in (reply, (s', s.1 + 1, s.2));
  random_below = λ full s. let (n, s') = w.random_below full s.0 in (n, (s', s.1, s.2));
  random_below-lt = λ full s h. w.random_below-lt full s.0 h;
  random_below-zero = λ s. w.random_below-zero s.0;
  sleep = λ ms s. (w.sleep ms s.0, s.1, s.2 + ms);
  clock = w.clock;
}

module _ (js : Js) (world : World js.Number) (node : WorkflowNode js.Number)
    (context : RunContext js.Number) (max_attempts base : ℕ) where
  backoff-le :
      (attempt : ℕ) (s : world.State)
      → (jittered_backoff_ms js world attempt base s).0 ≤ base * 2 ^ (attempt - 1)
  unfolding jittered_backoff_ms
  backoff-le attempt s =
      let full = base * 2 ^ (attempt - 1) in
      elim (dec_lt 0 full) [
        | yes some_range ↦ omega (arith, world.random_below-lt full s some_range)
        | no empty ↦
            let none_left : full ≡ 0 = omega arith in
            omega (
              arith,
              world.random_below-zero s,
              ap (λ (n : ℕ). (world.random_below n s).0) none_left,
            )
      ]

  -- The ranges of the delays grow.
  range-le :
      (attempt : ℕ)
      → attempt ≤ max_attempts
      → base * 2 ^ (attempt - 1) ≤ base * 2 ^ (max_attempts - 1)
  range-le attempt h = mul-le-mul_left base (pow-le-pow_right (omega arith) (omega arith))

  range-twice :
      (attempt : ℕ)
      → 0 < attempt
      → base * 2 ^ (attempt + 1 - 1) ≡ base * 2 ^ (attempt - 1) + base * 2 ^ (attempt - 1)
  range-twice zero h = elim h [ ]
  range-twice (suc n) h =
      let index : suc n + 1 - 1 ≡ suc n = omega arith in
      let index' : suc n - 1 ≡ n = omega arith in rw (index, index', two-pow-succ) (omega arith)

  -- The calls and the waits from an attempt on.
  abbrev Counted : ℕ → ℕ → (observed world).State → Tried js (observed world) → Type 0
  Counted rounds attempt s x =
      0 < rounds
      → 0 < attempt
      → rounds + attempt ≡ max_attempts + 1
      → OnOutcome
          (λ o.
            (x.1.1 + attempt ≡ s.1 + o.step.attempt + 1)
            × (attempt ≤ o.step.attempt)
            × (o.step.attempt ≤ max_attempts))
          x.0
        × (x.1.2 + base * 2 ^ (attempt - 1) ≤ s.2 + base * 2 ^ (max_attempts - 1))

  grown :
      (attempt rounds waited : ℕ)
      → suc rounds + attempt ≡ max_attempts + 1
      → waited + base * 2 ^ (attempt - 1) ≤ waited + base * 2 ^ (max_attempts - 1)
  grown attempt rounds waited e = omega (arith, range-le attempt (omega arith))

  Counted-retry :
      (rounds attempt : ℕ) (s : (observed world).State) (delay : ℕ) (s' : world.State)
      (x : Tried js (observed world))
      → delay ≤ base * 2 ^ (attempt - 1)
      → attempt < max_attempts
      → Counted rounds (attempt + 1) (s', s.1 + 1, s.2 + delay) x
      → Counted (suc rounds) attempt s x
  Counted-retry rounds attempt s delay s' x short early ih h h' e =
      let (counts, waits) = ih (omega arith) (omega arith) (omega arith) in
      (
        OnOutcome-map _ _ x.0 (λ o c. (omega arith, omega arith, omega arith)) counts,
        omega (arith, waits, short, range-twice attempt h'),
      )

  Counted-rule : AttemptRule js (observed world) node context max_attempts base Counted
  unfolding jittered_backoff_ms
  Counted-rule = record {
    ends = λ attempt s t h. elim h [ ];
    uncloned = λ rounds attempt s t h h' e. (tt, grown attempt rounds s.2 e);
    succeeds = λ rounds attempt s t good h h' e.
        ((omega arith, omega arith, omega arith), grown attempt rounds s.2 e);
    gives_up = λ rounds attempt s t out bad h h' e.
        ((omega arith, omega arith, omega arith), grown attempt rounds s.2 e);
    retries = λ rounds attempt s bad early x ih.
        let after = (world.dispatch node context attempt s.0).1 in
        let drawn = jittered_backoff_ms js world attempt base after in
        Counted-retry rounds attempt s drawn.0 (world.sleep drawn.0 drawn.1) x
          (backoff-le attempt after) early ih;
  }

  abbrev unobserved : world.State → (observed world).State
  unobserved s = (s, 0, 0)

  -- With at least one attempt allowed, the record's attempt number is the number of calls of the
  -- dispatcher, and is at least 1 and at most the number allowed. The waits add up to at most
  -- `baseMs * (2 ^ (maxAttempts - 1) - 1)`.
  pub execute-counts :
      (s : world.State) (t : ℕ)
      → 0 < max_attempts
      → (o : ActionOutcome js.Number)
      → (execute_action_with_retry js
          (observed world)
          node
          context
          max_attempts
          base
          (unobserved s)
          t).0
        ≡ ok o
      → ((execute_action_with_retry js
            (observed world)
            node
            context
            max_attempts
            base
            (unobserved s)
            t).1.1
          ≡ o.step.attempt)
        × (1 ≤ o.step.attempt)
        × (o.step.attempt ≤ max_attempts)
        × ((execute_action_with_retry js
                (observed world)
                node
                context
                max_attempts
                base
                (unobserved s)
                t).1.2
              + base
            ≤ base * 2 ^ (max_attempts - 1))
  execute-counts s t some_allowed o e =
      let (counts, waits) =
        execute_ind js (observed world) node context max_attempts base Counted Counted-rule
          (unobserved s) t some_allowed (omega arith) (omega arith) in
      let one_unit : base * 2 ^ (1 - 1) ≡ base = omega arith in
      let counts' = subst (OnOutcome _) e counts in
      (
        omega (arith, counts'),
        omega (arith, counts'),
        omega (arith, counts'),
        omega (arith, waits, one_unit),
      )
