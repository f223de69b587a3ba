-- ===== src/Worker/Timed.antt =====
-- What a worker does with the jobs of the schedules that `lib/scheduler.ts` registers.
use Prim.Native.Char.{Char, code}
use mathlib.Core.Path.{subst}
use text.Mathlib.TextLemmas.{cons-append}
use b2b_app.Prelude.{
  ℕ, ◌≡◌, ◌≢◌, ◌∙◌, refl, sym, ap, String, false, none, some, List, arith, Result, ok, eq_iff,
  str_eq, ◌==◌, Bool-cases, inl, inr,
}
use b2b_app.Prelude.Texts.{◌+++◌, after_prefix}
use b2b_app.Json.{Value, Js}
use b2b_app.Workflow.{WorkflowGraph, NodeConfig, TriggerConfig}
use b2b_app.Graph.{GraphError}
use b2b_app.Database.{Table}
use b2b_app.Runner.Steps.{World}
use b2b_app.Execute.{WorkflowRow, RunRow}
use b2b_app.Schedules.{
  Registration, schedule_prefix, schedule_id_for, registration_for, parse_rest, parse_schedule_id,
}
use b2b_app.Worker.{timed, unknown_schedule, S, parse_name, run_schedule, process_job}

no_prefix :
    (c : Char) (org rest : String)
    → code c ≢ b's'
    → after_prefix schedule_prefix (String.◌∷◌ c org +++ rest) ≡ none
no_prefix c org rest other =
    let miss : (b's' == code c) ≡ false = ground arith in rw (cons-append c org rest, miss) refl

-- The worker reads no schedule from the data of a registration.
unread :
    (name org workflow key cron timezone : String) (c : Char) (rest : String)
    → org ≡ String.◌∷◌ c rest
    → code c ≢ b's'
    → workflow ≢ ""
    → parse_name name (
        some (record {
          organization_id = org;
          workflow_id = workflow;
          trigger_key = key;
          cron = cron;
          timezone = timezone;
        }))
      ≡ none
unfolding parse_name parse_schedule_id parse_rest
unread name org workflow key cron timezone c rest first other filled =
    let set_org : str_eq org "" ≡ false = elim (Bool-cases (str_eq org "")) [
      | inl e ↦ let empty : String.◌∷◌ c rest ≡ "" = sym first ∙ (eq_iff org "").0 e in cc
      | inr e ↦ e
    ] in
    let set_workflow : str_eq workflow "" ≡ false = ground (arith, eq_iff workflow "") in
    rw (set_org, set_workflow)
      (ap (λ o. parse_schedule_id (o +++ (":" +++ (workflow +++ (":" +++ key))))) first
        ∙ ap parse_rest (no_prefix c rest (":" +++ (workflow +++ (":" +++ key))) other))

module _ (js : Js) (world : World js.Number) (runs : Table (RunRow js.Number))
    (workflows : List (WorkflowRow js.Number))
    (parse : Value js.Number → Result (List String) (WorkflowGraph js.Number))
    (explain : List String → List GraphError → String)
    (derive : String → String → String → ℕ → String) where
  -- Every job of a registered schedule is answered `unknown_schedule`, and changes nothing, where the
  -- organization's id does not begin with "s" and the workflow's id is not empty: the worker reads
  -- the id without the prefix "scr:".
  pub process_job_unknown :
      (org workflow key : String) (config : NodeConfig js.Number) (id : String) (r : Registration)
      (c : Char) (rest : String)
      → registration_for org workflow key config ≡ some (id, r)
      → org ≡ String.◌∷◌ c rest
      → code c ≢ b's'
      → workflow ≢ ""
      → (event_id run_id : String) (now : ℕ) (db : S js world runs workflows parse explain derive)
      → process_job js world runs workflows parse explain derive
          (timed r.name (some r.payload))
          event_id
          run_id
          now
          db
        ≡ some (ok unknown_schedule, db)
  unfolding process_job run_schedule registration_for
  process_job_unknown org workflow key (NodeConfig.trigger (TriggerConfig.schedule cron timezone))
        id r c rest e first other filled event_id run_id now db =
      let R : Registration = record {
        pattern = cron;
        tz = timezone;
        name = "schedule:" +++ schedule_id_for org workflow key;
        payload = record {
          organization_id = org;
          workflow_id = workflow;
          trigger_key = key;
          cron = cron;
          timezone = timezone;
        };
      } in
      let same : R ≡ r = cc in
      subst
        (λ q.
          process_job js world runs workflows parse explain derive (timed q.name (some q.payload))
            event_id run_id now db
          ≡ some (ok unknown_schedule, db))
        same
        (ap
          (λ o. run_schedule js world runs workflows parse explain derive o event_id run_id now db)
          (unread ("schedule:" +++ schedule_id_for org workflow key) org workflow key cron timezone
            c rest first other filled))
  process_job_unknown org workflow key (NodeConfig.trigger (TriggerConfig.webhook slug)) id r c rest
        e first other filled event_id run_id now db =
      cc
  process_job_unknown org workflow key (NodeConfig.trigger (TriggerConfig.app_event name)) id r c
        rest e first other filled event_id run_id now db =
      cc
  process_job_unknown org workflow key (NodeConfig.filter k) id r c rest e first other filled
        event_id run_id now db =
      cc
  process_job_unknown org workflow key (NodeConfig.transform k) id r c rest e first other filled
        event_id run_id now db =
      cc
  process_job_unknown org workflow key (NodeConfig.action k) id r c rest e first other filled
        event_id run_id now db =
      cc
