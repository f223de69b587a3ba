-- ===== src/Schedules/Tests.antt =====
-- Schedules over job schedulers that are a list of registrations.
use b2b_app.Prelude.{
  ℕ, ◌≡◌, refl, String, Result, ok, Option, none, some, List, [], ◌∷◌, map, if◌then◌else◌, str_eq,
  mem, arith, eq_iff,
}
use b2b_app.Json.{Value}
use b2b_app.Workflow.{WorkflowNode, WorkflowGraph, TriggerConfig, trigger}
use b2b_app.Execute.Samples.{explain, workflows, send, edge}
use b2b_app.Schema.{safe_parse, check_fields, check_graph}
use b2b_app.Graph.{program}
use b2b_app.Schedules.{
  remove_all, upsert_rows, upsert_nodes, registration_for, Registration, Schedulers, is_some,
  has_prefix, schedule_id_for, parse_schedule_id, reconcile_schedules, active_rows,
}
use b2b_app.Schedules.Ids.{parse_schedule_id-schedule_id_for}
use b2b_app.Schedules.Reconciliation.{reconcile_schedules-planned, planned, plan_rows}

abbrev Entries : Type 0
Entries = List (String × Registration)

abbrev look : Entries → String → Option Registration
look [] k = none
look ((i, e) ∷ s) k = if str_eq i k then some e else look s k

abbrev drop : String → Entries → Entries
drop k [] = []
drop k ((i, e) ∷ s) = let rest = drop k s in if str_eq k i then rest else (i, e) ∷ rest

mem-look : (j : String) (s : Entries) → mem j (map (λ x. x.0) s) ≡ is_some (look s j)
mem-look j [] = refl
mem-look j ((i, e) ∷ s) = ground (arith, mem-look j s, eq_iff i j, eq_iff j i)

look-drop :
    (j k : String) (s : Entries) → look (drop k s) j ≡ (if str_eq k j then none else look s j)
look-drop j k [] = ground arith
look-drop j k ((i, e) ∷ s) = ground (arith, look-drop j k s, eq_iff k i, eq_iff i j, eq_iff k j)

look-put :
    (j k : String) (e : Registration) (s : Entries)
    → look ((k, e) ∷ drop k s) j ≡ (if str_eq k j then some e else look s j)
look-put j k e s = ground (arith, look-drop j k s)

abbrev listed : Schedulers
listed = record {
  State = Entries;
  entry = look;
  keys = λ s. map (λ x. x.0) s;
  upsert = λ k e s. (k, e) ∷ drop k s;
  remove = drop;
  mem-keys = mem-look;
  entry-upsert = look-put;
  entry-remove = look-drop;
}

parse_schedule_id-schedule_id_for_example :
    parse_schedule_id (schedule_id_for "o" "w" "start")
    ≡ some (record {
      organization_id = "o";
      workflow_id = "w";
      trigger_key = "start";
      cron = "";
      timezone = "";
    })
parse_schedule_id-schedule_id_for_example =
    parse_schedule_id-schedule_id_for "o" "w" "start" refl refl refl

abbrev old : Registration
old = record {
  pattern = "* * * * *";
  tz = "UTC";
  name = "old";
  payload = record {
    organization_id = "o";
    workflow_id = "w";
    trigger_key = "gone";
    cron = "* * * * *";
    timezone = "UTC";
  };
}

abbrev before : Entries
before = ("scr:o:w:gone", old) ∷ ("other", old) ∷ []

-- A workflow that starts at every hour, whose schedule is not registered yet.
abbrev hourly : WorkflowNode ℕ
hourly = record {
  key = "start";
  label = none;
  config = trigger (TriggerConfig.schedule "0 * * * *" "UTC");
}

abbrev hourly_graph : WorkflowGraph ℕ
hourly_graph = record { nodes = hourly ∷ send "late" ∷ []; edges = edge "start" "late" ∷ [] }

abbrev parse_hourly : Value ℕ → Result (List String) (WorkflowGraph ℕ)
parse_hourly v = ok hourly_graph

registered :
    look (reconcile_schedules listed parse_hourly explain workflows before).1 "scr:o:w:start"
    ≡ some (record {
      pattern = "0 * * * *";
      tz = "UTC";
      name = "schedule:scr:o:w:start";
      payload = record {
        organization_id = "o";
        workflow_id = "w";
        trigger_key = "start";
        cron = "0 * * * *";
        timezone = "UTC";
      };
    })
unfolding program reconcile_schedules remove_all upsert_rows upsert_nodes registration_for
    schedule_id_for safe_parse check_fields check_graph
registered = refl

reconcile_schedules-planned_example :
    look (reconcile_schedules listed parse_hourly explain workflows before).1 "scr:o:w:start" ≡ (
      if has_prefix "scr:o:w:start"
      then planned
          (plan_rows parse_hourly explain (active_rows workflows))
          (λ i. none)
          "scr:o:w:start"
      else look before "scr:o:w:start")
reconcile_schedules-planned_example =
    reconcile_schedules-planned listed parse_hourly explain workflows before "scr:o:w:start"
