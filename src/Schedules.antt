-- ===== src/Schedules.antt =====
-- lib/scheduler.ts: the ids of schedules, and what the queue's job schedulers come to.
pub mod Ids
pub mod Reconciliation
mod Tests
use Prim.Native.String
use b2b_app.Prelude.{
  ℕ, ◌+◌, ◌≡◌, String, Bool, true, false, not, ◌&&◌, Option, none, some, List, [], ◌∷◌, ◌++◌,
  if◌then◌else◌, str_eq, length, keep, mem, put, Result, map,
}
use b2b_app.Prelude.Texts.{◌+++◌, after_prefix, split}
use b2b_app.Json.{Value}
use b2b_app.Workflow.{WorkflowNode, WorkflowGraph, NodeConfig, TriggerConfig, trigger, schedule}
use b2b_app.Graph.{GraphError}
use b2b_app.Schema.{safe_parse, valid_of}
use b2b_app.Execute.{WorkflowRow}

abbrev pub schedule_prefix : String
schedule_prefix = "scr:"

-- ScheduleJobData
pub record ScheduleJobData : Type 0 where
  pub organization_id : String
  pub workflow_id : String
  pub trigger_key : String
  pub cron : String
  pub timezone : String

-- What a job scheduler was registered with: the pattern, the name of its jobs and their data.
pub record Registration : Type 0 where
  pub pattern : String
  pub tz : String
  pub name : String
  pub payload : ScheduleJobData

abbrev pub is_some : {A : Type 0} → Option A → Bool
is_some none = false
is_some (some a) = true

-- BullMQ's job schedulers: at most one registration for a key.
pub record Schedulers : Type 1 where
  pub State : Type 0
  pub entry : State → String → Option Registration
  pub keys : State → List String
  pub upsert : String → Registration → State → State
  pub remove : String → State → State
  pub mem-keys : (j : String) (s : State) → mem j (keys s) ≡ is_some (entry s j)
  pub entry-upsert :
      (j k : String) (e : Registration) (s : State)
      → entry (upsert k e s) j ≡ (if str_eq k j then some e else entry s j)
  pub entry-remove :
      (j k : String) (s : State) → entry (remove k s) j ≡ (if str_eq k j then none else entry s j)

-- scheduleIdFor
unfoldable pub schedule_id_for : String → String → String → String
schedule_id_for org workflow key =
    schedule_prefix +++ (org +++ (":" +++ (workflow +++ (":" +++ key))))

unfoldable pub three_parts : List String → Option ScheduleJobData
three_parts (org ∷ workflow ∷ key ∷ []) = some (record {
  organization_id = org;
  workflow_id = workflow;
  trigger_key = key;
  cron = "";
  timezone = "";
})
three_parts _ = none

unfoldable pub parse_rest : Option String → Option ScheduleJobData
parse_rest none = none
parse_rest (some rest) = three_parts (split b':' rest)

-- parseScheduleId
unfoldable pub parse_schedule_id : String → Option ScheduleJobData
parse_schedule_id id = parse_rest (after_prefix schedule_prefix id)

abbrev pub has_prefix : String → Bool
has_prefix k = is_some (after_prefix schedule_prefix k)

abbrev pub add_id : String → List String → List String
add_id k ks = if mem k ks then ks else ks ++ k ∷ []

abbrev pub is_stale : List String → String → Bool
is_stale desired k = has_prefix k && not (mem k desired)

abbrev pub active_rows : {N : Type 0} → List (WorkflowRow N) → List (WorkflowRow N)
active_rows ws = keep (λ w. str_eq w.status "active") ws

module _ {N : Type 0} where
  -- The id and the registration of a node, where it is a trigger of the subtype "schedule".
  unfoldable pub registration_for :
      String → String → String → NodeConfig N → Option (String × Registration)
  registration_for org workflow key (NodeConfig.trigger (TriggerConfig.schedule cron timezone)) =
      let id = schedule_id_for org workflow key in
      some (
        id,
        record {
          pattern = cron;
          tz = timezone;
          name = "schedule:" +++ id;
          payload = record {
            organization_id = org;
            workflow_id = workflow;
            trigger_key = key;
            cron = cron;
            timezone = timezone;
          };
        },
      )
  registration_for org workflow key (NodeConfig.trigger (TriggerConfig.webhook slug)) = none
  registration_for org workflow key (NodeConfig.trigger (TriggerConfig.app_event name)) = none
  registration_for org workflow key (NodeConfig.filter c) = none
  registration_for org workflow key (NodeConfig.transform c) = none
  registration_for org workflow key (NodeConfig.action c) = none

  abbrev pub registration_of : String → String → WorkflowNode N → Option (String × Registration)
  registration_of org workflow node = registration_for org workflow node.key node.config

module _ {N : Type 0} (parse : Value N → Result (List String) (WorkflowGraph N))
    (explain : List String → List GraphError → String) where
  -- safeParseWorkflowGraph, where it succeeds.
  abbrev pub graph_of : Value N → Option (WorkflowGraph N)
  graph_of v = valid_of parse explain (safe_parse parse explain v)

pub record Reconciled : Type 0 where
  pub expected : ℕ
  pub found : ℕ
  pub upserted : ℕ
  pub removed : ℕ

-- What the loops of `refreshAllSchedules` and `reconcileSchedules` carry: the queue, the set of ids
-- and the count of the calls.
pub record Progress (S : Type 0) : Type 0 where
  pub state : S
  pub desired : List String
  pub upserted : ℕ

module _ (queue : Schedulers) where
  open queue use {State, keys, upsert, remove}

  abbrev pub upsert_entry : Option (String × Registration) → Progress State → Progress State
  upsert_entry none p = p
  upsert_entry (some (id, e)) p = record {
    state = upsert id e p.state;
    desired = add_id id p.desired;
    upserted = p.upserted + 1;
  }

  -- The loop over the nodes of one workflow.
  unfoldable pub upsert_nodes :
      {N : Type 0} → String → String → List (WorkflowNode N) → Progress State → Progress State
  upsert_nodes org workflow [] p = p
  upsert_nodes org workflow (node ∷ nodes) p =
      upsert_nodes org workflow nodes (upsert_entry (registration_of org workflow node) p)

  unfoldable pub remove_all : List String → State → State
  remove_all [] s = s
  remove_all (k ∷ ks) s = remove_all ks (remove k s)

  -- removeWorkflowSchedules
  unfoldable pub remove_workflow_schedules : String → String → State → State
  remove_workflow_schedules org workflow s =
      let start = schedule_prefix +++ (org +++ (":" +++ (workflow +++ ":"))) in
      remove_all (keep (λ k. is_some (after_prefix start k)) (keys s)) s

  module _ {N : Type 0} (parse : Value N → Result (List String) (WorkflowGraph N))
      (explain : List String → List GraphError → String) where
    abbrev pub upsert_graph :
        String → String → Option (WorkflowGraph N) → Progress State → Progress State
    upsert_graph org workflow none p = p
    upsert_graph org workflow (some g) p = upsert_nodes org workflow g.nodes p

    -- reconfigureWorkflowSchedule
    unfoldable pub reconfigure_workflow_schedule : String → String → Value N → State → State
    reconfigure_workflow_schedule org workflow graph s =
        (upsert_graph org workflow (graph_of parse explain graph)
          (record { state = s; desired = []; upserted = 0 })).state

    -- The loop over the active workflows.
    unfoldable pub upsert_rows : List (WorkflowRow N) → Progress State → Progress State
    upsert_rows [] p = p
    upsert_rows (w ∷ ws) p =
        upsert_rows ws (upsert_graph w.organization_id w.id (graph_of parse explain w.graph) p)

    abbrev pub upsert_active : List (WorkflowRow N) → State → Progress State
    upsert_active ws s =
        upsert_rows (active_rows ws) (record { state = s; desired = []; upserted = 0 })

    -- refreshAllSchedules
    unfoldable pub refresh_all_schedules : List (WorkflowRow N) → State → ℕ × State
    refresh_all_schedules ws s = let p = upsert_active ws s in (p.upserted, p.state)

    -- reconcileSchedules
    unfoldable pub reconcile_schedules : List (WorkflowRow N) → State → Reconciled × State
    reconcile_schedules ws s =
        let p = upsert_active ws s in
        let existing = keys p.state in
        let stale = keep (is_stale p.desired) existing in
        (
          record {
            expected = length p.desired;
            found = length (keep has_prefix existing);
            upserted = p.upserted;
            removed = length stale;
          },
          remove_all stale p.state,
        )
