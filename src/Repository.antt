-- ===== src/Repository.antt =====
-- lib/data/workflows.ts: the rows of workflows, of their triggers and actions, and of the endpoints
-- of their webhook triggers.
pub mod Projection
pub mod Service
pub mod Endpoints
pub mod Saving
pub mod Rows
pub mod Untouched
pub mod Preserved
pub mod Reachable
pub mod Activation
mod Tests
use Prim.Native.Char.{code}
use Prim.Native.String
use b2b_app.Prelude.{
  ℕ, zero, suc, ◌+◌, String, Bool, true, false, ◌&&◌, ◌||◌, not, Option, none, some, List, [], ◌∷◌,
  ◌++◌, map, if◌then◌else◌, leb, str_eq, ◌==◌,
}
use b2b_app.Json.{Value}
use b2b_app.Workflow.{WorkflowNode, NodeConfig, TriggerConfig, ActionConfig}
use b2b_app.Invitations.{AuditEvent}
use b2b_app.Secrets.{SecretError}
use b2b_app.Accounts.Recovery.{first_chars, no_last_dash}

-- `graph` is the stored JSON.
pub record Workflow (N : Type 0) : Type 0 where
  pub id : String
  pub organization_id : String
  pub name : String
  pub description : Option String
  pub status : String
  pub graph : Value N
  pub version : ℕ
  pub created_by : Option String

-- A row of the triggers or of the actions.
pub record NodeRow (N : Type 0) : Type 0 where
  pub organization_id : String
  pub workflow_id : String
  pub node_key : String
  pub kind : String
  pub config : NodeConfig N

pub record Endpoint : Type 0 where
  pub organization_id : String
  pub workflow_id : String
  pub trigger_key : String
  pub slug : String
  pub hmac_secret_ciphertext : String
  pub hmac_secret_iv : String
  pub enabled : Bool

pub data WorkflowStatus : Type 0 where
  draft active paused : WorkflowStatus

-- What is thrown: the class WorkflowRepositoryError, the errors of the encryption, and the refusal
-- of a row by the database.
pub data RepositoryError : Type 0 where
  not_found : RepositoryError
  invalid_graph : String → RepositoryError
  secret_error : SecretError → RepositoryError
  refused : RepositoryError

pub record SaveWorkflowInput (N : Type 0) : Type 0 where
  pub name : String
  pub description : Option String
  pub graph : Value N
  pub bump_version : Bool

pub record Db (W T A E : Type 0) : Type 0 where
  pub workflows : W
  pub triggers : T
  pub actions : A
  pub endpoints : E
  pub audit : List AuditEvent

abbrev pub status_text : WorkflowStatus → String
status_text draft = "draft"
status_text active = "active"
status_text paused = "paused"

abbrev pub trigger_subtype : TriggerConfig → String
trigger_subtype (TriggerConfig.webhook slug) = "webhook"
trigger_subtype (TriggerConfig.schedule cron timezone) = "schedule"
trigger_subtype (TriggerConfig.app_event name) = "app_event"

abbrev pub action_subtype : {N : Type 0} → ActionConfig N → String
action_subtype (ActionConfig.http a) = "http"
action_subtype (ActionConfig.slack a) = "slack"
action_subtype (ActionConfig.discord a) = "discord"
action_subtype (ActionConfig.sendgrid a) = "sendgrid"
action_subtype (ActionConfig.hubspot a) = "hubspot"

-- The row of a node, where it is a trigger, and where it is an action.
abbrev pub trigger_row : {N : Type 0} → String → String → String → NodeConfig N → List (NodeRow N)
trigger_row org workflow key (NodeConfig.trigger c) =
    (record {
      organization_id = org;
      workflow_id = workflow;
      node_key = key;
      kind = trigger_subtype c;
      config = NodeConfig.trigger c;
    })
    ∷ []
trigger_row org workflow key (NodeConfig.filter c) = []
trigger_row org workflow key (NodeConfig.transform c) = []
trigger_row org workflow key (NodeConfig.action c) = []

abbrev pub action_row : {N : Type 0} → String → String → String → NodeConfig N → List (NodeRow N)
action_row org workflow key (NodeConfig.action c) =
    (record {
      organization_id = org;
      workflow_id = workflow;
      node_key = key;
      kind = action_subtype c;
      config = NodeConfig.action c;
    })
    ∷ []
action_row org workflow key (NodeConfig.trigger c) = []
action_row org workflow key (NodeConfig.filter c) = []
action_row org workflow key (NodeConfig.transform c) = []

abbrev pub trigger_rows : {N : Type 0} → String → String → List (WorkflowNode N) → List (NodeRow N)
trigger_rows org workflow [] = []
trigger_rows org workflow (n ∷ nodes) =
    trigger_row org workflow n.key n.config ++ trigger_rows org workflow nodes

abbrev pub action_rows : {N : Type 0} → String → String → List (WorkflowNode N) → List (NodeRow N)
action_rows org workflow [] = []
action_rows org workflow (n ∷ nodes) =
    action_row org workflow n.key n.config ++ action_rows org workflow nodes

-- .replace(/[^a-z0-9]+/g, "-"), where `inside` tells that a run has begun.
abbrev pub is_slug_char : ℕ → Bool
is_slug_char n = (leb b'a' n && leb n b'z') || (leb b'0' n && leb n b'9')

abbrev pub dash_runs : Bool → String → String
dash_runs inside String.[] = ""
dash_runs inside (String.◌∷◌ c s) =
    let rest = dash_runs (not (is_slug_char (code c))) s in
    if is_slug_char (code c)
    then String.◌∷◌ c rest
    else if inside
    then rest
    else String.◌∷◌ "-" rest

-- .replace(/(^-|-$)/g, "")
abbrev pub trim_dashes : String → String
trim_dashes String.[] = ""
trim_dashes (String.◌∷◌ c s) =
    if code c == b'-' then no_last_dash s else no_last_dash (String.◌∷◌ c s)

-- slugify
abbrev pub slugify : (String → String) → (String → String) → String → String
slugify lower trim value = first_chars 63 (trim_dashes (dash_runs false (trim (lower value))))

-- newEndpointSlug, with the text that is drawn where the slug is blank.
abbrev pub new_endpoint_slug : (String → String) → (String → String) → String → String → String
new_endpoint_slug lower trim drawn value =
    if str_eq (trim value) "" then drawn else slugify lower trim value
