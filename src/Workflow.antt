-- ===== src/Workflow.antt =====
-- lib/dag/schema.ts: the types that the zod schemas infer. `N` stands for the numbers of a payload.
use b2b_app.Prelude.{ℕ, String, Option, List}
use b2b_app.Json.{Value}

pub data TriggerConfig : Type 0 where
  webhook : (endpoint_slug : String) → TriggerConfig
  schedule : (cron timezone : String) → TriggerConfig
  app_event : (event_name : String) → TriggerConfig

pub data FilterOperator : Type 0 where
  eq neq gt gte lt lte exists not_exists contains starts_with ends_with regex : FilterOperator

-- An absent `value` is the value `undefined`.
pub record FilterCondition (N : Type 0) : Type 0 where
  pub path : String
  pub operator : FilterOperator
  pub value : Value N

pub data FilterMode : Type 0 where
  all_of any_of : FilterMode

pub record FilterConfig (N : Type 0) : Type 0 where
  pub mode : FilterMode
  pub conditions : List (FilterCondition N)

pub record TransformMapping : Type 0 where
  pub source : String
  pub target : String

pub record TransformConfig : Type 0 where
  pub mappings : List TransformMapping

pub data AuthConfig : Type 0 where
  no_auth : AuthConfig
  bearer : (token_template : String) → AuthConfig
  bearer_credential : (credential_id : String) → AuthConfig
  basic : (username_template password_template : String) → AuthConfig
  api_key : (name value_template : String) → AuthConfig

pub record HttpHeader : Type 0 where
  pub name : String
  pub value : String

pub data HttpMethod : Type 0 where
  get post put patch delete : HttpMethod

pub record HttpAction (N : Type 0) : Type 0 where
  pub method : HttpMethod
  pub url : String
  pub headers : List HttpHeader
  pub auth : AuthConfig
  pub payload : Option (List (String × Value N))
  pub timeout_ms : ℕ

pub record SlackAction : Type 0 where
  pub credential_id : String
  pub text : String
  pub channel : Option String

pub record DiscordAction : Type 0 where
  pub credential_id : String
  pub content : String
  pub username : Option String

pub record SendgridAction : Type 0 where
  pub credential_id : String
  pub sender : String
  pub to : List String
  pub subject : String
  pub text_template : String
  pub html_template : Option String

pub record HubspotProperty : Type 0 where
  pub name : String
  pub value_template : String

pub record HubspotAction : Type 0 where
  pub credential_id : String
  pub object_type : String
  pub properties : List HubspotProperty

pub data ActionConfig (N : Type 0) : Type 0 where
  http : HttpAction N → ActionConfig N
  slack : SlackAction → ActionConfig N
  discord : DiscordAction → ActionConfig N
  sendgrid : SendgridAction → ActionConfig N
  hubspot : HubspotAction → ActionConfig N

-- A node's `type` and its `config`.
pub data NodeConfig (N : Type 0) : Type 0 where
  trigger : TriggerConfig → NodeConfig N
  filter : FilterConfig N → NodeConfig N
  transform : TransformConfig → NodeConfig N
  action : ActionConfig N → NodeConfig N

pub record WorkflowNode (N : Type 0) : Type 0 where
  pub key : String
  pub label : Option String
  pub config : NodeConfig N

pub record WorkflowEdge : Type 0 where
  pub source : String
  pub target : String

pub record WorkflowGraph (N : Type 0) : Type 0 where
  pub nodes : List (WorkflowNode N)
  pub edges : List WorkflowEdge
