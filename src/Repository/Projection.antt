-- ===== src/Repository/Projection.antt =====
-- `syncGraphProjection`: the rows of triggers, actions and endpoints that a graph asks for.
use b2b_app.Prelude.{
  String, Bool, true, ◌&&◌, Option, none, some, List, [], ◌∷◌, if◌then◌else◌, str_eq, keep, Result,
  ok, err,
}
use b2b_app.Workflow.{WorkflowNode, WorkflowGraph, NodeConfig, TriggerConfig}
use b2b_app.Database.{Table}
use b2b_app.Secrets.{SecretError, Ciphers, KeySource, encrypt_secret}
use b2b_app.Repository.{
  Workflow, NodeRow, Endpoint, RepositoryError, Db, trigger_rows, action_rows, new_endpoint_slug,
}

-- What the functions take from outside: the cipher, the texts' functions, and for each key of a
-- trigger what is drawn for a new secret, its iv and a blank slug.
pub record Drawing (B : Type 0) : Type 0 where
  pub secret : String → String
  pub iv : String → B
  pub slug : String → String

pub record Outside : Type 1 where
  pub ciphers : Ciphers
  pub environment : KeySource ciphers.Bytes
  pub lower : String → String
  pub trim : String → String

-- new Map(endpoints.map((e) => [e.triggerKey, e])).get(key): the last endpoint of the key.
abbrev pub last_of : String → List Endpoint → Option Endpoint
last_of key [] = none
last_of key (e ∷ es) =
    let later = last_of key es in
    elim later [ some x ↦ some x | none ↦ if str_eq e.trigger_key key then some e else none ]

abbrev pub of_workflow : String → String → Endpoint → Bool
of_workflow org workflow e = str_eq e.workflow_id workflow && str_eq e.organization_id org

abbrev pub add_endpoint :
    Endpoint → Result SecretError (List Endpoint) → Result SecretError (List Endpoint)
add_endpoint e (err x) = err x
add_endpoint e (ok es) = ok (e ∷ es)

-- No result but an exception.
abbrev pub Done : Type 0
Done = Result {0, 0} RepositoryError Unit

abbrev pub then_create : {A : Type 0} → Option A → (A → Option A) → Option A
then_create none f = none
then_create (some s) f = f s

-- createMany: all of the rows, or none.
unfoldable pub create_all : {Row : Type 0} (t : Table Row) → List Row → t.State → Option t.State
create_all t [] s = some s
create_all t (r ∷ rs) s = then_create (t.create r s) (λ s'. create_all t rs s')

module _ (outside : Outside) where
  open outside use {ciphers, environment, lower, trim}

  -- The ciphertext and the iv: those of the existing endpoint, or a new secret's.
  abbrev pub secret_for :
      String
      → Option Endpoint
      → Drawing ciphers.Bytes
      → String
      → Result SecretError (String × String)
  secret_for org (some e) d key = ok (e.hmac_secret_ciphertext, e.hmac_secret_iv)
  secret_for org none d key =
      elim (encrypt_secret ciphers environment KeySource.absent org (d.iv key) (d.secret key)) [
        | ok ciphertext ↦ ok (ciphertext, "")
        | err x ↦ err x
      ]

  abbrev pub endpoint_with :
      String
      → String
      → String
      → String
      → Result SecretError (String × String)
      → Result SecretError (List Endpoint)
      → Result SecretError (List Endpoint)
  endpoint_with org workflow key slug (err x) rest = err x
  endpoint_with org workflow key slug (ok (ciphertext, iv)) rest =
      add_endpoint
        (record {
          organization_id = org;
          workflow_id = workflow;
          trigger_key = key;
          slug = slug;
          hmac_secret_ciphertext = ciphertext;
          hmac_secret_iv = iv;
          enabled = true;
        })
        rest

  -- One node of the loop over the triggers, before the rest of them.
  unfoldable pub endpoint_row :
      {N : Type 0}
      → String
      → String
      → List Endpoint
      → Drawing ciphers.Bytes
      → String
      → NodeConfig N
      → Result SecretError (List Endpoint)
      → Result SecretError (List Endpoint)
  endpoint_row org workflow existing d key (NodeConfig.trigger (TriggerConfig.webhook slug)) rest =
      endpoint_with org workflow key (new_endpoint_slug lower trim (d.slug key) slug)
        (secret_for org (last_of key existing) d key) rest
  endpoint_row org workflow existing d key (NodeConfig.trigger (TriggerConfig.schedule c z)) rest =
      rest
  endpoint_row org workflow existing d key (NodeConfig.trigger (TriggerConfig.app_event n)) rest =
      rest
  endpoint_row org workflow existing d key (NodeConfig.filter c) rest = rest
  endpoint_row org workflow existing d key (NodeConfig.transform c) rest = rest
  endpoint_row org workflow existing d key (NodeConfig.action c) rest = rest

  unfoldable pub endpoint_rows :
      {N : Type 0}
      → String
      → String
      → List Endpoint
      → Drawing ciphers.Bytes
      → List (WorkflowNode N)
      → Result SecretError (List Endpoint)
  endpoint_rows org workflow existing d [] = ok []
  endpoint_rows org workflow existing d (n ∷ nodes) =
      endpoint_row org workflow existing d n.key n.config
        (endpoint_rows org workflow existing d nodes)

  module _ {N : Type 0} (workflows : Table (Workflow N)) (triggers actions : Table (NodeRow N))
      (endpoints : Table Endpoint) where
    abbrev pub S : Type 0
    S = Db workflows.State triggers.State actions.State endpoints.State

    -- The end of the projection: `none` is an endpoint that the database refuses.
    abbrev pub store_endpoints : Option endpoints.State → S → Done × S
    store_endpoints none db = (err RepositoryError.refused, db)
    store_endpoints (some s) db = (ok tt, record db { endpoints = s })

    abbrev pub replace_endpoints :
        String → String → Result SecretError (List Endpoint) → S → Done × S
    replace_endpoints org workflow (err x) db = (err (RepositoryError.secret_error x), db)
    replace_endpoints org workflow (ok rows) db =
        let s = (endpoints.delete_many (of_workflow org workflow) db.endpoints).1 in
        store_endpoints (create_all endpoints rows s) (record db { endpoints = s })

    abbrev pub existing_endpoints : String → String → S → List Endpoint
    existing_endpoints org workflow db =
        keep (of_workflow org workflow) (endpoints.rows db.endpoints)

    abbrev pub sync_endpoints :
        String → String → List (WorkflowNode N) → Drawing ciphers.Bytes → S → Done × S
    sync_endpoints org workflow nodes d db =
        replace_endpoints org workflow
          (endpoint_rows org workflow (existing_endpoints org workflow db) d nodes) db

    abbrev pub of_nodes : String → NodeRow N → Bool
    of_nodes workflow r = str_eq r.workflow_id workflow

    unfoldable pub with_actions :
        String
        → String
        → List (WorkflowNode N)
        → Drawing ciphers.Bytes
        → Option actions.State
        → S
        → Done × S
    with_actions org workflow nodes d none db = (err RepositoryError.refused, db)
    with_actions org workflow nodes d (some s) db =
        sync_endpoints org workflow nodes d (record db { actions = s })

    abbrev pub sync_actions :
        String → String → List (WorkflowNode N) → Drawing ciphers.Bytes → S → Done × S
    sync_actions org workflow nodes d db =
        let s = (actions.delete_many (of_nodes workflow) db.actions).1 in
        with_actions org workflow nodes d (create_all actions (action_rows org workflow nodes) s)
          (record db { actions = s })

    unfoldable pub with_triggers :
        String
        → String
        → List (WorkflowNode N)
        → Drawing ciphers.Bytes
        → Option triggers.State
        → S
        → Done × S
    with_triggers org workflow nodes d none db = (err RepositoryError.refused, db)
    with_triggers org workflow nodes d (some s) db =
        sync_actions org workflow nodes d (record db { triggers = s })

    -- syncGraphProjection. What was changed before an exception stays, where no transaction takes
    -- it back.
    unfoldable pub sync_graph_projection :
        String → String → WorkflowGraph N → Drawing ciphers.Bytes → S → Done × S
    sync_graph_projection org workflow graph d db =
        let s = (triggers.delete_many (of_nodes workflow) db.triggers).1 in
        with_triggers org workflow graph.nodes d
          (create_all triggers (trigger_rows org workflow graph.nodes) s)
          (record db { triggers = s })
