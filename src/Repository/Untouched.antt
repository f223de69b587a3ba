-- ===== src/Repository/Untouched.antt =====
-- The projection of a graph and the audit leave the workflows alone.
use b2b_app.Prelude.{◌≡◌, refl, String, Option, none, some, List, Result, ok, err}
use b2b_app.Workflow.{WorkflowNode, WorkflowGraph}
use b2b_app.Database.{Table}
use b2b_app.Secrets.{SecretError}
use b2b_app.Repository.{Workflow, NodeRow, Endpoint}
use b2b_app.Repository.Projection.{
  Outside, Drawing, Done, sync_graph_projection, with_triggers, with_actions, replace_endpoints,
  store_endpoints,
}
use b2b_app.Repository.Service.{Storing, conclude, audited_as}
use b2b_app.Repository.Activation.{Store}

module _ (outside : Outside) {N : Type 0} (storing : Storing N) (workflows : Table (Workflow N))
    (triggers actions : Table (NodeRow N)) (endpoints : Table Endpoint) where
  abbrev D : Type 0
  D = Store outside storing workflows triggers actions endpoints

  -- The projection leaves the workflows alone.
  stored_workflows :
      (o : Option endpoints.State) (db : D)
      → (store_endpoints outside workflows triggers actions endpoints o db).1.workflows
        ≡ db.workflows
  stored_workflows none db = refl
  stored_workflows (some s) db = refl

  replaced_workflows :
      (org workflow : String) (r : Result SecretError (List Endpoint)) (db : D)
      → (replace_endpoints outside workflows triggers actions endpoints org workflow r
          db).1.workflows
        ≡ db.workflows
  replaced_workflows org workflow (err x) db = refl
  replaced_workflows org workflow (ok rows) db = stored_workflows _ _

  acted_workflows :
      (org workflow : String) (nodes : List (WorkflowNode N)) (d : Drawing outside.ciphers.Bytes)
      (o : Option actions.State) (db : D)
      → (with_actions outside workflows triggers actions endpoints org workflow nodes d o
          db).1.workflows
        ≡ db.workflows
  unfolding with_actions
  acted_workflows org workflow nodes d none db = refl
  acted_workflows org workflow nodes d (some s) db = replaced_workflows org workflow _ _

  triggered_workflows :
      (org workflow : String) (nodes : List (WorkflowNode N)) (d : Drawing outside.ciphers.Bytes)
      (o : Option triggers.State) (db : D)
      → (with_triggers outside workflows triggers actions endpoints org workflow nodes d o
          db).1.workflows
        ≡ db.workflows
  unfolding with_triggers
  triggered_workflows org workflow nodes d none db = refl
  triggered_workflows org workflow nodes d (some s) db = acted_workflows org workflow nodes d _ _

  pub workflows-sync :
      (org workflow : String) (g : WorkflowGraph N) (d : Drawing outside.ciphers.Bytes) (db : D)
      → (sync_graph_projection outside workflows triggers actions endpoints org workflow g d
          db).1.workflows
        ≡ db.workflows
  unfolding sync_graph_projection
  workflows-sync org workflow g d db = triggered_workflows org workflow g.nodes d _ _

  pub workflows-audited_as :
      (org action id : String) (actor : Option String) (db : D)
      → (audited_as outside storing workflows triggers actions endpoints org actor action id
          db).workflows
        ≡ db.workflows
  workflows-audited_as org action id none db = refl
  workflows-audited_as org action id (some a) db = refl

  pub workflows-conclude :
      (org action id : String) (actor : Option String) (r : Done × D)
      → (conclude outside storing workflows triggers actions endpoints org action actor id
          r).1.workflows
        ≡ r.1.workflows
  workflows-conclude org action id actor (err e, db) = refl
  workflows-conclude org action id actor (ok u, db) = workflows-audited_as org action id actor db
