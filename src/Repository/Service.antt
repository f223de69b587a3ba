-- ===== src/Repository/Service.antt =====
-- The operations of lib/data/workflows.ts that change the tables.
use b2b_app.Prelude.{
  ◌+◌, String, Bool, ◌&&◌, ◌||◌, not, Option, none, some, List, [], ◌∷◌, ◌++◌, if◌then◌else◌,
  str_eq, Result, ok, err,
}
use b2b_app.Json.{Value}
use b2b_app.Workflow.{WorkflowGraph}
use b2b_app.Graph.{GraphError}
use b2b_app.Schema.{safe_parse}
use b2b_app.Database.{Table}
use b2b_app.Repository.{
  Workflow, NodeRow, Endpoint, WorkflowStatus, status_text, RepositoryError, SaveWorkflowInput,
}
use b2b_app.Repository.Projection.{Outside, Drawing, S, sync_graph_projection, of_nodes, Done}

-- JSON values of graphs: the one that stores a graph, and JSON.stringify(a) === JSON.stringify(b).
pub record Storing (N : Type 0) : Type 0 where
  pub parse : Value N → Result (List String) (WorkflowGraph N)
  pub explain : List String → List GraphError → String
  pub to_value : WorkflowGraph N → Value N
  pub same_json : Value N → Value N → Bool

-- description?.trim() || null
abbrev pub trimmed_or_null : (String → String) → Option String → Option String
trimmed_or_null trim none = none
trimmed_or_null trim (some s) = if str_eq (trim s) "" then none else some (trim s)

-- validateGraphInput; a lack of fuel, which does not occur, counts as invalid.
abbrev pub verdict :
    {N : Type 0}
    → Option (Result String (WorkflowGraph N))
    → Result RepositoryError (WorkflowGraph N)
verdict none = err (RepositoryError.invalid_graph "")
verdict (some (err e)) = err (RepositoryError.invalid_graph e)
verdict (some (ok g)) = ok g

module _ (outside : Outside) {N : Type 0} (storing : Storing N) (workflows : Table (Workflow N))
    (triggers actions : Table (NodeRow N)) (endpoints : Table Endpoint) where
  open outside use {ciphers, trim}
  open storing use {parse, explain, to_value, same_json}

  abbrev pub State : Type 0
  State = S outside workflows triggers actions endpoints

  abbrev pub validate_graph_input : Value N → Result RepositoryError (WorkflowGraph N)
  validate_graph_input v = verdict (safe_parse parse explain v)

  abbrev pub audited : String → String → String → String → State → State
  audited org actor action workflow db = record db {
    audit =
        db.audit
        ++ (record {
          organization_id = org;
          actor_id = actor;
          action = action;
          resource_type = "workflow";
          resource_id = workflow;
        })
          ∷ [];
  }

  abbrev pub owned : String → String → Workflow N → Bool
  owned org id w = str_eq w.id id && str_eq w.organization_id org

  abbrev pub find_workflow : String → String → State → Option (Workflow N)
  find_workflow org id db = workflows.find_first (owned org id) db.workflows

  abbrev pub has_id : String → Workflow N → Bool
  has_id id w = str_eq w.id id

  abbrev pub update_workflow_row : String → (Workflow N → Workflow N) → State → State
  update_workflow_row id f db = record db {
    workflows = (workflows.update_many (has_id id) f db.workflows).1;
  }

  abbrev pub new_workflow :
      String → SaveWorkflowInput N → WorkflowGraph N → Option String → String → Workflow N
  new_workflow org input g actor id = record {
    id = id;
    organization_id = org;
    name = trim input.name;
    description = trimmed_or_null trim input.description;
    status = "draft";
    graph = to_value g;
    version = 1;
    created_by = actor;
  }

  -- An absent actor is the empty text.
  abbrev pub audited_as : String → Option String → String → String → State → State
  audited_as org none action id db = audited org "" action id db
  audited_as org (some a) action id db = audited org a action id db

  abbrev pub conclude :
      String
      → String
      → Option String
      → String
      → Done × State
      → Result RepositoryError String × State
  conclude org action actor id (err e, db) = (err e, db)
  conclude org action actor id (ok u, db) = (ok id, audited_as org actor action id db)

  unfoldable pub create_stored :
      String
      → WorkflowGraph N
      → Option String
      → String
      → Drawing ciphers.Bytes
      → Option workflows.State
      → State
      → Result RepositoryError String × State
  create_stored org g actor id d none db = (err RepositoryError.refused, db)
  create_stored org g actor id d (some s) db = conclude org "workflow.created" actor id (
      sync_graph_projection outside workflows triggers actions endpoints org id g d
        (record db { workflows = s }))

  unfoldable pub create_valid :
      String
      → SaveWorkflowInput N
      → Result RepositoryError (WorkflowGraph N)
      → Option String
      → String
      → Drawing ciphers.Bytes
      → State
      → Result RepositoryError String × State
  create_valid org input (err e) actor id d db = (err e, db)
  create_valid org input (ok g) actor id d db =
      create_stored org g actor id d
        (workflows.create (new_workflow org input g actor id) db.workflows) db

  -- createWorkflow; the database draws the id.
  unfoldable pub create_workflow :
      String
      → SaveWorkflowInput N
      → Option String
      → String
      → Drawing ciphers.Bytes
      → State
      → Result RepositoryError String × State
  create_workflow org input actor id d db =
      create_valid org input (validate_graph_input input.graph) actor id d db

  abbrev pub saved : SaveWorkflowInput N → WorkflowGraph N → Bool → Workflow N → Workflow N
  saved input g bump w = record w {
    name = trim input.name;
    description = trimmed_or_null trim input.description;
    graph = to_value g;
    version = if bump then w.version + 1 else w.version;
  }

  -- The end of the transaction: an exception takes everything back.
  abbrev pub committed : State → Done × State → Done × State
  committed before (err e, db) = (err e, before)
  committed before (ok u, db) = (ok u, db)

  unfoldable pub update_valid :
      String
      → SaveWorkflowInput N
      → Workflow N
      → Result RepositoryError (WorkflowGraph N)
      → Option String
      → String
      → Drawing ciphers.Bytes
      → State
      → Result RepositoryError String × State
  update_valid org input existing (err e) actor id d db = (err e, db)
  update_valid org input existing (ok g) actor id d db =
      let bump = not (same_json existing.graph (to_value g)) || input.bump_version in
      conclude org "workflow.updated" actor id (
        committed db (
          sync_graph_projection outside workflows triggers actions endpoints org id g d
            (update_workflow_row id (saved input g bump) db)))

  unfoldable pub update_found :
      String
      → SaveWorkflowInput N
      → Option (Workflow N)
      → Option String
      → String
      → Drawing ciphers.Bytes
      → State
      → Result RepositoryError String × State
  update_found org input none actor id d db = (err RepositoryError.not_found, db)
  update_found org input (some w) actor id d db =
      update_valid org input w (validate_graph_input input.graph) actor id d db

  -- updateWorkflow
  unfoldable pub update_workflow :
      String
      → String
      → SaveWorkflowInput N
      → Option String
      → Drawing ciphers.Bytes
      → State
      → Result RepositoryError String × State
  update_workflow org id input actor d db =
      update_found org input (find_workflow org id db) actor id d db

  abbrev pub of_endpoint : String → Endpoint → Bool
  of_endpoint id e = str_eq e.workflow_id id

  -- The row, and by `onDelete: Cascade` the rows that refer to it.
  abbrev pub delete_rows : String → State → State
  delete_rows id db = record db {
    workflows = (workflows.delete_many (has_id id) db.workflows).1;
    triggers =
        (triggers.delete_many (of_nodes outside workflows triggers actions endpoints id)
          db.triggers).1;
    actions =
        (actions.delete_many (of_nodes outside workflows triggers actions endpoints id)
          db.actions).1;
    endpoints = (endpoints.delete_many (of_endpoint id) db.endpoints).1;
  }

  unfoldable pub delete_found :
      String
      → Option (Workflow N)
      → Option String
      → String
      → State
      → Result RepositoryError String × State
  delete_found org none actor id db = (err RepositoryError.not_found, db)
  delete_found org (some w) actor id db =
      (ok id, audited_as org actor "workflow.deleted" id (delete_rows id db))

  -- deleteWorkflow
  unfoldable pub delete_workflow :
      String → String → Option String → State → Result RepositoryError String × State
  delete_workflow org id actor db = delete_found org (find_workflow org id db) actor id db

  abbrev pub with_status : WorkflowStatus → Workflow N → Workflow N
  with_status status w = record w { status = status_text status }

  abbrev pub store_status :
      String
      → String
      → WorkflowStatus
      → String
      → Option String
      → State
      → Result RepositoryError String × State
  store_status org id status action actor db =
      (ok id, audited_as org actor action id (update_workflow_row id (with_status status) db))

  abbrev pub activate :
      String
      → Result RepositoryError (WorkflowGraph N)
      → Option String
      → String
      → State
      → Result RepositoryError String × State
  activate org (err e) actor id db = (err e, db)
  activate org (ok g) actor id db =
      store_status org id WorkflowStatus.active "workflow.activated" actor db

  unfoldable pub status_found :
      String
      → WorkflowStatus
      → Option (Workflow N)
      → Option String
      → String
      → State
      → Result RepositoryError String × State
  status_found org status none actor id db = (err RepositoryError.not_found, db)
  status_found org WorkflowStatus.active (some w) actor id db =
      activate org (validate_graph_input w.graph) actor id db
  status_found org WorkflowStatus.draft (some w) actor id db =
      store_status org id WorkflowStatus.draft "workflow.paused" actor db
  status_found org WorkflowStatus.paused (some w) actor id db =
      store_status org id WorkflowStatus.paused "workflow.paused" actor db

  -- setWorkflowStatus
  unfoldable pub set_workflow_status :
      String
      → String
      → WorkflowStatus
      → Option String
      → State
      → Result RepositoryError String × State
  set_workflow_status org id status actor db =
      status_found org status (find_workflow org id db) actor id db
