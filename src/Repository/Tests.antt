-- ===== src/Repository/Tests.antt =====
-- A workflow with a webhook trigger, over tables in memory.
use b2b_app.Prelude.{
  ◌≡◌, refl, ap, map, keep, String, Bool, true, false, none, some, [], ◌∷◌, all, str_eq, ok, ℕ,
}
use b2b_app.Json.{null}
use b2b_app.Workflow.{WorkflowNode, WorkflowGraph, NodeConfig, TriggerConfig}
use b2b_app.Graph.{program}
use b2b_app.Schema.{safe_parse, check_fields, check_graph}
use b2b_app.Database.Memory.{listed, keyed, insert_refused}
use b2b_app.Execute.Samples.{send, edge, explain}
use b2b_app.Secrets.{KeySource}
use b2b_app.Secrets.Samples.{open_cipher}
use b2b_app.Repository.{Workflow, NodeRow, Endpoint, WorkflowStatus, SaveWorkflowInput}
use b2b_app.Repository.Projection.{
  Outside, Drawing, last_of, of_workflow, create_all, endpoint_row, endpoint_rows, with_actions,
  with_triggers, sync_graph_projection,
}
use b2b_app.Repository.Service.{
  Storing, update_workflow, update_found, update_valid, set_workflow_status, status_found,
  create_workflow, create_valid, create_stored,
}
use b2b_app.Repository.Activation.{Store, IsFaithful, is_sound}
use b2b_app.Repository.Saving.{update_workflow-secrets}
use b2b_app.Repository.Reachable.{Step, Reach, active_valid}

abbrev outside : Outside
outside = record {
  ciphers = open_cipher;
  environment = KeySource.text "master";
  lower = λ s. s;
  trim = λ s. s;
}

abbrev hook : WorkflowNode ℕ
hook = record {
  key = "hook";
  label = none;
  config = NodeConfig.trigger (TriggerConfig.webhook "orders");
}

abbrev graph : WorkflowGraph ℕ
graph = record { nodes = hook ∷ send "tell" ∷ []; edges = edge "hook" "tell" ∷ [] }

abbrev storing : Storing ℕ
storing = record {
  parse = λ v. ok graph;
  explain = explain;
  to_value = λ g. null;
  same_json = λ a b. false;
}

abbrev same_id : Workflow ℕ → Workflow ℕ → Bool
same_id w x = str_eq x.id w.id

abbrev D : Type 0
D =
    Store outside storing (keyed same_id) (listed (NodeRow ℕ)) (listed (NodeRow ℕ))
      (listed Endpoint)

abbrev drawing : Drawing String
drawing = record { secret = λ k. "fresh"; iv = λ k. "iv"; slug = λ k. "drawn" }

abbrev input : SaveWorkflowInput ℕ
input = record { name = "Orders"; description = none; graph = null; bump_version = false }

abbrev endpoint : String → Endpoint
endpoint slug = record {
  organization_id = "o";
  workflow_id = "w";
  trigger_key = "hook";
  slug = slug;
  hmac_secret_ciphertext = "sealed";
  hmac_secret_iv = "";
  enabled = true;
}

abbrev row : Workflow ℕ
row = record {
  id = "w";
  organization_id = "o";
  name = "Old";
  description = none;
  status = "draft";
  graph = null;
  version = 1;
  created_by = none;
}

abbrev before : D
before = record {
  workflows = row ∷ [];
  triggers = [];
  actions = [];
  endpoints = endpoint "before" ∷ [];
  audit = [];
}

abbrev after : D
after =
    (update_workflow outside storing (keyed same_id) (listed (NodeRow ℕ)) (listed (NodeRow ℕ))
      (listed Endpoint) "o" "w" input none drawing before).1

updated :
    update_workflow outside storing
      (keyed same_id)
      (listed (NodeRow ℕ))
      (listed (NodeRow ℕ))
      (listed Endpoint)
      "o"
      "w"
      input
      none
      drawing
      before
    ≡ (ok "w", after)
unfolding update_workflow update_found update_valid sync_graph_projection with_triggers with_actions
    create_all endpoint_rows endpoint_row safe_parse check_fields check_graph program
updated = refl

new_endpoints : after.endpoints ≡ endpoint "orders" ∷ []
unfolding update_workflow update_found update_valid sync_graph_projection with_triggers with_actions
    create_all endpoint_rows endpoint_row safe_parse check_fields check_graph program
new_endpoints = refl

found_after : last_of "hook" (keep (of_workflow "o" "w") after.endpoints) ≡ some (endpoint "orders")
found_after = ap (λ es. last_of "hook" (keep (of_workflow "o" "w") es)) new_endpoints

update_workflow-secrets_example : (◌≡◌ {A = String} "sealed" "sealed") × (◌≡◌ {A = String} "" "")
update_workflow-secrets_example =
    update_workflow-secrets outside storing (keyed same_id) (listed (NodeRow ℕ))
      (listed (NodeRow ℕ)) (listed Endpoint) "o" "w" input none drawing before after "w" "hook"
      (endpoint "before") (endpoint "orders") updated refl found_after

faithful :
    IsFaithful outside storing
      (keyed same_id)
      (listed (NodeRow ℕ))
      (listed (NodeRow ℕ))
      (listed Endpoint)
unfolding safe_parse check_fields check_graph program
faithful = record {
  unique_id = λ w s h. insert_refused same_id w s h;
  stored_valid = λ v g h. refl;
}

abbrev none_yet : D
none_yet = record before { workflows = [] }

abbrev created : D
created =
    (create_workflow outside storing (keyed same_id) (listed (NodeRow ℕ)) (listed (NodeRow ℕ))
      (listed Endpoint) "o" input none "w" drawing none_yet).1

abbrev activated : D
activated =
    (set_workflow_status outside storing (keyed same_id) (listed (NodeRow ℕ)) (listed (NodeRow ℕ))
      (listed Endpoint) "o" "w" WorkflowStatus.active none created).1

statuses : map (λ (w : Workflow ℕ). w.status) activated.workflows ≡ "active" ∷ []
unfolding set_workflow_status status_found create_workflow create_valid create_stored
    sync_graph_projection with_triggers with_actions create_all endpoint_rows endpoint_row
    safe_parse check_fields check_graph program
statuses = refl

active_valid_example :
    all
      (is_sound outside storing
        (keyed same_id)
        (listed (NodeRow ℕ))
        (listed (NodeRow ℕ))
        (listed Endpoint))
      activated.workflows
    ≡ true
active_valid_example =
    active_valid outside storing (keyed same_id) (listed (NodeRow ℕ)) (listed (NodeRow ℕ))
      (listed Endpoint) faithful none_yet activated refl
      (Reach.next none_yet created activated
        (Reach.next none_yet none_yet created (Reach.start none_yet)
          (Step.creates "o" input none "w" drawing none_yet))
        (Step.sets "o" "w" WorkflowStatus.active none created))
