-- ===== src/Repository/Saving.antt =====
-- Saving a workflow keeps the secrets of its webhook endpoints.
use mathlib.Core.Path.{subst}
use b2b_app.Prelude.{
  keep, ◌≡◌, refl, sym, ap, ◌∙◌, String, not, ◌||◌, Option, none, some, Result, ok, err,
}
use b2b_app.Workflow.{WorkflowGraph}
use b2b_app.Database.{Table}
use b2b_app.Repository.{Workflow, NodeRow, Endpoint, RepositoryError, SaveWorkflowInput}
use b2b_app.Repository.Projection.{
  Outside, Drawing, Done, last_of, of_workflow, sync_graph_projection,
}
use b2b_app.Repository.Service.{
  Storing, State, update_workflow, update_found, update_valid, update_workflow_row, committed,
  conclude, saved, audited_as,
}
use b2b_app.Repository.Endpoints.{AllKept, last_of-AllKept, existing_of, sync-AllKept}

module _ (outside : Outside) {N : Type 0} (storing : Storing N) (workflows : Table (Workflow N))
    (triggers actions : Table (NodeRow N)) (endpoints : Table Endpoint) where
  abbrev Store : Type 0
  Store = State outside storing workflows triggers actions endpoints

  endpoints-audited_as :
      (org action id : String) (actor : Option String) (db : Store)
      → (audited_as outside storing workflows triggers actions endpoints org actor action id
          db).endpoints
        ≡ db.endpoints
  endpoints-audited_as org action id none db = refl
  endpoints-audited_as org action id (some a) db = refl

  update_valid-AllKept :
      (org id : String) (input : SaveWorkflowInput N) (w : Workflow N)
      (v : Result RepositoryError (WorkflowGraph N)) (actor : Option String)
      (d : Drawing outside.ciphers.Bytes) (db db' : Store) (x : String)
      → update_valid outside storing workflows triggers actions endpoints org input w v actor id d
          db
        ≡ (ok x, db')
      → AllKept org id
          (existing_of outside storing workflows triggers actions endpoints org id db)
          (endpoints.rows db'.endpoints)
  unfolding update_valid
  update_valid-AllKept org id input w (err e) actor d db db' x h = cc
  update_valid-AllKept org id input w (ok g) actor d db db' x h =
      let bump = not (storing.same_json w.graph (storing.to_value g)) || input.bump_version in
      let middle =
        update_workflow_row outside storing workflows triggers actions endpoints id
          (saved outside storing workflows triggers actions endpoints input g bump) db in
      synced middle refl
        (sync_graph_projection outside workflows triggers actions endpoints org id g d middle) refl
        h
    where
      synced :
          (middle : Store)
          → middle.endpoints ≡ db.endpoints
          → (r : Done × Store)
          → sync_graph_projection outside workflows triggers actions endpoints org id g d middle ≡ r
          → conclude outside storing workflows triggers actions endpoints org "workflow.updated"
              actor id
              (committed outside storing workflows triggers actions endpoints db r)
            ≡ (ok x, db')
          → AllKept org id
              (existing_of outside storing workflows triggers actions endpoints org id db)
              (endpoints.rows db'.endpoints)
      synced middle same (err e, db1) s h' = cc
      synced middle same (ok u, db1) s h' =
          let last : db1.endpoints ≡ db'.endpoints =
            sym (endpoints-audited_as org "workflow.updated" id actor db1)
            ∙ ap (λ (y : Result {0, 0} RepositoryError String × Store). y.1.endpoints) h' in
          subst
            (λ t.
              AllKept org id (keep (of_workflow org id) (endpoints.rows t))
                (endpoints.rows db'.endpoints))
            same
            (subst
              (λ t.
                AllKept org id
                  (existing_of outside storing workflows triggers actions endpoints org id middle)
                  (endpoints.rows t))
              last
              (sync-AllKept outside storing workflows triggers actions endpoints org id g d middle
                db1 u s))

  update_found-AllKept :
      (org id : String) (input : SaveWorkflowInput N) (o : Option (Workflow N))
      (actor : Option String) (d : Drawing outside.ciphers.Bytes) (db db' : Store) (x : String)
      → update_found outside storing workflows triggers actions endpoints org input o actor id d db
        ≡ (ok x, db')
      → AllKept org id
          (existing_of outside storing workflows triggers actions endpoints org id db)
          (endpoints.rows db'.endpoints)
  unfolding update_found
  update_found-AllKept org id input none actor d db db' x h = cc
  update_found-AllKept org id input (some w) actor d db db' x h =
      update_valid-AllKept org id input w _ actor d db db' x h

  -- A saved workflow keeps the secrets of its webhook endpoints: where `updateWorkflow` succeeds, and
  -- the workflow had an endpoint for a trigger's key and has one afterwards, the encrypted secret and
  -- its iv are the ones of before.
  pub update_workflow-secrets :
      (org id : String) (input : SaveWorkflowInput N) (actor : Option String)
      (d : Drawing outside.ciphers.Bytes) (db db' : Store) (x key : String) (old new : Endpoint)
      → update_workflow outside storing workflows triggers actions endpoints org id input actor d db
        ≡ (ok x, db')
      → last_of key (existing_of outside storing workflows triggers actions endpoints org id db)
        ≡ some old
      → last_of key (existing_of outside storing workflows triggers actions endpoints org id db')
        ≡ some new
      → (new.hmac_secret_ciphertext ≡ old.hmac_secret_ciphertext)
        × (new.hmac_secret_iv ≡ old.hmac_secret_iv)
  unfolding update_workflow
  update_workflow-secrets org id input actor d db db' x key old new h was is =
      let kept = update_found-AllKept org id input _ actor d db db' x h in
      let existing = existing_of outside storing workflows triggers actions endpoints org id db in
      let (same, named) =
        last_of-AllKept org id existing key (endpoints.rows db'.endpoints) new kept is in
      same old (ap (λ k. last_of k existing) named ∙ was)
