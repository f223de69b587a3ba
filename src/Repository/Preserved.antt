-- ===== src/Repository/Preserved.antt =====
-- Each operation of the repository keeps ids unique and active graphs valid.
use mathlib.Core.Path.{subst}
use b2b_app.Prelude.{
  ◌≡◌, refl, sym, ◌∙◌, String, true, not, ◌||◌, Option, none, some, Result, ok, err,
}
use b2b_app.Json.{Value}
use b2b_app.Workflow.{WorkflowGraph}
use b2b_app.Database.{Table}
use b2b_app.Schema.{safe_parse}
use b2b_app.Repository.{
  Workflow, NodeRow, Endpoint, RepositoryError, WorkflowStatus, SaveWorkflowInput,
}
use b2b_app.Repository.Projection.{Outside, Drawing, Done, sync_graph_projection}
use b2b_app.Repository.Service.{
  Storing, verdict, find_workflow, validate_graph_input, new_workflow, saved, with_status,
  update_workflow_row, committed, store_status, activate, create_workflow, create_valid,
  create_stored, update_workflow, update_found, update_valid, delete_workflow, delete_found,
  set_workflow_status, status_found,
}
use b2b_app.Repository.Activation.{
  Store, valid, is_sound, Good, IsFaithful, valid_sound, Good-create, Good-update, Good-found,
  Good-delete,
}
use b2b_app.Repository.Untouched.{workflows-sync, workflows-audited_as, workflows-conclude}

module _ (outside : Outside) {N : Type 0} (storing : Storing N) (workflows : Table (Workflow N))
    (triggers actions : Table (NodeRow N)) (endpoints : Table Endpoint) where
  abbrev pub D : Type 0
  D = Store outside storing workflows triggers actions endpoints

  abbrev pub IsGood : workflows.State → Type 0
  IsGood s = Good outside storing workflows triggers actions endpoints (workflows.rows s)

  committed-IsGood :
      (db : D) (r : Done × D)
      → IsGood db.workflows
      → IsGood r.1.workflows
      → IsGood (committed outside storing workflows triggers actions endpoints db r).1.workflows
  committed-IsGood db (err e, db1) before after = before
  committed-IsGood db (ok u, db1) before after = after

  module _ (faithful : IsFaithful outside storing workflows triggers actions endpoints) where
    verdict-valid :
        (v : Value N) (g : WorkflowGraph N) (o : Option (Result String (WorkflowGraph N)))
        → safe_parse storing.parse storing.explain v ≡ o
        → verdict o ≡ ok g
        → o ≡ some (ok g)
    verdict-valid v g none h e = cc
    verdict-valid v g (some (err x)) h e = cc
    verdict-valid v g (some (ok f)) h e = cc

    pub create_workflow-IsGood :
        (org : String) (input : SaveWorkflowInput N) (actor : Option String) (id : String)
        (d : Drawing outside.ciphers.Bytes) (db : D)
        → IsGood db.workflows
        → IsGood
            (create_workflow outside storing workflows triggers actions endpoints org input actor id
              d db).1.workflows
    unfolding create_workflow create_valid create_stored
    create_workflow-IsGood org input actor id d db good = checked _ refl
      where
        checked :
            (v : Result RepositoryError (WorkflowGraph N))
            → validate_graph_input outside storing workflows triggers actions endpoints input.graph
              ≡ v
            → IsGood
                (create_valid outside storing workflows triggers actions endpoints org input v actor
                  id d db).1.workflows
        checked (err e) h = good
        checked (ok g) h =
            row
              (workflows.create
                (new_workflow outside storing workflows triggers actions endpoints org input g actor
                  id)
                db.workflows)
              refl
          where
            row :
                (o : Option workflows.State)
                → workflows.create
                    (new_workflow outside storing workflows triggers actions endpoints org input g
                      actor id)
                    db.workflows
                  ≡ o
                → IsGood
                    (create_stored outside storing workflows triggers actions endpoints org g actor
                      id d o db).1.workflows
            row none made = good
            row (some s) made =
                let same =
                  workflows-conclude outside storing workflows triggers actions endpoints org
                    "workflow.created" id actor
                    (sync_graph_projection outside workflows triggers actions endpoints org id g d
                      (record db { workflows = s }))
                  ∙ workflows-sync outside storing workflows triggers actions endpoints org id g d
                      (record db { workflows = s }) in
                subst IsGood (sym same) (
                  Good-create outside storing workflows triggers actions endpoints faithful _
                    db.workflows s made refl good)

    pub update_workflow-IsGood :
        (org id : String) (input : SaveWorkflowInput N) (actor : Option String)
        (d : Drawing outside.ciphers.Bytes) (db : D)
        → IsGood db.workflows
        → IsGood
            (update_workflow outside storing workflows triggers actions endpoints org id input actor
              d db).1.workflows
    unfolding update_workflow update_found update_valid
    update_workflow-IsGood org id input actor d db good = looked_up _
      where
        checked :
            (w : Workflow N) (v : Result RepositoryError (WorkflowGraph N))
            → validate_graph_input outside storing workflows triggers actions endpoints input.graph
              ≡ v
            → IsGood
                (update_valid outside storing workflows triggers actions endpoints org input w v
                  actor id d db).1.workflows
        checked w (err e) h = good
        checked w (ok g) h =
            let parsed = verdict-valid input.graph g _ refl h in
            let bump = not (storing.same_json w.graph (storing.to_value g)) || input.bump_version in
            let f = saved outside storing workflows triggers actions endpoints input g bump in
            let middle =
              update_workflow_row outside storing workflows triggers actions endpoints id f db in
            let fine = faithful.stored_valid input.graph g parsed in
            let moved : IsGood middle.workflows =
              Good-update outside storing workflows triggers actions endpoints id f db.workflows
                (λ x. refl)
                (λ x. valid_sound outside storing workflows triggers actions endpoints (f x) fine)
                good in
            let r =
              sync_graph_projection outside workflows triggers actions endpoints org id g d
                middle in
            subst IsGood
              (sym (
                workflows-conclude outside storing workflows triggers actions endpoints org
                  "workflow.updated" id actor
                  (committed outside storing workflows triggers actions endpoints db r)))
              (committed-IsGood db r good (
                subst IsGood
                  (sym (
                    workflows-sync outside storing workflows triggers actions endpoints org id g d
                      middle))
                  moved))

        looked_up :
            (o : Option (Workflow N))
            → IsGood
                (update_found outside storing workflows triggers actions endpoints org input o actor
                  id d db).1.workflows
        looked_up none = good
        looked_up (some w) = checked w _ refl

    pub delete_workflow-IsGood :
        (org id : String) (actor : Option String) (db : D)
        → IsGood db.workflows
        → IsGood
            (delete_workflow outside storing workflows triggers actions endpoints org id actor
              db).1.workflows
    unfolding delete_workflow delete_found
    delete_workflow-IsGood org id actor db good = looked_up _
      where
        looked_up :
            (o : Option (Workflow N))
            → IsGood
                (delete_found outside storing workflows triggers actions endpoints org o actor id
                  db).1.workflows
        looked_up none = good
        looked_up (some w) =
            subst IsGood
              (sym (
                workflows-audited_as outside storing workflows triggers actions endpoints org
                  "workflow.deleted" id actor _))
              (Good-delete outside storing workflows triggers actions endpoints id db.workflows
                good)

    -- A status other than active.
    store_inactive-IsGood :
        (org id action : String) (status : WorkflowStatus) (actor : Option String) (db : D)
        → ((x : Workflow N)
            → is_sound outside storing workflows triggers actions endpoints
                (with_status outside storing workflows triggers actions endpoints status x)
              ≡ true)
        → IsGood db.workflows
        → IsGood
            (store_status outside storing workflows triggers actions endpoints org id status action
              actor db).1.workflows
    store_inactive-IsGood org id action status actor db fine good =
        subst IsGood
          (sym (
            workflows-audited_as outside storing workflows triggers actions endpoints org action id
              actor _))
          (Good-update outside storing workflows triggers actions endpoints id
            (with_status outside storing workflows triggers actions endpoints status) db.workflows
            (λ x. refl) fine good)

    pub set_workflow_status-IsGood :
        (org id : String) (status : WorkflowStatus) (actor : Option String) (db : D)
        → IsGood db.workflows
        → IsGood
            (set_workflow_status outside storing workflows triggers actions endpoints org id status
              actor db).1.workflows
    unfolding set_workflow_status status_found
    set_workflow_status-IsGood org id status actor db good = looked_up status _ refl
      where
        checked :
            (w : Workflow N) (v : Result RepositoryError (WorkflowGraph N))
            → find_workflow outside storing workflows triggers actions endpoints org id db ≡ some w
            → validate_graph_input outside storing workflows triggers actions endpoints w.graph ≡ v
            → IsGood
                (activate outside storing workflows triggers actions endpoints org v actor id
                  db).1.workflows
        checked w (err e) there h = good
        checked w (ok g) there h =
            let parsed = verdict-valid w.graph g _ refl h in
            let f =
              with_status outside storing workflows triggers actions endpoints
                WorkflowStatus.active in
            let fine : valid outside storing workflows triggers actions endpoints w.graph ≡ true =
              rw parsed refl in
            subst IsGood
              (sym (
                workflows-audited_as outside storing workflows triggers actions endpoints org
                  "workflow.activated" id actor _))
              (Good-found outside storing workflows triggers actions endpoints org id f db.workflows
                w (λ x. refl) there
                (valid_sound outside storing workflows triggers actions endpoints (f w) fine) good)

        looked_up :
            (s : WorkflowStatus) (o : Option (Workflow N))
            → find_workflow outside storing workflows triggers actions endpoints org id db ≡ o
            → IsGood
                (status_found outside storing workflows triggers actions endpoints org s o actor id
                  db).1.workflows
        looked_up s none h = good
        looked_up WorkflowStatus.active (some w) h = checked w _ h refl
        looked_up WorkflowStatus.draft (some w) h =
            store_inactive-IsGood org id "workflow.paused" WorkflowStatus.draft actor db (λ x. refl)
              good
        looked_up WorkflowStatus.paused (some w) h =
            store_inactive-IsGood org id "workflow.paused" WorkflowStatus.paused actor db
              (λ x. refl) good
