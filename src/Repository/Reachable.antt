-- ===== src/Repository/Reachable.antt =====
-- Only valid graphs are active, whatever operations the tables have been through.
use mathlib.Core.Path.{subst}
use b2b_app.Prelude.{◌≡◌, refl, sym, String, true, Option, [], all, arith}
use b2b_app.Database.{Table}
use b2b_app.Repository.{Workflow, NodeRow, Endpoint, WorkflowStatus, SaveWorkflowInput}
use b2b_app.Repository.Projection.{Outside, Drawing}
use b2b_app.Repository.Service.{
  Storing, create_workflow, update_workflow, delete_workflow, set_workflow_status,
}
use b2b_app.Repository.Activation.{Store, is_sound, Good, IsFaithful}
use b2b_app.Repository.Preserved.{
  create_workflow-IsGood, update_workflow-IsGood, delete_workflow-IsGood,
  set_workflow_status-IsGood,
}

module _ (outside : Outside) {N : Type 0} (storing : Storing N) (workflows : Table (Workflow N))
    (triggers actions : Table (NodeRow N)) (endpoints : Table Endpoint) where
  abbrev D : Type 0
  D = Store outside storing workflows triggers actions endpoints

  abbrev IsGood : workflows.State → Type 0
  IsGood s = Good outside storing workflows triggers actions endpoints (workflows.rows s)

  -- One operation of the repository, whether it succeeds or throws.
  pub data Step : D → D → Type 0 where
    creates :
        (org : String) (input : SaveWorkflowInput N) (actor : Option String) (id : String)
        (d : Drawing outside.ciphers.Bytes) (db : D)
        → Step db
            (create_workflow outside storing workflows triggers actions endpoints org input actor id
              d db).1
    updates :
        (org id : String) (input : SaveWorkflowInput N) (actor : Option String)
        (d : Drawing outside.ciphers.Bytes) (db : D)
        → Step db
            (update_workflow outside storing workflows triggers actions endpoints org id input actor
              d db).1
    deletes :
        (org id : String) (actor : Option String) (db : D)
        → Step db
            (delete_workflow outside storing workflows triggers actions endpoints org id actor db).1
    sets :
        (org id : String) (status : WorkflowStatus) (actor : Option String) (db : D)
        → Step db
            (set_workflow_status outside storing workflows triggers actions endpoints org id status
              actor db).1

  pub data Reach : D → D → Type 0 where
    start : (db : D) → Reach db db
    next : (a b c : D) → Reach a b → Step b c → Reach a c

  -- Only valid graphs are active: from a table without workflows, whatever operations of whatever
  -- organizations follow each other, successful or not, every workflow with the status active has a
  -- graph that safeParseWorkflowGraph accepts. The table keeps ids unique, and the JSON that stores
  -- a valid graph is valid.
  pub active_valid :
      IsFaithful outside storing workflows triggers actions endpoints
      → (a b : D) → workflows.rows a.workflows ≡ []
      → Reach a b
      → all
          (is_sound outside storing workflows triggers actions endpoints)
          (workflows.rows b.workflows)
        ≡ true
  active_valid faithful a b empty r =
      (reached a b r (
        subst (Good outside storing workflows triggers actions endpoints) (sym empty)
          (refl, λ k. omega arith))).0
    where
      stepped : (x y : D) → Step x y → IsGood x.workflows → IsGood y.workflows
      stepped x y (Step.creates org input actor id d db) good =
          create_workflow-IsGood outside storing workflows triggers actions endpoints faithful org
            input actor id d db good
      stepped x y (Step.updates org id input actor d db) good =
          update_workflow-IsGood outside storing workflows triggers actions endpoints faithful org
            id input actor d db good
      stepped x y (Step.deletes org id actor db) good =
          delete_workflow-IsGood outside storing workflows triggers actions endpoints faithful org
            id actor db good
      stepped x y (Step.sets org id status actor db) good =
          set_workflow_status-IsGood outside storing workflows triggers actions endpoints faithful
            org id status actor db good

      reached : (x y : D) → Reach x y → IsGood x.workflows → IsGood y.workflows
      reached x y (Reach.start db) good = good
      reached x y (Reach.next p q s before last) good = stepped q s last (reached p q before good)
