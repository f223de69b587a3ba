-- ===== src/Repository/Endpoints.antt =====
-- The secrets of webhook endpoints, behind a saved workflow.
use mathlib.Core.Path.{subst}
use mathlib.Core.List.{append_assoc, append-nil}
use b2b_app.Prelude.{
  ◌≡◌, refl, sym, ap, ◌∙◌, String, true, not, Option, none, some, List, [], ◌∷◌, ◌++◌, str_eq, keep,
  Result, ok, err, arith, eq_iff, Bool-cases, Option-cases, inl, inr,
}
use b2b_app.Workflow.{WorkflowNode, WorkflowGraph, NodeConfig, TriggerConfig}
use b2b_app.Database.{Table}
use b2b_app.Secrets.{SecretError}
use b2b_app.Repository.{Workflow, NodeRow, Endpoint, action_rows}
use b2b_app.Repository.Projection.{
  Outside, Drawing, last_of, of_workflow, add_endpoint, create_all, secret_for, endpoint_with,
  endpoint_row, endpoint_rows, Done, store_endpoints, replace_endpoints, existing_endpoints,
  with_actions, with_triggers, sync_graph_projection, of_nodes,
}
use b2b_app.Repository.Service.{Storing, State}

rows-create_all :
    {Row : Type 0} (t : Table Row) (rs : List Row) (s s' : t.State)
    → create_all t rs s ≡ some s'
    → t.rows s' ≡ t.rows s ++ rs
unfolding create_all
rows-create_all t [] s s' e =
    let same : s ≡ s' = cc in ap t.rows (sym same) ∙ sym (append-nil (t.rows s))
rows-create_all t (r ∷ rs) s s' e = elim (Option-cases (t.create r s)) [
  | inl refused ↦ let e' = rw refused at e in cc
  | inr (s1, made) ↦
      rows-create_all t rs s1 s' (rw made at e)
      ∙ ap (λ xs. xs ++ rs) (t.rows-create r s s1 made)
      ∙ append_assoc (t.rows s) (r ∷ []) rs
]

module _ (org workflow : String) (existing : List Endpoint) where
  -- The endpoint has the secret of the existing one of its trigger's key, where there is one.
  abbrev pub IsKept : Endpoint → Type 0
  IsKept x =
      (e : Endpoint)
      → last_of x.trigger_key existing ≡ some e
      → (x.hmac_secret_ciphertext ≡ e.hmac_secret_ciphertext)
        × (x.hmac_secret_iv ≡ e.hmac_secret_iv)

  abbrev pub AllKept : List Endpoint → Type 0
  AllKept [] = Unit
  AllKept (x ∷ xs) = (of_workflow org workflow x ≡ true → IsKept x) × AllKept xs

  AllKept-append : (xs ys : List Endpoint) → AllKept xs → AllKept ys → AllKept (xs ++ ys)
  AllKept-append [] ys hx hy = hy
  AllKept-append (x ∷ xs) ys hx hy = (hx.0, AllKept-append xs ys hx.1 hy)

  -- Endpoints of other workflows.
  AllKept-others : (xs : List Endpoint) → AllKept (keep (λ e. not (of_workflow org workflow e)) xs)
  AllKept-others [] = tt
  AllKept-others (x ∷ xs) = elim (Bool-cases (of_workflow org workflow x)) [
    | inl mine ↦ rw mine (AllKept-others xs)
    | inr other ↦ let rest = AllKept-others xs in rw other ((λ mine. absurd (ground arith)), rest)
  ]

  pub last_of-AllKept :
      (key : String) (xs : List Endpoint) (x : Endpoint)
      → AllKept xs
      → last_of key (keep (of_workflow org workflow) xs) ≡ some x
      → IsKept x × (x.trigger_key ≡ key)
  last_of-AllKept key [] x h e = cc
  last_of-AllKept key (y ∷ xs) x h e = elim (Bool-cases (of_workflow org workflow y)) [
    | inr other ↦ last_of-AllKept key xs x h.1 (rw other at e)
    | inl mine ↦
        let e' = rw mine at e in
        elim (Option-cases (last_of key (keep (of_workflow org workflow) xs))) [
          | inr (z, later) ↦
              let same : z ≡ x = (let e'' = rw later at e' in cc) in
              last_of-AllKept key xs x h.1 (later ∙ ap some same)
          | inl last ↦ elim (Bool-cases (str_eq y.trigger_key key)) [
            | inl hit ↦
                let same : y ≡ x = (let e'' = rw (last, hit) at e' in cc) in
                (
                  subst IsKept same (h.0 mine),
                  ap (λ (z : Endpoint). z.trigger_key) (sym same)
                      ∙ (eq_iff y.trigger_key key).0 hit,
                )
            | inr miss ↦ let e'' = rw (last, miss) at e' in cc
          ]
        ]
  ]

  module _ (outside : Outside) (d : Drawing outside.ciphers.Bytes) where
    added :
        (x : Endpoint) (rest : Result SecretError (List Endpoint)) (rows : List Endpoint)
        → IsKept x
        → ((rs : List Endpoint) → rest ≡ ok rs → AllKept rs)
        → add_endpoint x rest ≡ ok rows
        → AllKept rows
    added x (err z) rows kept h e = cc
    added x (ok rs) rows kept h e =
        let same : x ∷ rs ≡ rows = cc in subst AllKept same ((λ mine. kept), h rs refl)

    webhook_row :
        (key slug : String) (o : Option Endpoint) (r : Result SecretError (String × String))
        (rest : Result SecretError (List Endpoint)) (rows : List Endpoint)
        → last_of key existing ≡ o
        → secret_for outside org o d key ≡ r
        → ((rs : List Endpoint) → rest ≡ ok rs → AllKept rs)
        → endpoint_with outside org workflow key slug r rest ≡ ok rows
        → AllKept rows
    webhook_row key slug o (err z) rest rows there made h e = cc
    webhook_row key slug none (ok (ct, iv)) rest rows there made h e =
        added _ rest rows (λ x found. cc) h e
    webhook_row key slug (some old) (ok (ct, iv)) rest rows there made h e =
        let a : old.hmac_secret_ciphertext ≡ ct = cc in
        let b : old.hmac_secret_iv ≡ iv = cc in
        added _ rest rows
          (λ x found.
            let same : old ≡ x = (let both = sym there ∙ found in cc) in
            (
              sym a ∙ ap (λ (z : Endpoint). z.hmac_secret_ciphertext) same,
              sym b ∙ ap (λ (z : Endpoint). z.hmac_secret_iv) same,
            ))
          h e

    endpoint_row-AllKept :
        {N : Type 0} (key : String) (c : NodeConfig N) (rest : Result SecretError (List Endpoint))
        (rows : List Endpoint)
        → ((rs : List Endpoint) → rest ≡ ok rs → AllKept rs)
        → endpoint_row outside org workflow existing d key c rest ≡ ok rows
        → AllKept rows
    unfolding endpoint_row
    endpoint_row-AllKept key (NodeConfig.trigger (TriggerConfig.webhook slug)) rest rows h e =
        webhook_row key _ (last_of key existing) _ rest rows refl refl h e
    endpoint_row-AllKept key (NodeConfig.trigger (TriggerConfig.schedule cron z)) rest rows h e =
        h rows e
    endpoint_row-AllKept key (NodeConfig.trigger (TriggerConfig.app_event n)) rest rows h e =
        h rows e
    endpoint_row-AllKept key (NodeConfig.filter k) rest rows h e = h rows e
    endpoint_row-AllKept key (NodeConfig.transform k) rest rows h e = h rows e
    endpoint_row-AllKept key (NodeConfig.action k) rest rows h e = h rows e

    endpoint_rows-AllKept :
        {N : Type 0} (nodes : List (WorkflowNode N)) (rows : List Endpoint)
        → endpoint_rows outside org workflow existing d nodes ≡ ok rows
        → AllKept rows
    unfolding endpoint_rows
    endpoint_rows-AllKept [] rows e = let same : [] ≡ rows = cc in subst AllKept same tt
    endpoint_rows-AllKept (n ∷ nodes) rows e =
        endpoint_row-AllKept n.key n.config _ rows (λ rs h. endpoint_rows-AllKept nodes rs h) e

module _ (outside : Outside) {N : Type 0} (storing : Storing N) (workflows : Table (Workflow N))
    (triggers actions : Table (NodeRow N)) (endpoints : Table Endpoint) where
  abbrev pub Db' : Type 0
  Db' = State outside storing workflows triggers actions endpoints

  abbrev pub existing_of : String → String → Db' → List Endpoint
  existing_of org workflow db =
      existing_endpoints outside workflows triggers actions endpoints org workflow db

  stored_AllKept :
      (org workflow : String) (existing : List Endpoint) (d : Drawing outside.ciphers.Bytes)
      (nodes : List (WorkflowNode N)) (r : Result SecretError (List Endpoint)) (db db' : Db')
      (u : Unit)
      → endpoint_rows outside org workflow existing d nodes ≡ r
      → replace_endpoints outside workflows triggers actions endpoints org workflow r db
        ≡ (ok u, db')
      → AllKept org workflow existing (endpoints.rows db'.endpoints)
  stored_AllKept org workflow existing d nodes (err x) db db' u made e = cc
  stored_AllKept org workflow existing d nodes (ok rows) db db' u made e =
      let s = (endpoints.delete_many (of_workflow org workflow) db.endpoints).1 in
      created (create_all endpoints rows s) refl e
    where
      created :
          (o : Option endpoints.State)
          → create_all endpoints rows
              (endpoints.delete_many (of_workflow org workflow) db.endpoints).1
            ≡ o
          → store_endpoints outside workflows triggers actions endpoints o (record db {
            endpoints = (endpoints.delete_many (of_workflow org workflow) db.endpoints).1;
          })
            ≡ (ok u, db')
          → AllKept org workflow existing (endpoints.rows db'.endpoints)
      created none h e' = cc
      created (some t) h e' =
          let s = (endpoints.delete_many (of_workflow org workflow) db.endpoints).1 in
          let after : t ≡ db'.endpoints = ap (λ (x : Done × Db'). x.1.endpoints) e' in
          let shape =
            sym (
              rows-create_all endpoints rows s t h
              ∙ ap (λ xs. xs ++ rows)
                  (endpoints.rows-delete_many (of_workflow org workflow) db.endpoints))
            ∙ ap endpoints.rows after in
          subst (AllKept org workflow existing) shape (
            AllKept-append org workflow existing
              (keep (λ x. not (of_workflow org workflow x)) (endpoints.rows db.endpoints)) rows
              (AllKept-others org workflow existing (endpoints.rows db.endpoints))
              (endpoint_rows-AllKept org workflow existing outside d nodes rows made))

  pub sync-AllKept :
      (org workflow : String) (g : WorkflowGraph N) (d : Drawing outside.ciphers.Bytes)
      (db db' : Db') (u : Unit)
      → sync_graph_projection outside workflows triggers actions endpoints org workflow g d db
        ≡ (ok u, db')
      → AllKept org workflow (existing_of org workflow db) (endpoints.rows db'.endpoints)
  unfolding sync_graph_projection with_triggers with_actions
  sync-AllKept org workflow g d db db' u e = with_row (create_all triggers _ _) e
    where
      acted :
          (o : Option actions.State) (x : Db')
          → x.endpoints ≡ db.endpoints
          → with_actions outside workflows triggers actions endpoints org workflow g.nodes d o x
            ≡ (ok u, db')
          → AllKept org workflow (existing_of org workflow db) (endpoints.rows db'.endpoints)
      acted none x same e' = cc
      acted (some s) x same e' =
          subst
            (λ ex.
              AllKept org workflow (keep (of_workflow org workflow) (endpoints.rows ex))
                (endpoints.rows db'.endpoints))
            same
            (stored_AllKept org workflow (existing_of org workflow x) d g.nodes _
              (record x { actions = s }) db' u refl e')

      with_row :
          (o : Option triggers.State)
          → with_triggers outside workflows triggers actions endpoints org workflow g.nodes d o
              (record db {
                triggers =
                    (triggers.delete_many
                      (of_nodes outside workflows triggers actions endpoints workflow)
                      db.triggers).1;
              })
            ≡ (ok u, db')
          → AllKept org workflow (existing_of org workflow db) (endpoints.rows db'.endpoints)
      with_row none e' = cc
      with_row (some s) e' =
          acted
            (create_all actions (action_rows org workflow g.nodes)
              (actions.delete_many (of_nodes outside workflows triggers actions endpoints workflow)
                db.actions).1)
            _ refl e'
