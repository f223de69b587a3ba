-- ===== src/Repository/Activation.antt =====
-- Rows of workflows whose ids are unique and whose active graphs are valid, behind each change.
use mathlib.Core.Path.{subst}
use b2b_app.Prelude.{
  ◌≤◌, ◌≡◌, ◌⊎◌, refl, sym, ap, ◌∙◌, String, Bool, true, false, not, none, some, List, [], ◌∷◌,
  ◌++◌, map, if◌then◌else◌, str_eq, eq_iff, all, any, tally, tally-append, ok, arith, Bool-cases,
  inl, inr,
}
use b2b_app.Json.{Value}
use b2b_app.Workflow.{WorkflowGraph}
use b2b_app.Database.{Table}
use b2b_app.Schema.{safe_parse, valid_of}
use b2b_app.Schedules.{is_some}
use b2b_app.Repository.{Workflow, NodeRow, Endpoint}
use b2b_app.Repository.Projection.{Outside}
use b2b_app.Repository.Service.{Storing, State, owned, has_id}
use b2b_app.Repository.Rows.{
  tally-map, tally-keep, all-keep, all-append, tally_of_none, all-updated, all-updated_found,
  updated,
}

module _ (outside : Outside) {N : Type 0} (storing : Storing N) (workflows : Table (Workflow N))
    (triggers actions : Table (NodeRow N)) (endpoints : Table Endpoint) where
  abbrev pub Store : Type 0
  Store = State outside storing workflows triggers actions endpoints

  abbrev pub valid : Value N → Bool
  valid v =
      is_some (valid_of storing.parse storing.explain (safe_parse storing.parse storing.explain v))

  -- An active workflow has a valid graph.
  abbrev pub is_sound : Workflow N → Bool
  is_sound w = if str_eq w.status "active" then valid w.graph else true

  abbrev pub id_test : String → Workflow N → Bool
  id_test id w = has_id outside storing workflows triggers actions endpoints id w

  abbrev pub Good : List (Workflow N) → Type 0
  Good rows = (all is_sound rows ≡ true) × ((k : String) → tally (id_test k) rows ≤ 1)

  -- The table keeps the ids unique, and the JSON that stores a valid graph is valid.
  pub record IsFaithful : Type 0 where
    pub unique_id :
        (w : Workflow N) (s : workflows.State)
        → any (id_test w.id) (workflows.rows s) ≡ true
        → workflows.create w s ≡ none
    pub stored_valid :
        (v : Value N) (g : WorkflowGraph N)
        → safe_parse storing.parse storing.explain v ≡ some (ok g)
        → valid (storing.to_value g) ≡ true

  pub valid_sound : (w : Workflow N) → valid w.graph ≡ true → is_sound w ≡ true
  valid_sound w h = ground arith

  pub Good-create :
      IsFaithful
      → (w : Workflow N) (s s' : workflows.State) → workflows.create w s ≡ some s'
      → is_sound w ≡ true
      → Good (workflows.rows s)
      → Good (workflows.rows s')
  Good-create faithful w s s' e fine (sound, once) =
      subst Good (sym (workflows.rows-create w s s' e)) (
        all-append is_sound (workflows.rows s) (w ∷ []) sound (rw fine refl),
        λ k. fresh k (Bool-cases (any (id_test w.id) (workflows.rows s))),
      )
    where
      fresh :
          (k : String)
          → (any (id_test w.id) (workflows.rows s) ≡ true)
            ⊎ (any (id_test w.id) (workflows.rows s) ≡ false)
          → tally (id_test k) (workflows.rows s ++ w ∷ []) ≤ 1
      fresh k (inl taken) =
          absurd (let no = faithful.unique_id w s taken in let both = sym e ∙ no in cc)
      fresh k (inr free) = elim (Bool-cases (str_eq w.id k)) [
        | inl same ↦
            let named : w.id ≡ k = (eq_iff w.id k).0 same in
            let none_yet : tally (id_test k) (workflows.rows s) ≡ 0 =
              ap (λ i. tally (id_test i) (workflows.rows s)) (sym named)
              ∙ tally_of_none (id_test w.id) (workflows.rows s) free in
            ground (arith, tally-append (id_test k) (workflows.rows s) (w ∷ []))
        | inr other ↦ ground (arith, once k, tally-append (id_test k) (workflows.rows s) (w ∷ []))
      ]

  -- An update of the rows with an id, which keeps the ids.
  update_once :
      (id : String) (f : Workflow N → Workflow N) (xs : List (Workflow N))
      → ((x : Workflow N) → (f x).id ≡ x.id)
      → ((k : String) → tally (id_test k) xs ≤ 1)
      → (k : String) → tally (id_test k) (map (updated is_sound (id_test id) f) xs) ≤ 1
  update_once id f xs kept once k = omega (
    arith,
    tally-map (id_test k) (updated is_sound (id_test id) f) xs (λ x. either x (id_test id x)),
    once k,
  )
    where
      either : (x : Workflow N) (b : Bool) → id_test k (if b then f x else x) ≡ id_test k x
      either x true = ap (λ i. str_eq i k) (kept x)
      either x false = refl

  pub Good-update :
      (id : String) (f : Workflow N → Workflow N) (s : workflows.State)
      → ((x : Workflow N) → (f x).id ≡ x.id)
      → ((x : Workflow N) → is_sound (f x) ≡ true)
      → Good (workflows.rows s)
      → Good (workflows.rows (workflows.update_many (id_test id) f s).1)
  Good-update id f s kept fine (sound, once) =
      subst Good (sym (workflows.rows-update_many (id_test id) f s)) (
        all-updated is_sound (id_test id) f (workflows.rows s) fine sound,
        update_once id f (workflows.rows s) kept once,
      )

  owned_id :
      (org id : String) (x : Workflow N)
      → owned outside storing workflows triggers actions endpoints org id x ≡ true
      → id_test id x ≡ true
  owned_id org id x h = ground arith

  pub Good-found :
      (org id : String) (f : Workflow N → Workflow N) (s : workflows.State) (w : Workflow N)
      → ((x : Workflow N) → (f x).id ≡ x.id)
      → workflows.find_first (owned outside storing workflows triggers actions endpoints org id) s
        ≡ some w
      → is_sound (f w) ≡ true
      → Good (workflows.rows s)
      → Good (workflows.rows (workflows.update_many (id_test id) f s).1)
  Good-found org id f s w kept there fine (sound, once) =
      let q = owned outside storing workflows triggers actions endpoints org id in
      subst Good (sym (workflows.rows-update_many (id_test id) f s)) (
        all-updated_found is_sound (id_test id) f q (workflows.rows s) (owned_id org id) (once id)
            (sym (workflows.find_first-rows q s) ∙ there) fine sound,
        update_once id f (workflows.rows s) kept once,
      )

  pub Good-delete :
      (id : String) (s : workflows.State)
      → Good (workflows.rows s)
      → Good (workflows.rows (workflows.delete_many (id_test id) s).1)
  Good-delete id s (sound, once) =
      let q = λ (x : Workflow N). not (id_test id x) in
      subst Good (sym (workflows.rows-delete_many (id_test id) s)) (
        all-keep is_sound q (workflows.rows s) sound,
        λ k. omega (arith, once k, tally-keep (id_test k) q (workflows.rows s)),
      )
