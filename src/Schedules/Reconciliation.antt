-- ===== src/Schedules/Reconciliation.antt =====
-- `reconcileSchedules` against what it is for: the registered schedules are those of the active
-- workflows.
use mathlib.Core.List.{map-append}
use mathlib.Core.Path.{fun_ext}
use b2b_app.Prelude.{
  ◌≡◌, refl, sym, ap, ◌∙◌, String, Bool, true, false, ◌&&◌, ◌||◌, Option, none, some, List, [], ◌∷◌,
  ◌++◌, map, if◌then◌else◌, str_eq, eq_iff, keep, mem, mem-append, Result, arith, Bool-cases, inl,
  inr, KeyMap,
}
use b2b_app.Prelude.Texts.{◌+++◌, after_prefix-append}
use b2b_app.Json.{Value}
use b2b_app.Workflow.{WorkflowNode, WorkflowGraph, NodeConfig, TriggerConfig}
use b2b_app.Graph.{GraphError}
use b2b_app.Execute.{WorkflowRow}
use b2b_app.Schedules.{
  Registration, Schedulers, Progress, schedule_prefix, schedule_id_for, registration_for,
  registration_of, is_some, has_prefix, add_id, upsert_entry, upsert_nodes, upsert_graph,
  upsert_rows, upsert_active, active_rows, graph_of, remove_all, is_stale, reconcile_schedules,
}

abbrev pub Plan : Type 0
Plan = List (String × Registration)

-- The registration of a key in a plan: the last one counts.
abbrev pub planned : Plan → KeyMap Registration → KeyMap Registration
planned [] m j = m j
planned ((k, e) ∷ plan) m j = planned plan (λ i. if str_eq k i then some e else m i) j

abbrev listed : Option (String × Registration) → Plan
listed none = []
listed (some r) = r ∷ []

-- The plan of a list of nodes, and of the active workflows whose graphs are valid.
abbrev pub plan_nodes : {N : Type 0} → String → String → List (WorkflowNode N) → Plan
plan_nodes org workflow [] = []
plan_nodes org workflow (node ∷ nodes) =
    listed (registration_of org workflow node) ++ plan_nodes org workflow nodes

module _ {N : Type 0} (parse : Value N → Result (List String) (WorkflowGraph N))
    (explain : List String → List GraphError → String) where
  abbrev pub plan_graph : String → String → Option (WorkflowGraph N) → Plan
  plan_graph org workflow none = []
  plan_graph org workflow (some g) = plan_nodes org workflow g.nodes

  abbrev pub plan_rows : List (WorkflowRow N) → Plan
  plan_rows [] = []
  plan_rows (w ∷ ws) =
      plan_graph w.organization_id w.id (graph_of parse explain w.graph) ++ plan_rows ws

-- Every key of the plan is the id of a schedule.
abbrev Prefixed : Plan → Type 0
Prefixed [] = Unit
Prefixed ((k, e) ∷ plan) = (has_prefix k ≡ true) × Prefixed plan

Prefixed-append : (p q : Plan) → Prefixed p → Prefixed q → Prefixed (p ++ q)
Prefixed-append [] q hp hq = hq
Prefixed-append (x ∷ p) q hp hq = (hp.0, Prefixed-append p q hp.1 hq)

listed-Prefixed :
    {N : Type 0} (org workflow key : String) (c : NodeConfig N)
    → Prefixed (listed (registration_for org workflow key c))
unfolding registration_for schedule_id_for
listed-Prefixed org workflow key (NodeConfig.trigger (TriggerConfig.schedule cron timezone)) = (
  ap is_some (after_prefix-append schedule_prefix (org +++ (":" +++ (workflow +++ (":" +++ key))))),
  tt,
)
listed-Prefixed org workflow key (NodeConfig.trigger (TriggerConfig.webhook slug)) = tt
listed-Prefixed org workflow key (NodeConfig.trigger (TriggerConfig.app_event name)) = tt
listed-Prefixed org workflow key (NodeConfig.filter c) = tt
listed-Prefixed org workflow key (NodeConfig.transform c) = tt
listed-Prefixed org workflow key (NodeConfig.action c) = tt

plan_nodes-Prefixed :
    {N : Type 0} (org workflow : String) (nodes : List (WorkflowNode N))
    → Prefixed (plan_nodes org workflow nodes)
plan_nodes-Prefixed org workflow [] = tt
plan_nodes-Prefixed org workflow (n ∷ nodes) =
    Prefixed-append _ (plan_nodes org workflow nodes) (listed-Prefixed org workflow n.key n.config)
      (plan_nodes-Prefixed org workflow nodes)

abbrev keys_of : Plan → List String
keys_of plan = map (λ r. r.0) plan

planned_split :
    (plan : Plan) (m : KeyMap Registration) (j : String)
    → planned plan m j ≡ (if mem j (keys_of plan) then planned plan (λ i. none) j else m j)
planned_split [] m j = refl
planned_split ((k, e) ∷ plan) m j = ground (
  arith,
  planned_split plan (λ i. if str_eq k i then some e else m i) j,
  planned_split plan (λ i. if str_eq k i then some e else none) j,
  eq_iff j k,
  eq_iff k j,
)

planned_of_mem :
    (plan : Plan) (m : KeyMap Registration) (j : String)
    → mem j (keys_of plan) ≡ true
    → is_some (planned plan m j) ≡ true
planned_of_mem [] m j h = cc
planned_of_mem ((k, e) ∷ plan) m j h =
    let m' : KeyMap Registration = λ i. if str_eq k i then some e else m i in
    ground (arith, planned_of_mem plan m' j, planned_split plan m' j, eq_iff j k, eq_iff k j)

not_planned :
    (plan : Plan) (j : String) → mem j (keys_of plan) ≡ false → planned plan (λ i. none) j ≡ none
not_planned plan j h = planned_split plan (λ i. none) j ∙ (rw h refl)

mem-keep :
    (p : String → Bool) (xs : List String) (j : String) → mem j (keep p xs) ≡ (p j && mem j xs)
mem-keep p [] j = ground arith
mem-keep p (x ∷ xs) j = elim (Bool-cases (str_eq j x)) [
  | inl same ↦
      let e : j ≡ x = (eq_iff j x).0 same in
      let pe : p j ≡ p x = ap p e in ground (arith, mem-keep p xs j, pe, same)
  | inr other ↦ ground (arith, mem-keep p xs j, other)
]

Prefixed-mem :
    (plan : Plan) (j : String) → Prefixed plan → mem j (keys_of plan) ≡ true → has_prefix j ≡ true
Prefixed-mem [] j h m = cc
Prefixed-mem ((k, e) ∷ plan) j h m = elim (Bool-cases (str_eq j k)) [
  | inl same ↦ ap has_prefix ((eq_iff j k).0 same) ∙ h.0
  | inr other ↦ Prefixed-mem plan j h.1 (rw other at m)
]

module _ (queue : Schedulers) where
  open queue use {State, entry, keys, upsert, remove, mem-keys, entry-upsert, entry-remove}

  -- What a plan makes of the loop's variables.
  record Planned (plan : Plan) (p q : Progress State) : Type 0 where
    entries : (j : String) → entry q.state j ≡ planned plan (entry p.state) j
    wanted : (j : String) → mem j q.desired ≡ (mem j p.desired || mem j (keys_of plan))

  Planned-nil : (p : Progress State) → Planned [] p p
  Planned-nil p = record { entries = λ j. refl; wanted = λ j. ground arith }

  mem-add_id : (j k : String) (ks : List String) → mem j (add_id k ks) ≡ (mem j ks || str_eq j k)
  mem-add_id j k ks = elim (Bool-cases (str_eq j k)) [
    | inl same ↦
        let moved : mem j ks ≡ mem k ks = ap (λ i. mem i ks) ((eq_iff j k).0 same) in
        ground (arith, mem-append j ks (k ∷ []), moved, same)
    | inr other ↦ ground (arith, mem-append j ks (k ∷ []), other)
  ]

  planned_ext :
      (plan : Plan) (m n : KeyMap Registration)
      → ((j : String) → m j ≡ n j)
      → (j : String) → planned plan m j ≡ planned plan n j
  planned_ext plan m n same j = ap (λ f. planned plan f j) (fun_ext same)

  planned-append :
      (a b : Plan) (m : KeyMap Registration) (j : String)
      → planned (a ++ b) m j ≡ planned b (planned a m) j
  planned-append [] b m j = refl
  planned-append ((k, e) ∷ a) b m j = planned-append a b (λ i. if str_eq k i then some e else m i) j

  Planned-trans :
      (a b : Plan) (p q r : Progress State) → Planned a p q → Planned b q r → Planned (a ++ b) p r
  Planned-trans a b p q r pq qr = record {
    entries = λ j.
        qr.entries j
        ∙ planned_ext b (entry q.state) (planned a (entry p.state)) pq.entries j
        ∙ sym (planned-append a b (entry p.state) j);
    wanted = λ j. ground (
      arith,
      pq.wanted j,
      qr.wanted j,
      mem-append j (keys_of a) (keys_of b),
      ap (mem j) (map-append (λ (x : String × Registration). x.0) a b),
    );
  }

  upsert_entry-Planned :
      (r : Option (String × Registration)) (p : Progress State)
      → Planned (listed r) p (upsert_entry queue r p)
  upsert_entry-Planned none p = Planned-nil p
  upsert_entry-Planned (some (k, e)) p = record {
    entries = λ j. entry-upsert j k e p.state;
    wanted = λ j. ground (arith, mem-add_id j k p.desired);
  }

  upsert_nodes-Planned :
      {N : Type 0} (org workflow : String) (nodes : List (WorkflowNode N)) (p : Progress State)
      → Planned (plan_nodes org workflow nodes) p (upsert_nodes queue org workflow nodes p)
  unfolding upsert_nodes
  upsert_nodes-Planned org workflow [] p = Planned-nil p
  upsert_nodes-Planned org workflow (n ∷ nodes) p =
      let r = registration_of org workflow n in
      Planned-trans (listed r) (plan_nodes org workflow nodes) p (upsert_entry queue r p) _
        (upsert_entry-Planned r p)
        (upsert_nodes-Planned org workflow nodes (upsert_entry queue r p))

  entry-remove_all :
      (ks : List String) (s : State) (j : String)
      → entry (remove_all queue ks s) j ≡ (if mem j ks then none else entry s j)
  unfolding remove_all
  entry-remove_all [] s j = refl
  entry-remove_all (k ∷ ks) s j =
      ground (arith, entry-remove_all ks (remove k s) j, entry-remove j k s, eq_iff j k, eq_iff k j)

  module _ {N : Type 0} (parse : Value N → Result (List String) (WorkflowGraph N))
      (explain : List String → List GraphError → String) where
    upsert_graph-Planned :
        (org workflow : String) (g : Option (WorkflowGraph N)) (p : Progress State)
        → Planned
            (plan_graph parse explain org workflow g)
            p
            (upsert_graph queue parse explain org workflow g p)
    upsert_graph-Planned org workflow none p = Planned-nil p
    upsert_graph-Planned org workflow (some g) p = upsert_nodes-Planned org workflow g.nodes p

    upsert_rows-Planned :
        (ws : List (WorkflowRow N)) (p : Progress State)
        → Planned (plan_rows parse explain ws) p (upsert_rows queue parse explain ws p)
    unfolding upsert_rows
    upsert_rows-Planned [] p = Planned-nil p
    upsert_rows-Planned (w ∷ ws) p =
        let g = graph_of parse explain w.graph in
        let q = upsert_graph queue parse explain w.organization_id w.id g p in
        Planned-trans (plan_graph parse explain w.organization_id w.id g)
          (plan_rows parse explain ws) p q _ (upsert_graph-Planned w.organization_id w.id g p)
          (upsert_rows-Planned ws q)

    plan_graph-Prefixed :
        (org workflow : String) (g : Option (WorkflowGraph N))
        → Prefixed (plan_graph parse explain org workflow g)
    plan_graph-Prefixed org workflow none = tt
    plan_graph-Prefixed org workflow (some g) = plan_nodes-Prefixed org workflow g.nodes

    plan_rows-Prefixed : (ws : List (WorkflowRow N)) → Prefixed (plan_rows parse explain ws)
    plan_rows-Prefixed [] = tt
    plan_rows-Prefixed (w ∷ ws) =
        Prefixed-append _ (plan_rows parse explain ws)
          (plan_graph-Prefixed w.organization_id w.id (graph_of parse explain w.graph))
          (plan_rows-Prefixed ws)

    -- After `reconcileSchedules`, the schedulers whose keys begin with "scr:" are exactly those of the
    -- plan: one for each schedule trigger of an active workflow with a valid graph, with the last
    -- registration where an id occurs twice. Every other scheduler is as before.
    pub reconcile_schedules-planned :
        (ws : List (WorkflowRow N)) (s : State) (j : String)
        → entry (reconcile_schedules queue parse explain ws s).1 j ≡ (
            if has_prefix j
            then planned (plan_rows parse explain (active_rows ws)) (λ i. none) j
            else entry s j)
    unfolding reconcile_schedules
    reconcile_schedules-planned ws s j =
        let plan = plan_rows parse explain (active_rows ws) in
        let p = upsert_active queue parse explain ws s in
        let done =
          upsert_rows-Planned (active_rows ws) (record { state = s; desired = []; upserted = 0 }) in
        let stale = keep (is_stale p.desired) (keys p.state) in
        ground (
          arith,
          entry-remove_all stale p.state j,
          mem-keep (is_stale p.desired) (keys p.state) j,
          mem-keys j p.state,
          done.entries j,
          done.wanted j,
          planned_split plan (entry s) j,
          Prefixed-mem plan j (plan_rows-Prefixed (active_rows ws)),
          not_planned plan j,
        )
