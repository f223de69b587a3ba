-- ===== src/Graph/Tests.antt =====
-- Concrete graphs.
use mathlib.Core.List.{Memᴰ, Perm}
use b2b_app.Prelude.{
  Once-of_all, ℕ, ◌≡◌, ◌≢◌, ◌↔◌, ◌⊎◌, refl, String, none, some, List, [], ◌∷◌, Once, true, mem,
}
use b2b_app.Workflow.{
  WorkflowNode, WorkflowEdge, WorkflowGraph, trigger, transform, action, app_event, slack,
}
use b2b_app.Graph.{
  GraphError, cycle, order, invalid, validate_graph, topo_sort, scanned, cycle_check, keys_of,
  program,
}
use b2b_app.Graph.Walks.{Reach}
use b2b_app.Graph.Validity.{valid-Reach}
use b2b_app.Graph.Sorting.{topo_sort-perm, topo_sort-ordered, topo_sort_total}
use b2b_app.Graph.Duplicates.{IsLast, topo_sort-IsLast}
use b2b_app.Graph.Cycles.{IsAcyclic, cycle_check-IsAcyclic}

abbrev start : WorkflowNode ℕ
start = record { key = "start"; label = none; config = trigger (app_event "order.created") }

abbrev shape : WorkflowNode ℕ
shape = record { key = "shape"; label = none; config = transform (record { mappings = [] }) }

abbrev notify : WorkflowNode ℕ
notify = record {
  key = "notify";
  label = some "Notify";
  config = action (slack (record { credential_id = "c"; text = "hi"; channel = none }));
}

abbrev edge : String → String → WorkflowEdge
edge a b = record { source = a; target = b }

-- The action is listed before the transform that it depends on.
abbrev pub pipeline : WorkflowGraph ℕ
pipeline = record {
  nodes = start ∷ notify ∷ shape ∷ [];
  edges = edge "start" "shape" ∷ edge "shape" "notify" ∷ edge "start" "notify" ∷ [];
}

pub pipeline_order : topo_sort pipeline ≡ some (order (start ∷ shape ∷ notify ∷ []))
unfolding program
pipeline_order = refl

pipeline_valid : validate_graph pipeline ≡ some []
unfolding program
pipeline_valid = refl

abbrev looped : WorkflowGraph ℕ
looped = record {
  nodes = start ∷ notify ∷ shape ∷ [];
  edges = edge "start" "shape" ∷ edge "shape" "notify" ∷ edge "notify" "shape" ∷ [];
}

looped_rejected : validate_graph looped ≡ some (cycle ("notify" ∷ "shape" ∷ []) ∷ [])
unfolding program
looped_rejected = refl

pipeline_distinct : Once (keys_of pipeline)
pipeline_distinct = Once-of_all (keys_of pipeline) refl

topo_sort-perm_example : Perm (start ∷ shape ∷ notify ∷ []) pipeline.nodes
topo_sort-perm_example =
    topo_sort-perm pipeline pipeline_distinct (start ∷ shape ∷ notify ∷ []) pipeline_order

topo_sort-ordered_example : mem "shape" ("start" ∷ "shape" ∷ []) ≡ true
topo_sort-ordered_example =
    topo_sort-ordered pipeline pipeline_distinct (start ∷ shape ∷ notify ∷ []) pipeline_order
      (edge "shape" "notify") (Memᴰ.tail (Memᴰ.head refl)) ("start" ∷ "shape" ∷ []) [] refl

topo_sort_total_example :
    (errors : List GraphError) × (validate_graph looped ≡ some errors)
    × (((ns : List (WorkflowNode ℕ)) × (topo_sort looped ≡ some (order ns)) × (errors ≡ []))
        ⊎ ((topo_sort looped ≡ some (invalid errors)) × (errors ≢ [])))
topo_sort_total_example = topo_sort_total looped

valid-Reach_example : Reach pipeline.edges "start" "notify"
unfolding program
valid-Reach_example = valid-Reach pipeline "start" "notify" pipeline_valid refl refl

cycle_check-IsAcyclic_example :
    (cycle_check looped (scanned looped).tables ≡ some []) ↔ IsAcyclic looped.edges
unfolding program
cycle_check-IsAcyclic_example =
    cycle_check-IsAcyclic looped (Once-of_all (keys_of looped) refl) refl

-- An action under the trigger's own key.
abbrev shadow : WorkflowNode ℕ
shadow = record notify { key = "start" }

abbrev doubled : WorkflowGraph ℕ
doubled = record { nodes = start ∷ shadow ∷ []; edges = [] }

doubled_order : topo_sort doubled ≡ some (order (shadow ∷ shadow ∷ []))
unfolding program
doubled_order = refl

topo_sort-IsLast_example : IsLast shadow doubled.nodes
topo_sort-IsLast_example =
    topo_sort-IsLast doubled (shadow ∷ shadow ∷ []) shadow doubled_order (Memᴰ.head refl)
