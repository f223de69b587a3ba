-- ===== src/Graph.antt =====
-- lib/dag/schema.ts: `validateGraph` and `topoSort`. A `Map` is a function from keys to options. The
-- two `while` loops take fuel, and `none` says that it ran out.
mod Kahn
mod Turns
mod Needs
mod Maps
mod Visits
pub mod Walks
pub mod Validity
pub mod Sorting
pub mod Cycles
mod Duplicates
mod Tests
use b2b_app.Prelude.{
  ℕ, zero, suc, ◌+◌, String, ◌≡◌, Bool, true, false, not, ◌&&◌, ◌||◌, Option, none, some, List, [],
  ◌∷◌, ◌++◌, map, if◌then◌else◌, str_eq, ◌==◌, length, keep, any, get_or, mem, KeyMap, put,
}
use Prim.Native.String
use mathlib.Core.List.{filter_map}
use b2b_app.Prelude.Int.{ℤ, pos, succ, pred, is_zero}
use b2b_app.Workflow.{
  WorkflowNode, WorkflowEdge, WorkflowGraph, NodeConfig, trigger, filter, transform, action,
}

-- One constructor for each message that `validateGraph` pushes.
pub data GraphError : Type 0 where
  no_nodes : GraphError
  trigger_count : (found : ℕ) → GraphError
  unknown_node : WorkflowEdge → GraphError
  self_loop : WorkflowEdge → GraphError
  duplicate_edge : WorkflowEdge → GraphError
  cycle : (involving : List String) → GraphError
  unreachable : (key : String) → GraphError

pub record Tables : Type 0 where
  pub adjacency : KeyMap (List String)
  pub indegree : KeyMap ℤ

abbrev pub empty_tables : Tables
empty_tables = record { adjacency = λ k. none; indegree = λ k. none }

-- One round of the loop over the nodes that fills both maps.
abbrev pub add_key : Tables → String → Tables
add_key t k = record { adjacency = put k [] t.adjacency; indegree = put k (pos 0) t.indegree }

unfoldable pub add_keys : Tables → List String → Tables
add_keys t [] = t
add_keys t (k ∷ ks) = add_keys (add_key t k) ks

-- The two statements for an accepted edge. Both keys are in the maps there.
abbrev pub add_edge : Tables → WorkflowEdge → Tables
add_edge t e = record {
  adjacency = put e.source (get_or (t.adjacency e.source) [] ++ e.target ∷ []) t.adjacency;
  indegree = put e.target (succ (get_or (t.indegree e.target) (pos 0))) t.indegree;
}

-- `${edge.from}\u0000${edge.to}`
abbrev pub pair_of : WorkflowEdge → String
pair_of e = String.◌++◌ e.source (String.◌++◌ "\0" e.target)

-- What the loop over the edges carries.
pub record Scan : Type 0 where
  pub tables : Tables
  pub seen : List String
  pub errors : List GraphError

abbrev pub reject : Scan → GraphError → Scan
reject s e = record s { errors = s.errors ++ e ∷ [] }

-- One round of the loop over the edges.
unfoldable pub scan_edge : List String → Scan → WorkflowEdge → Scan
scan_edge keys s e =
    if not (mem e.source keys) || not (mem e.target keys)
    then reject s (unknown_node e)
    else if str_eq e.source e.target
    then reject s (self_loop e)
    else if mem (pair_of e) s.seen
    then reject s (duplicate_edge e)
    else record { tables = add_edge s.tables e; seen = pair_of e ∷ s.seen; errors = s.errors }

unfoldable pub scan_edges : List String → Scan → List WorkflowEdge → Scan
scan_edges keys s [] = s
scan_edges keys s (e ∷ es) = scan_edges keys (scan_edge keys s e) es

-- The `for` loop over the successors of a key that left the queue.
unfoldable pub relax : KeyMap ℤ → List String → List String → KeyMap ℤ × List String
relax d queue [] = (d, queue)
relax d queue (n ∷ ns) =
    let left = pred (get_or (d n) (pos 0)) in
    relax (put n left d) (if is_zero left then queue ++ n ∷ [] else queue) ns

-- The `while` loop of Kahn's algorithm; `visited` holds the keys in the order of their turn.
unfoldable pub kahn :
    ℕ → KeyMap (List String) → KeyMap ℤ → List String → List String → Option (List String)
kahn fuel adj d [] visited = some visited
kahn zero adj d (k ∷ queue) visited = none
kahn (suc fuel) adj d (k ∷ queue) visited =
    let (d', queue') = relax d queue (get_or (adj k) []) in
    kahn fuel adj d' queue' (visited ++ k ∷ [])

-- graph.nodes.filter(indegree is 0).map(key)
abbrev pub sources_of : KeyMap ℤ → List String → List String
sources_of d keys = keep (λ k. is_zero (get_or (d k) (pos 0))) keys

-- The pushes on the stack, whose top is the head.
abbrev pub push_all : List String → List String → List String
push_all [] stack = stack
push_all (n ∷ ns) stack = push_all ns (n ∷ stack)

-- The `while` loop that walks from the trigger.
unfoldable pub walk : ℕ → KeyMap (List String) → List String → List String → Option (List String)
walk fuel adj [] reachable = some reachable
walk zero adj (k ∷ stack) reachable = none
walk (suc fuel) adj (k ∷ stack) reachable =
    let deeper = walk fuel adj (push_all (get_or (adj k) []) stack) (k ∷ reachable) in
    let skip = walk fuel adj stack reachable in if mem k reachable then skip else deeper

abbrev pub join : Option (List GraphError) → Option (List GraphError) → Option (List GraphError)
join none ys = none
join (some xs) none = none
join (some xs) (some ys) = some (xs ++ ys)

-- topoSort's loop over the edges, which has no tests.
unfoldable pub add_edges : Tables → List WorkflowEdge → Tables
add_edges t [] = t
add_edges t (e ∷ es) = add_edges (add_edge t e) es

module _ {N : Type 0} where
  abbrev pub is_trigger : WorkflowNode N → Bool
  is_trigger n = elim n.config [ trigger c ↦ true | _ ↦ false ]

  abbrev pub keys_of : WorkflowGraph N → List String
  keys_of g = map (λ n. n.key) g.nodes

  -- The first block of `validateGraph`: the count of nodes and of triggers.
  unfoldable pub shape_errors : WorkflowGraph N → List GraphError
  shape_errors g =
      let triggers = length (keep is_trigger g.nodes) in
      (if length g.nodes == 0 then no_nodes ∷ [] else [])
      ++ (if triggers == 1 then [] else trigger_count triggers ∷ [])

  -- The maps and errors after both loops that fill them.
  unfoldable pub scanned : WorkflowGraph N → Scan
  scanned g =
      scan_edges (keys_of g)
        (record { tables = add_keys empty_tables (keys_of g); seen = []; errors = [] }) g.edges

  -- Keys that Kahn's algorithm visits, over the maps of a scan.
  unfoldable pub visit_order : WorkflowGraph N → Tables → Option (List String)
  visit_order g t =
      kahn (length g.nodes) t.adjacency t.indegree (sources_of t.indegree (keys_of g)) []

  unfoldable pub cycle_errors : WorkflowGraph N → List String → List GraphError
  cycle_errors g visited =
      if length visited == length g.nodes
      then []
      else cycle (keep (λ k. not (mem k visited)) (keys_of g)) ∷ []

  unfoldable pub cycle_check : WorkflowGraph N → Tables → Option (List GraphError)
  cycle_check g t = elim (visit_order g t) [ none ↦ none | some vs ↦ some (cycle_errors g vs) ]

  -- triggers[0]?.key, where an empty key counts as none.
  unfoldable pub trigger_key : List (WorkflowNode N) → Option String
  trigger_key [] = none
  trigger_key (n ∷ ns) =
      if is_trigger n then if str_eq n.key "" then none else some n.key else trigger_key ns

  -- Keys reached from the trigger.
  unfoldable pub reach_from : WorkflowGraph N → Tables → String → Option (List String)
  reach_from g t start = walk (suc (length g.edges)) t.adjacency (start ∷ []) []

  abbrev pub reach_errors : WorkflowGraph N → List String → List GraphError
  reach_errors g reachable = map unreachable (keep (λ k. not (mem k reachable)) (keys_of g))

  unfoldable pub reach_check : WorkflowGraph N → Tables → Option String → Option (List GraphError)
  reach_check g t none = some []
  reach_check g t (some start) = elim (reach_from g t start) [
    | none ↦ none
    | some reachable ↦ some (reach_errors g reachable)
  ]

  -- The list of errors; the graph is valid where it is empty.
  unfoldable pub validate_graph : WorkflowGraph N → Option (List GraphError)
  validate_graph g =
      let s = scanned g in
      join (some (shape_errors g ++ s.errors))
        (join (cycle_check g s.tables) (reach_check g s.tables (trigger_key g.nodes)))

  unfoldable pub sort_tables : WorkflowGraph N → Tables
  sort_tables g = add_edges (add_keys empty_tables (keys_of g)) g.edges

  -- new Map(nodes.map((n) => [n.key, n])): of two nodes with one key the later stays.
  unfoldable pub index_from :
      KeyMap (WorkflowNode N) → List (WorkflowNode N) → KeyMap (WorkflowNode N)
  index_from m [] = m
  index_from m (n ∷ ns) = index_from (put n.key n m) ns

  -- sorted.push(byKey.get(key)!), key by key.
  abbrev pub nodes_at : KeyMap (WorkflowNode N) → List String → List (WorkflowNode N)
  nodes_at m ks = filter_map m ks

pub data Sorted (N : Type 0) : Type 0 where
  order : List (WorkflowNode N) → Sorted N
  invalid : List GraphError → Sorted N

module _ {N : Type 0} where
  unfoldable pub sort_valid : WorkflowGraph N → Option (Sorted N)
  sort_valid g = elim (visit_order g (sort_tables g)) [
    | none ↦ none
    | some keys ↦ some (order (nodes_at (index_from (λ k. none) g.nodes) keys))
  ]

  unfoldable pub topo_sort : WorkflowGraph N → Option (Sorted N)
  topo_sort g = elim (validate_graph g) [
    | none ↦ none
    | some [] ↦ sort_valid g
    | some (e ∷ es) ↦ some (invalid (e ∷ es))
  ]

-- What a test computes with.
unfoldable pub program : Unit {0}
unfolding topo_sort validate_graph sort_valid shape_errors scanned scan_edges scan_edge add_keys
    visit_order kahn relax cycle_check cycle_errors trigger_key reach_check reach_from walk
    sort_tables add_edges index_from filter_map
program = tt
