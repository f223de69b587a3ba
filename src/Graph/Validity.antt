-- ===== src/Graph/Validity.antt =====
-- What `validateGraph` establishes: it always ends, and what holds of a graph without errors.
use b2b_app.Prelude.{
  ℕ, suc, ◌≤◌, String, ◌≡◌, ◌↔◌, refl, sym, ap, ◌∙◌, Bool, true, false, not, Option, none, some,
  List, [], ◌∷◌, ◌++◌, arith, eq_iff, length, mem, map, length-map, keep,
}
use mathlib.Core.Path.{subst}
use b2b_app.Workflow.{WorkflowNode, WorkflowEdge, WorkflowGraph}
use b2b_app.Graph.{
  GraphError, unreachable, empty_tables, add_keys, sources_of, kahn, keys_of, shape_errors, scanned,
  visit_order, cycle_check, cycle_errors, trigger_key, reach_from, reach_errors, reach_check,
  validate_graph,
}
use b2b_app.Graph.Maps.{
  AllListed, accepted, scan_edges-tables, accepted-AllListed, accepted_all, built, built-adjacency,
}
use b2b_app.Graph.Visits.{visit_total}
use b2b_app.Graph.Walks.{Reach, walk_from_total, walk-mem_iff}

append_eq_nil : (xs ys : List GraphError) → xs ++ ys ≡ [] → (xs ≡ []) × (ys ≡ [])
append_eq_nil [] ys e = (refl, e)
append_eq_nil (x ∷ xs) ys e = cc

map_eq_nil : (ks : List String) → map unreachable ks ≡ [] → ks ≡ []
map_eq_nil [] e = refl
map_eq_nil (k ∷ ks) e = cc

keep_none :
    (p : String → Bool) (ks : List String) (k : String)
    → keep p ks ≡ []
    → mem k ks ≡ true
    → p k ≡ false
keep_none p [] k e m = cc
keep_none p (x ∷ ks) k e m = ground (arith, keep_none p ks k, eq_iff k x)

module _ {N : Type 0} (g : WorkflowGraph N) where
  -- The edges that the scan accepts.
  abbrev pub kept_edges : List WorkflowEdge
  kept_edges =
      accepted (keys_of g)
        (record { tables = add_keys empty_tables (keys_of g); seen = []; errors = [] }) g.edges

  pub scanned-tables : (scanned g).tables ≡ built (keys_of g) kept_edges
  unfolding scanned
  scanned-tables = scan_edges-tables (keys_of g) g.edges _

  pub kept-AllListed : AllListed (keys_of g) kept_edges × (length kept_edges ≤ length g.edges)
  kept-AllListed = accepted-AllListed (keys_of g) g.edges _

  pub kept_all : (scanned g).errors ≡ [] → kept_edges ≡ g.edges
  unfolding scanned
  kept_all e = accepted_all (keys_of g) g.edges _ e

  pub visit_order-built :
      (es : List WorkflowEdge)
      → visit_order g (built (keys_of g) es)
        ≡ kahn
            (length (keys_of g))
            (built (keys_of g) es).adjacency
            (built (keys_of g) es).indegree
            (sources_of (built (keys_of g) es).indegree (keys_of g))
            []
  unfolding visit_order
  visit_order-built es =
      ap
        (λ (n : ℕ).
          kahn n (built (keys_of g) es).adjacency (built (keys_of g) es).indegree
            (sources_of (built (keys_of g) es).indegree (keys_of g)) [])
        (sym (length-map (λ (n : WorkflowNode N). n.key) g.nodes))

  pub visit_order_total : (out : List String) × (visit_order g (scanned g).tables ≡ some out)
  visit_order_total =
      let (out, e) = visit_total (keys_of g) kept_edges kept-AllListed.0 in
      (out, ap (visit_order g) scanned-tables ∙ visit_order-built kept_edges ∙ e)

  reach_from_total :
      (start : String) → (out : List String) × (reach_from g (scanned g).tables start ≡ some out)
  unfolding reach_from
  reach_from_total start = rw scanned-tables (
      walk_from_total (built (keys_of g) kept_edges).adjacency kept_edges
        (built-adjacency (keys_of g) kept_edges) start (suc (length g.edges))
        (omega (arith, kept-AllListed.1)))

  reach_check_total :
      (start : Option String)
      → (out : List GraphError) × (reach_check g (scanned g).tables start ≡ some out)
  unfolding reach_check
  reach_check_total none = ([], refl)
  reach_check_total (some start) =
      let (out, e) = reach_from_total start in (reach_errors g out, rw (e, reach_check))

module _ {N : Type 0} (g : WorkflowGraph N) where
  pub cycle_check-visited :
      (vs : List String)
      → visit_order g (scanned g).tables ≡ some vs
      → cycle_check g (scanned g).tables ≡ some (cycle_errors g vs)
  unfolding cycle_check
  cycle_check-visited vs e = rw (e, cycle_check)

  validate_graph-parts :
      (vs : List String) (rs : List GraphError)
      → visit_order g (scanned g).tables ≡ some vs
      → reach_check g (scanned g).tables (trigger_key g.nodes) ≡ some rs
      → validate_graph g
        ≡ some ((shape_errors g ++ (scanned g).errors) ++ (cycle_errors g vs ++ rs))
  unfolding validate_graph
  validate_graph-parts vs rs visited reached = rw (cycle_check-visited vs visited, reached)

  -- `validateGraph` always ends with a list of errors: both of its `while` loops end within the
  -- fuel of their models, whatever the graph.
  pub validate_graph_total : (errors : List GraphError) × (validate_graph g ≡ some errors)
  validate_graph_total =
      let (vs, visited) = visit_order_total g in
      let (rs, reached) = reach_check_total g (trigger_key g.nodes) in
      (
        (shape_errors g ++ (scanned g).errors) ++ (cycle_errors g vs ++ rs),
        validate_graph-parts vs rs visited reached,
      )

  -- The parts of a verdict without errors.
  pub record IsClean : Type 0 where
    pub shaped : shape_errors g ≡ []
    pub scanned_clean : (scanned g).errors ≡ []
    pub visited : List String
    pub visits : visit_order g (scanned g).tables ≡ some visited
    pub all_visited : length visited ≡ length g.nodes
    pub reaches : reach_check g (scanned g).tables (trigger_key g.nodes) ≡ some []

  pub cycle_errors-length : (vs : List String) → cycle_errors g vs ≡ [] → length vs ≡ length g.nodes
  unfolding cycle_errors
  cycle_errors-length vs e = ground arith

  pub cycle_errors-full : (vs : List String) → length vs ≡ length g.nodes → cycle_errors g vs ≡ []
  unfolding cycle_errors
  cycle_errors-full vs e = ground arith

  pub valid-IsClean : validate_graph g ≡ some [] → IsClean
  valid-IsClean e =
      let (vs, visited) = visit_order_total g in
      let (rs, reached) = reach_check_total g (trigger_key g.nodes) in
      let nothing : (shape_errors g ++ (scanned g).errors) ++ (cycle_errors g vs ++ rs) ≡ [] =
        cc (validate_graph-parts vs rs visited reached) in
      let (front, back) = append_eq_nil _ _ nothing in
      let (shaped, clean) = append_eq_nil _ _ front in
      let (acyclic, all_reached) = append_eq_nil _ _ back in
      record {
        shaped = shaped;
        scanned_clean = clean;
        visited = vs;
        visits = visited;
        all_visited = cycle_errors-length vs acyclic;
        reaches = reached ∙ ap some all_reached;
      }

  -- Over a valid graph, `topoSort` fills the very maps of the validation.
  pub clean-tables : IsClean → (scanned g).tables ≡ built (keys_of g) g.edges
  clean-tables c = scanned-tables g ∙ ap (built (keys_of g)) (kept_all g c.scanned_clean)

  pub clean-AllListed : IsClean → AllListed (keys_of g) g.edges
  clean-AllListed c =
      subst (AllListed (keys_of g)) (kept_all g c.scanned_clean) (kept-AllListed g).0

  reach_none :
      (start : String) (out : List String)
      → reach_from g (scanned g).tables start ≡ some out
      → reach_check g (scanned g).tables (some start) ≡ some []
      → reach_errors g out ≡ []
  unfolding reach_check
  reach_none start out e h = ground arith

  clean-reached :
      (c : IsClean) (start : String) (out : List String)
      → reach_from g (scanned g).tables start ≡ some out
      → (j : String) → (mem j out ≡ true) ↔ Reach g.edges start j
  unfolding reach_from
  clean-reached c start out e j =
      walk-mem_iff (built (keys_of g) g.edges).adjacency g.edges
        (built-adjacency (keys_of g) g.edges) start (suc (length g.edges)) out
        (rw (clean-tables c) at e) j

  -- In a graph that `validateGraph` accepts, whose first trigger has a key that is not empty, edges
  -- lead from that key to the key of every node.
  pub valid-Reach :
      (start key : String)
      → validate_graph g ≡ some []
      → trigger_key g.nodes ≡ some start
      → mem key (keys_of g) ≡ true
      → Reach g.edges start key
  valid-Reach start key valid is_start listed =
      let c = valid-IsClean valid in
      let (out, e) = reach_from_total g start in
      let none_left = map_eq_nil _ (reach_none start out e (rw is_start at c.reaches)) in
      let missing = keep_none (λ k. not (mem k out)) (keys_of g) key none_left listed in
      (clean-reached c start out e key).0 (ground arith)
