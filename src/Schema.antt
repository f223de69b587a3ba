-- ===== src/Schema.antt =====
-- lib/dag/schema.ts: `safeParseWorkflowGraph`.
use b2b_app.Prelude.{◌≡◌, ◌≢◌, String, Option, none, some, List, [], ◌∷◌, Result, ok, err}
use b2b_app.Json.{Value}
use b2b_app.Workflow.{WorkflowGraph}
use b2b_app.Graph.{GraphError, validate_graph}
use b2b_app.Graph.Validity.{validate_graph_total}

-- `parse` is the part of the graph's schema that zod checks field by field, and `explain` puts the
-- errors of a refused graph into the words of the code's messages.
module _ {N : Type 0} (parse : Value N → Result (List String) (WorkflowGraph N))
    (explain : List String → List GraphError → String) where
  -- safeParseWorkflowGraph: the fields first, then `validateGraph`. `none` is a lack of fuel.
  unfoldable pub check_graph :
      WorkflowGraph N → Option (List GraphError) → Option (Result String (WorkflowGraph N))
  check_graph g none = none
  check_graph g (some []) = some (ok g)
  check_graph g (some (e ∷ es)) = some (err (explain [] (e ∷ es)))

  unfoldable pub check_fields :
      Result (List String) (WorkflowGraph N) → Option (Result String (WorkflowGraph N))
  check_fields (err issues) = some (err (explain issues []))
  check_fields (ok g) = check_graph g (validate_graph g)

  unfoldable pub safe_parse : Value N → Option (Result String (WorkflowGraph N))
  safe_parse v = check_fields (parse v)

  check_graph_total :
      (g : WorkflowGraph N) (o : Option (List GraphError)) {errors : List GraphError}
      → o ≡ some errors
      → check_graph g o ≢ none
  unfolding check_graph
  check_graph_total g none e h = cc
  check_graph_total g (some []) e h = cc
  check_graph_total g (some (x ∷ xs)) e h = cc

  pub check_fields_total : (x : Result (List String) (WorkflowGraph N)) → check_fields x ≢ none
  unfolding check_fields
  check_fields_total (err issues) h = cc
  check_fields_total (ok g) h =
      let (errors, e) = validate_graph_total g in check_graph_total g (validate_graph g) e h

  -- The graph where the stored value is a valid one. A lack of fuel, which does not occur, counts as
  -- invalid.
  abbrev pub valid_of : Option (Result String (WorkflowGraph N)) → Option (WorkflowGraph N)
  valid_of none = none
  valid_of (some (err error)) = none
  valid_of (some (ok g)) = some g
