-- ===== src/Execute/Samples.antt =====
-- A world and tables to try `executeWorkflowRun` with.
use b2b_app.Prelude.{
  ℕ, ◌+◌, ◌*◌, ◌≡◌, refl, String, Bool, true, false, not, Option, none, some, List, [], ◌∷◌, ◌++◌,
  map, if◌then◌else◌, str_eq, Result, ok, any, find, keep, tally, ltb, leb, Bool-cases, inl, inr,
}
use b2b_app.Json.{Value, null, Js}
use b2b_app.Workflow.{WorkflowNode, WorkflowGraph, WorkflowEdge, trigger, action, app_event, slack}
use b2b_app.Graph.{GraphError}
use b2b_app.Database.{Table}
use b2b_app.Runner.Steps.{Reply, replied, World}
use b2b_app.Execute.{Job, JobType, WorkflowRow, RunRow}

abbrev pub plain : Js
plain = record {
  Number = ℕ;
  lt = ltb;
  le = leb;
  eq = λ m n. if leb m n then leb n m else false;
  to_text = λ v. some "";
  includes = str_eq;
  starts_with = str_eq;
  ends_with = str_eq;
  regex_test = λ p s. none;
  inherited = λ k. none;
  of_nat = λ n. n;
}

-- A dispatcher that refuses the node "bad", and counts its calls.
abbrev pub answer : String → Reply ℕ
answer key = replied (record {
  http_status = some 400;
  is_ok = not (str_eq key "bad");
  retryable = false;
  output = null;
  error_message = some "refused";
})

abbrev pub counting : World ℕ
counting = record {
  State = ℕ;
  dispatch = λ node context attempt s. (answer node.key, s + 1);
  random_below = λ full s. (0, s);
  random_below-lt = λ full s h. h;
  random_below-zero = λ s. refl;
  sleep = λ ms s. s;
  clock = λ n. 10 * n;
}

abbrev pub Row : Type 0
Row = RunRow ℕ

abbrev pub clashes : Row → Row → Bool
clashes r x = str_eq x.execution_id r.execution_id

abbrev pub insert : Row → List Row → Option (List Row)
insert r s = if any (clashes r) s then none else some (s ++ r ∷ [])

pub insert-made : (r : Row) (s s' : List Row) → insert r s ≡ some s' → s' ≡ s ++ r ∷ []
insert-made r s s' e = elim (Bool-cases (any (clashes r) s)) [
  | inl taken ↦ let h = rw taken at e in cc
  | inr free ↦ let h = rw free at e in cc
]

pub insert_unique : (r : Row) (s : List Row) → any (clashes r) s ≡ true → insert r s ≡ none
insert_unique r s h = rw h refl

abbrev pub unique_rows : Table Row
unique_rows = record {
  State = List Row;
  rows = λ s. s;
  create = insert;
  update_many = λ p f s. (tally p s, map (λ r. if p r then f r else r) s);
  delete_many = λ p s. (tally p s, keep (λ r. not (p r)) s);
  find_first = λ p s. find p s;
  rows-create = insert-made;
  rows-update_many = λ p f s. refl;
  count-update_many = λ p f s. refl;
  rows-delete_many = λ p s. refl;
  find_first-rows = λ p s. refl;
}

abbrev pub start : WorkflowNode ℕ
start = record { key = "start"; label = none; config = trigger (app_event "order.created") }

abbrev pub send : String → WorkflowNode ℕ
send key = record {
  key = key;
  label = none;
  config = action (slack (record { credential_id = "c"; text = "hi"; channel = none }));
}

abbrev pub edge : String → String → WorkflowEdge
edge a b = record { source = a; target = b }

abbrev pub graph : WorkflowGraph ℕ
graph = record {
  nodes = start ∷ send "bad" ∷ send "late" ∷ [];
  edges = edge "start" "bad" ∷ edge "bad" "late" ∷ [];
}

abbrev pub workflows : List (WorkflowRow ℕ)
workflows =
    (record { id = "w"; organization_id = "o"; status = "active"; version = 1; graph = null }) ∷ []

abbrev pub parse : Value ℕ → Result (List String) (WorkflowGraph ℕ)
parse v = ok graph

abbrev pub explain : List String → List GraphError → String
explain issues errors = "invalid"

abbrev pub job : Job ℕ
job = record {
  job_type = JobType.webhook;
  organization_id = "o";
  workflow_id = "w";
  execution_id = "x";
  event = record { id = "e"; occurred_at_ms = 0; payload = null };
}
