-- ===== src/Graph/Sorting.antt =====
-- What `topoSort` returns.
use mathlib.Core.List.Perm
use mathlib.Core.List.{Perm, Memᴰ, filter_map, filter_map-cons-some, append_assoc, append-nil}
use mathlib.Core.Path.{subst}
use b2b_app.Prelude.{
  String, ◌≡◌, ◌≢◌, ◌⊎◌, refl, sym, ap, ◌∙◌, true, false, none, some, List, [], ◌∷◌, ◌++◌, arith,
  str_eq, eq_iff, eq_refl, mem, KeyMap, map, put, Bool-cases, inl, inr, length-map, count_of_mem,
  perm_of_Included, Once,
}
use b2b_app.Workflow.{WorkflowNode, WorkflowEdge, WorkflowGraph}
use b2b_app.Graph.{
  GraphError, keys_of, validate_graph, visit_order, sort_tables, index_from, nodes_at, order,
  invalid, sort_valid, topo_sort,
}
use b2b_app.Graph.Needs.{IsTurnOrder, IsOrdered, unmet}
use b2b_app.Graph.Maps.{built}
use b2b_app.Graph.Visits.{visit_sound}
use b2b_app.Graph.Validity.{
  validate_graph_total, IsClean, valid-IsClean, clean-tables, clean-AllListed, visit_order-built,
}

module _ {N : Type 0} where
  abbrev key_list : List (WorkflowNode N) → List String
  key_list ns = map (λ n. n.key) ns

  index_from-kept :
      (ns : List (WorkflowNode N)) (m : KeyMap (WorkflowNode N)) (k : String)
      → mem k (key_list ns) ≡ false
      → index_from m ns k ≡ m k
  unfolding index_from
  index_from-kept [] m k h = refl
  index_from-kept (n ∷ ns) m k h =
      ground (arith, index_from-kept ns (put n.key n m) k, eq_iff n.key k, eq_iff k n.key)

  -- With distinct keys, looking up every node's key gives the nodes back.
  nodes_at-index_from :
      (ns : List (WorkflowNode N)) (m : KeyMap (WorkflowNode N))
      → Once (key_list ns)
      → nodes_at (index_from m ns) (key_list ns) ≡ ns
  unfolding index_from filter_map
  nodes_at-index_from [] m once = refl
  nodes_at-index_from (n ∷ ns) m once =
      let rest = nodes_at-index_from ns (put n.key n m) (λ j. omega (arith, once j)) in
      let later : mem n.key (key_list ns) ≡ false = elim (Bool-cases (mem n.key (key_list ns))) [
        | inl m' ↦
            absurd (ground (arith, once n.key, count_of_mem n.key (key_list ns), eq_refl n.key))
        | inr m' ↦ m'
      ] in
      let found : index_from (put n.key n m) ns n.key ≡ some n =
        index_from-kept ns (put n.key n m) n.key later ∙ ground (arith, eq_refl n.key) in
      filter_map-cons-some _ n.key (key_list ns) found ∙ ap (λ l. n ∷ l) rest

  nodes_at-perm :
      (m : KeyMap (WorkflowNode N)) {xs ys : List String}
      → Perm xs ys
      → Perm (nodes_at m xs) (nodes_at m ys)
  nodes_at-perm m p = Perm.filter_map m p

  -- What the index holds at a key is a node with that key.
  abbrev IsKeyed : KeyMap (WorkflowNode N) → Type 0
  IsKeyed m = (k : String) (n : WorkflowNode N) → m k ≡ some n → n.key ≡ k

  index_from-IsKeyed :
      (ns : List (WorkflowNode N)) (m : KeyMap (WorkflowNode N))
      → IsKeyed m
      → IsKeyed (index_from m ns)
  unfolding index_from
  index_from-IsKeyed [] m h = h
  index_from-IsKeyed (n ∷ ns) m h =
      index_from-IsKeyed ns (put n.key n m) (λ k n' e. ground (arith, h k n', eq_iff n.key k))

  index_from-present :
      (ns : List (WorkflowNode N)) (m : KeyMap (WorkflowNode N)) (k : String)
      → (mem k (key_list ns) ≡ true) ⊎ ((n : WorkflowNode N) × (m k ≡ some n))
      → (n : WorkflowNode N) × (index_from m ns k ≡ some n)
  unfolding index_from
  index_from-present [] m k (inl h) = cc
  index_from-present [] m k (inr h) = h
  index_from-present (x ∷ ns) m k h = elim (Bool-cases (str_eq x.key k)) [
    | inl same ↦ index_from-present ns (put x.key x m) k (inr (x, ground arith))
    | inr other ↦ index_from-present ns (put x.key x m) k (later other h)
  ]
    where
      later :
          str_eq x.key k ≡ false
          → (mem k (key_list (x ∷ ns)) ≡ true) ⊎ ((n : WorkflowNode N) × (m k ≡ some n))
          → (mem k (key_list ns) ≡ true) ⊎ ((n : WorkflowNode N) × (put x.key x m k ≡ some n))
      later other (inl e) = inl (ground (arith, eq_iff k x.key, eq_iff x.key k))
      later other (inr (n, e)) = inr (n, ground arith)

  key_list-nodes_at :
      (ns : List (WorkflowNode N)) (ks : List String)
      → ((j : String) → mem j ks ≡ true → mem j (key_list ns) ≡ true)
      → key_list (nodes_at (index_from (λ k. none) ns) ks) ≡ ks
  unfolding filter_map
  key_list-nodes_at ns [] incl = refl
  key_list-nodes_at ns (k ∷ ks) incl =
      let idx = index_from (λ k. none) ns in
      let (n, found) =
        index_from-present ns (λ k. none) k (inl (incl k (ground (arith, eq_refl k)))) in
      let keyed = index_from-IsKeyed ns (λ k. none) (λ k n e. cc) k n found in
      let rest = key_list-nodes_at ns ks (λ j m. incl j (ground arith)) in
      ap key_list (filter_map-cons-some idx k ks found) ∙ cc

-- The keys of a visiting order that reached every node are the graph's keys, each once.
module _ {N : Type 0} (g : WorkflowGraph N) (distinct : Once (keys_of g))
    (ns : List (WorkflowNode N)) (sorted : topo_sort g ≡ some (order ns)) where
  sorted_valid : (validate_graph g ≡ some []) × (sort_valid g ≡ some (order ns))
  unfolding topo_sort
  sorted_valid = let (errors, e) = validate_graph_total g in (ground (arith, e), ground (arith, e))

  clean : IsClean g
  clean = valid-IsClean g sorted_valid.0

  sort_tables-built : sort_tables g ≡ built (keys_of g) g.edges
  unfolding sort_tables
  sort_tables-built = refl

  visits : visit_order g (sort_tables g) ≡ some clean.visited
  visits = rw (sort_tables-built, ← clean-tables g clean) clean.visits

  turns : IsTurnOrder (keys_of g) g.edges clean.visited
  turns = visit_sound (keys_of g) g.edges (clean-AllListed g clean) distinct clean.visited (
      sym (visit_order-built g g.edges)
      ∙ ap (visit_order g) (sym (clean-tables g clean))
      ∙ clean.visits)

  sorted-nodes_at : ns ≡ nodes_at (index_from (λ k. none) g.nodes) clean.visited
  unfolding sort_valid
  sorted-nodes_at = ground (arith, visits, sorted_valid.1)

  keys-sorted : map (λ n. n.key) ns ≡ clean.visited
  keys-sorted =
      ap (map (λ n. n.key)) sorted-nodes_at
      ∙ key_list-nodes_at g.nodes clean.visited turns.counted.known

  -- For a graph with distinct keys, `topoSort` returns the graph's nodes, each exactly once.
  pub topo_sort-perm : Perm ns g.nodes
  topo_sort-perm =
      let p =
        perm_of_Included clean.visited (keys_of g) turns.counted.once turns.counted.known
          (clean.all_visited ∙ sym (length-map (λ (n : WorkflowNode N). n.key) g.nodes)) in
      rw (sorted-nodes_at) (
        subst (λ l. Perm (nodes_at (index_from (λ k. none) g.nodes) clean.visited) l)
          (nodes_at-index_from g.nodes (λ k. none) distinct)
          (nodes_at-perm (index_from (λ k. none) g.nodes) p))

-- In an ordered list every source of an edge into `k` stands before `k`.
pub met_source :
    (edges : List WorkflowEdge) (seen : List String) (k : String) (e : WorkflowEdge)
    → unmet seen edges k ≡ 0
    → Memᴰ e edges
    → e.target ≡ k
    → mem e.source seen ≡ true
met_source [] seen k e met m at = elim m [ ]
met_source (x ∷ es) seen k e met (Memᴰ.head same) at = ground (arith, eq_iff k x.target)
met_source (x ∷ es) seen k e met (Memᴰ.tail m) at = met_source es seen k e (ground arith) m at

pub IsOrdered-split :
    (edges : List WorkflowEdge) (before after seen : List String) (k : String)
    → IsOrdered edges seen (before ++ k ∷ after)
    → unmet (seen ++ before) edges k ≡ 0
IsOrdered-split edges [] after seen k (met, _) = rw append-nil met
IsOrdered-split edges (x ∷ before) after seen k (_, o) =
    rw append_assoc at (IsOrdered-split edges before after (seen ++ x ∷ []) k o)

-- For a graph with distinct keys, wherever an edge's target stands in the list that `topoSort`
-- returns, the edge's source stands before it.
pub topo_sort-ordered :
    {N : Type 0} (g : WorkflowGraph N)
    → Once (keys_of g)
    → (ns : List (WorkflowNode N)) → topo_sort g ≡ some (order ns)
    → (e : WorkflowEdge) → Memᴰ e g.edges
    → (before after : List String) → map (λ n. n.key) ns ≡ before ++ e.target ∷ after
    → mem e.source before ≡ true
topo_sort-ordered g distinct ns sorted e m before after split =
    let o = (turns g distinct ns sorted).ordered in
    let o' = subst (IsOrdered g.edges []) (sym (keys-sorted g distinct ns sorted) ∙ split) o in
    met_source g.edges before e.target e (IsOrdered-split g.edges before after [] e.target o') m
      refl

module _ {N : Type 0} (g : WorkflowGraph N) where
  sort_valid_total : IsClean g → (ns : List (WorkflowNode N)) × (sort_valid g ≡ some (order ns))
  unfolding sort_valid
  sort_valid_total c =
      let visits : visit_order g (sort_tables g) ≡ some c.visited =
        unfold sort_tables in rw (← clean-tables g c) c.visits in
      (nodes_at (index_from (λ k. none) g.nodes) c.visited, rw (visits, sort_valid))

  topo_sort-verdict :
      (errors : List GraphError)
      → validate_graph g ≡ some errors
      → ((ns : List (WorkflowNode N)) × (topo_sort g ≡ some (order ns)) × (errors ≡ []))
        ⊎ ((topo_sort g ≡ some (invalid errors)) × (errors ≢ []))
  unfolding topo_sort
  topo_sort-verdict [] e =
      let (ns, sorted) = sort_valid_total (valid-IsClean g e) in
      inl (ns, rw (e, topo_sort) sorted, refl)
  topo_sort-verdict (x ∷ errors) e = inr (rw (e, topo_sort), (λ f. cc))

  -- `topoSort` always ends: with an order where `validateGraph` finds no error, and with its list
  -- of errors where it finds some.
  pub topo_sort_total :
      (errors : List GraphError) × (validate_graph g ≡ some errors)
      × (((ns : List (WorkflowNode N)) × (topo_sort g ≡ some (order ns)) × (errors ≡ []))
          ⊎ ((topo_sort g ≡ some (invalid errors)) × (errors ≢ [])))
  topo_sort_total =
      let (errors, e) = validate_graph_total g in (errors, e, topo_sort-verdict errors e)
