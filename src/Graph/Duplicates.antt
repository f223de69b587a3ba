-- ===== src/Graph/Duplicates.antt =====
-- Nodes under one key.
use mathlib.Core.Path.{subst}
use mathlib.Core.List.{Memᴰ, filter_map, filter_map-cons-some, filter_map-cons-none}
use b2b_app.Prelude.{
  String, ◌≡◌, ◌⊎◌, refl, sym, ap, ◌∙◌, false, none, some, List, [], ◌∷◌, ◌++◌, map, arith, str_eq,
  eq_iff, mem, KeyMap, put, Bool-cases, Option-cases, inl, inr,
}
use b2b_app.Workflow.{WorkflowNode, WorkflowGraph}
use b2b_app.Graph.{order, topo_sort, sort_valid, sort_tables, visit_order, index_from, nodes_at}
use b2b_app.Graph.Validity.{validate_graph_total}

module _ {N : Type 0} where
  -- The node stands in the list, and no node behind it has its key.
  abbrev pub IsLast : WorkflowNode N → List (WorkflowNode N) → Type 0
  IsLast n ns =
      (before : List (WorkflowNode N)) × (after : List (WorkflowNode N)) × (ns
        ≡ before ++ n ∷ after)
      × (mem n.key (map (λ x. x.key) after) ≡ false)

  index_from-IsLast :
      (ns : List (WorkflowNode N)) (m : KeyMap (WorkflowNode N)) (k : String) (n : WorkflowNode N)
      → index_from m ns k ≡ some n
      → IsLast n ns ⊎ ((m k ≡ some n) × (mem k (map (λ x. x.key) ns) ≡ false))
  unfolding index_from
  index_from-IsLast [] m k n e = inr (e, refl)
  index_from-IsLast (x ∷ ns) m k n e = elim (index_from-IsLast ns (put x.key x m) k n e) [
    | inl (before, after, split, free) ↦ inl (x ∷ before, after, ap (λ l. x ∷ l) split, free)
    | inr (held, free) ↦ elim (Bool-cases (str_eq x.key k)) [
      | inl same ↦
          let here : x ≡ n = (let held' = rw same at held in cc) in
          let key : n.key ≡ k =
            ap (λ (y : WorkflowNode N). y.key) (sym here) ∙ (eq_iff x.key k).0 same in
          inl ([], ns, ap (λ y. y ∷ ns) here, ap (λ j. mem j (map (λ y. y.key) ns)) key ∙ free)
      | inr other ↦ inr (rw other at held, ground (arith, eq_iff k x.key, eq_iff x.key k))
    ]
  ]

  mem-nodes_at :
      (m : KeyMap (WorkflowNode N)) (ks : List String) (n : WorkflowNode N)
      → Memᴰ n (nodes_at m ks)
      → (k : String) × (m k ≡ some n)
  unfolding filter_map
  mem-nodes_at m [] n h = elim h [ ]
  mem-nodes_at m (k ∷ ks) n h = elim (Option-cases (m k)) [
    | inl missing ↦ mem-nodes_at m ks n (subst (Memᴰ n) (filter_map-cons-none m k ks missing) h)
    | inr (y, found) ↦ elim (subst (Memᴰ n) (filter_map-cons-some m k ks found) h) [
      | Memᴰ.head same ↦ (k, found ∙ ap some (sym same))
      | Memᴰ.tail later ↦ mem-nodes_at m ks n later
    ]
  ]

  sort_valid-IsLast :
      (g : WorkflowGraph N) (ns : List (WorkflowNode N)) (n : WorkflowNode N)
      → sort_valid g ≡ some (order ns)
      → Memᴰ n ns
      → IsLast n g.nodes
  unfolding sort_valid
  sort_valid-IsLast g ns n e h = elim (Option-cases (visit_order g (sort_tables g))) [
    | inl lost ↦ absurd (ground (arith, lost, e))
    | inr (ks, visited) ↦
        let same : ns ≡ nodes_at (index_from (λ k. none) g.nodes) ks = ground (arith, visited, e) in
        let (k, found) =
          mem-nodes_at (index_from (λ k. none) g.nodes) ks n (subst (Memᴰ n) same h) in
        elim (index_from-IsLast g.nodes (λ k. none) k n found) [
          | inl last ↦ last
          | inr (held, free) ↦ cc
        ]
  ]

  -- Every node that `topoSort` returns, for any graph, is the last of the graph's nodes under its
  -- key: of nodes that share a key, those before the last are dropped.
  pub topo_sort-IsLast :
      (g : WorkflowGraph N) (ns : List (WorkflowNode N)) (n : WorkflowNode N)
      → topo_sort g ≡ some (order ns)
      → Memᴰ n ns
      → IsLast n g.nodes
  unfolding topo_sort
  topo_sort-IsLast g ns n e h =
      let (errors, verdict) = validate_graph_total g in
      sort_valid-IsLast g ns n (ground (arith, verdict)) h
