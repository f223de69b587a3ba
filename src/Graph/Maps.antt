-- ===== src/Graph/Maps.antt =====
-- The maps that `validateGraph` and `topoSort` fill, in terms of the edges that are accepted.
use mathlib.Core.List.{append_assoc, append-nil}
use b2b_app.Prelude.{
  ℕ, suc, ◌+◌, ◌≤◌, String, ◌≡◌, ◌≢◌, refl, sym, ap, ◌∙◌, Bool, true, false, not, ◌&&◌, none, some,
  List, [], ◌∷◌, ◌++◌, arith, if◌then◌else◌, str_eq, eq_iff, length, get_or, mem, Bool-cases, inl,
  inr,
}
use b2b_app.Prelude.Int.{pos}
use b2b_app.Workflow.{WorkflowEdge}
use b2b_app.Graph.{
  Tables, empty_tables, add_key, add_keys, add_edge, add_edges, Scan, scan_edge, scan_edges,
  pair_of, GraphError, unknown_node, self_loop, duplicate_edge,
}
use b2b_app.Graph.Needs.{unmet, targets}

-- The edge joins two listed keys.
abbrev pub IsListed : List String → WorkflowEdge → Type 0
IsListed keys e = (mem e.source keys ≡ true) × (mem e.target keys ≡ true)

abbrev pub AllListed : List String → List WorkflowEdge → Type 0
AllListed keys [] = Unit
AllListed keys (e ∷ es) = IsListed keys e × AllListed keys es

abbrev is_accepted : List String → Scan → WorkflowEdge → Bool
is_accepted keys s e =
    (mem e.source keys && mem e.target keys)
    && (not (str_eq e.source e.target) && not (mem (pair_of e) s.seen))

-- The edges that the scan puts into the maps.
pub accepted : List String → Scan → List WorkflowEdge → List WorkflowEdge
accepted keys s [] = []
accepted keys s (e ∷ es) =
    let rest = accepted keys (scan_edge keys s e) es in
    if is_accepted keys s e then e ∷ rest else rest

scan_edge-tables :
    (keys : List String) (s : Scan) (e : WorkflowEdge)
    → (scan_edge keys s e).tables ≡ (if is_accepted keys s e then add_edge s.tables e else s.tables)
unfolding scan_edge
scan_edge-tables keys s e = ground arith

pub scan_edges-tables :
    (keys : List String) (es : List WorkflowEdge) (s : Scan)
    → (scan_edges keys s es).tables ≡ add_edges s.tables (accepted keys s es)
unfolding scan_edges accepted add_edges
scan_edges-tables keys [] s = refl
scan_edges-tables keys (e ∷ es) s =
    let step = scan_edge-tables keys s e in
    let rest = scan_edges-tables keys es (scan_edge keys s e) in
    elim (Bool-cases (is_accepted keys s e)) [
      | inl a ↦
          rw a (rest ∙ ap (λ t. add_edges t (accepted keys (scan_edge keys s e) es)) (rw a at step))
      | inr a ↦
          rw a (rest ∙ ap (λ t. add_edges t (accepted keys (scan_edge keys s e) es)) (rw a at step))
    ]

pub accepted-AllListed :
    (keys : List String) (es : List WorkflowEdge) (s : Scan)
    → AllListed keys (accepted keys s es) × (length (accepted keys s es) ≤ length es)
unfolding accepted
accepted-AllListed keys [] s = (tt, omega arith)
accepted-AllListed keys (e ∷ es) s =
    let (listed, fits) = accepted-AllListed keys es (scan_edge keys s e) in
    elim (Bool-cases (is_accepted keys s e)) [
      | inl a ↦ rw a (((ground arith, ground arith), listed), omega arith)
      | inr a ↦ rw a (listed, omega arith)
    ]

concat_ne_nil : (xs : List GraphError) (x : GraphError) → xs ++ x ∷ [] ≢ []
concat_ne_nil [] x e = cc
concat_ne_nil (y ∷ xs) x e = cc

scan_edge_silent :
    (keys : List String) (s : Scan) (e : WorkflowEdge)
    → (scan_edge keys s e).errors ≡ []
    → (is_accepted keys s e ≡ true) × (s.errors ≡ [])
unfolding scan_edge
scan_edge_silent keys s e h = ground (
  arith,
  concat_ne_nil s.errors (unknown_node e),
  concat_ne_nil s.errors (self_loop e),
  concat_ne_nil s.errors (duplicate_edge e),
)

-- The errors only grow, so a scan without errors has accepted every edge.
errors_kept :
    (keys : List String) (es : List WorkflowEdge) (s : Scan)
    → (scan_edges keys s es).errors ≡ []
    → s.errors ≡ []
unfolding scan_edges
errors_kept keys [] s e = e
errors_kept keys (x ∷ es) s e =
    (scan_edge_silent keys s x (errors_kept keys es (scan_edge keys s x) e)).1

pub accepted_all :
    (keys : List String) (es : List WorkflowEdge) (s : Scan)
    → (scan_edges keys s es).errors ≡ []
    → accepted keys s es ≡ es
unfolding scan_edges accepted
accepted_all keys [] s e = refl
accepted_all keys (x ∷ es) s e =
    let taken = (scan_edge_silent keys s x (errors_kept keys es (scan_edge keys s x) e)).0 in
    rw taken (ap (λ l. x ∷ l) (accepted_all keys es (scan_edge keys s x) e))

-- The entries of both maps after the loop over the nodes.
add_keys-adjacency :
    (ks : List String) (t : Tables) (k : String)
    → get_or (t.adjacency k) [] ≡ []
    → get_or ((add_keys t ks).adjacency k) [] ≡ []
unfolding add_keys
add_keys-adjacency [] t k h = h
add_keys-adjacency (x ∷ ks) t k h = add_keys-adjacency ks (add_key t x) k (ground arith)

add_keys-kept :
    (ks : List String) (t : Tables) (k : String)
    → t.indegree k ≡ some (pos 0)
    → (add_keys t ks).indegree k ≡ some (pos 0)
unfolding add_keys
add_keys-kept [] t k h = h
add_keys-kept (x ∷ ks) t k h = add_keys-kept ks (add_key t x) k (ground arith)

add_keys-indegree :
    (ks : List String) (t : Tables) (k : String)
    → mem k ks ≡ true
    → (add_keys t ks).indegree k ≡ some (pos 0)
unfolding add_keys
add_keys-indegree [] t k h = cc
add_keys-indegree (x ∷ ks) t k h = elim (Bool-cases (str_eq x k)) [
  | inl same ↦ add_keys-kept ks (add_key t x) k (ground arith)
  | inr other ↦ add_keys-indegree ks (add_key t x) k (ground (arith, eq_iff x k, eq_iff k x))
]

add_keys-absent :
    (ks : List String) (t : Tables) (k : String)
    → mem k ks ≡ false
    → t.indegree k ≡ none
    → (add_keys t ks).indegree k ≡ none
unfolding add_keys
add_keys-absent [] t k h e = e
add_keys-absent (x ∷ ks) t k h e =
    add_keys-absent ks (add_key t x) k (ground arith) (ground (arith, eq_iff x k, eq_iff k x))

-- The entries after the accepted edges.
add_edges-adjacency :
    (es : List WorkflowEdge) (t : Tables) (k : String)
    → get_or ((add_edges t es).adjacency k) [] ≡ get_or (t.adjacency k) [] ++ targets es k
unfolding add_edges
add_edges-adjacency [] t k = sym (append-nil _)
add_edges-adjacency (e ∷ es) t k = elim (Bool-cases (str_eq e.source k)) [
  | inl same ↦ ground (
    arith,
    add_edges-adjacency es (add_edge t e) k,
    eq_iff e.source k,
    append_assoc (get_or (t.adjacency k) []) (e.target ∷ []) (targets es k),
  )
  | inr other ↦ ground (arith, add_edges-adjacency es (add_edge t e) k, eq_iff e.source k)
]

add_edges-indegree :
    (es : List WorkflowEdge) (t : Tables) (j : String) (c : ℕ)
    → t.indegree j ≡ some (pos c)
    → (add_edges t es).indegree j ≡ some (pos (c + unmet [] es j))
unfolding add_edges
add_edges-indegree [] t j c h = ground arith
add_edges-indegree (e ∷ es) t j c h = elim (Bool-cases (str_eq j e.target)) [
  | inl same ↦
      ground (
        arith,
        add_edges-indegree es (add_edge t e) j (suc c),
        eq_iff j e.target,
        eq_iff e.target j,
      )
  | inr other ↦
      ground (arith, add_edges-indegree es (add_edge t e) j c, eq_iff j e.target, eq_iff e.target j)
]

add_edges-absent :
    (keys : List String) (es : List WorkflowEdge) (t : Tables) (j : String)
    → AllListed keys es
    → mem j keys ≡ false
    → t.indegree j ≡ none
    → (add_edges t es).indegree j ≡ none
unfolding add_edges
add_edges-absent keys [] t j a m e = e
add_edges-absent keys (x ∷ es) t j ((_, listed), a) m e =
    add_edges-absent keys es (add_edge t x) j a m (ground (arith, eq_iff x.target j))

-- Both maps, from the beginning.
abbrev pub built : List String → List WorkflowEdge → Tables
built keys es = add_edges (add_keys empty_tables keys) es

module _ (keys : List String) (es : List WorkflowEdge) where
  pub built-adjacency : (k : String) → get_or ((built keys es).adjacency k) [] ≡ targets es k
  built-adjacency k =
      add_edges-adjacency es (add_keys empty_tables keys) k
      ∙ ap (λ l. l ++ targets es k) (add_keys-adjacency keys empty_tables k refl)

  pub built-indegree :
      (j : String) → mem j keys ≡ true → (built keys es).indegree j ≡ some (pos (unmet [] es j))
  built-indegree j m =
      add_edges-indegree es (add_keys empty_tables keys) j 0
        (add_keys-indegree keys empty_tables j m)
      ∙ ap (λ (n : ℕ). some (pos n)) (omega arith)

  pub built-absent :
      AllListed keys es → (j : String) → mem j keys ≡ false → (built keys es).indegree j ≡ none
  built-absent a j m =
      add_edges-absent keys es (add_keys empty_tables keys) j a m
        (add_keys-absent keys empty_tables j m refl)
