-- ===== src/Graph/Cycles.antt =====
-- The cycle check of `validateGraph` against acyclicity.
use mathlib.Core.List.{Memᴰ}
use mathlib.Core.Path.{subst}
use b2b_app.Prelude.{
  ℕ, zero, suc, ◌<◌, String, ◌≡◌, ◌↔◌, refl, sym, ap, ◌∙◌, true, false, some, List, [], ◌∷◌, ◌++◌,
  arith, str_eq, eq_iff, eq_refl, length, mem, count, Bool-cases, inl, inr, length-map,
  count_of_mem, Once, tally-append, split_mem, Included-of_length, length-le_of_Included, position,
  position-mem, position-split,
}
use b2b_app.Workflow.{WorkflowNode, WorkflowEdge, WorkflowGraph}
use b2b_app.Graph.{keys_of, scanned, visit_order, cycle_check}
use b2b_app.Graph.Needs.{IsTurnOrder, IsOrdered, unmet}
use b2b_app.Graph.Maps.{built, AllListed}
use b2b_app.Graph.Visits.{visit_sound}
use b2b_app.Graph.Validity.{
  scanned-tables, kept_all, kept-AllListed, visit_order-built, visit_order_total,
  cycle_check-visited, cycle_errors-length, cycle_errors-full,
}
use b2b_app.Graph.Sorting.{met_source, IsOrdered-split}

-- Some rank of the keys grows along every edge.
abbrev pub IsAcyclic : List WorkflowEdge → Type 0
IsAcyclic edges =
    (rank : String → ℕ) × ((e : WorkflowEdge) → Memᴰ e edges → rank e.source < rank e.target)

AllListed-Memᴰ :
    (keys : List String) (es : List WorkflowEdge) (e : WorkflowEdge)
    → AllListed keys es
    → Memᴰ e es
    → (mem e.source keys ≡ true) × (mem e.target keys ≡ true)
AllListed-Memᴰ keys [] e a m = elim m [ ]
AllListed-Memᴰ keys (x ∷ es) e (here, a) (Memᴰ.head same) =
    subst (λ (y : WorkflowEdge). (mem y.source keys ≡ true) × (mem y.target keys ≡ true)) (sym same)
      here
AllListed-Memᴰ keys (x ∷ es) e (here, a) (Memᴰ.tail m) = AllListed-Memᴰ keys es e a m

unmet_zero :
    (edges : List WorkflowEdge) (done : List String) (k : String)
    → ((e : WorkflowEdge) → Memᴰ e edges → e.target ≡ k → mem e.source done ≡ true)
    → unmet done edges k ≡ 0
unmet_zero [] done k h = refl
unmet_zero (e ∷ es) done k h =
    let rest = unmet_zero es done k (λ x m. h x (Memᴰ.tail m)) in
    ground (arith, rest, h e (Memᴰ.head refl), eq_iff k e.target)

module _ (keys : List String) (edges : List WorkflowEdge) (out : List String)
    (t : IsTurnOrder keys edges out) (listed : AllListed keys edges) where
  -- Below every rank, all keys had their turn.
  ranked_visited :
      (acyclic : IsAcyclic edges) (bound : ℕ) (k : String)
      → acyclic.0 k < bound
      → mem k keys ≡ true
      → mem k out ≡ true
  ranked_visited (rank, grows) zero k h m = elim h [ ]
  ranked_visited (rank, grows) (suc bound) k h m = t.counted.ready k m (
      unmet_zero edges out k (λ e me at.
        ranked_visited (rank, grows) bound e.source (lt_below (grows e me) at h)
          (AllListed-Memᴰ keys edges e listed me).0))
    where
      lt_below :
          {e : WorkflowEdge}
          → rank e.source < rank e.target
          → e.target ≡ k
          → rank k < suc bound
          → rank e.source < bound
      lt_below {e} grow at below = omega (arith, grow, below, ap rank at)

  acyclic-length : Once keys → IsAcyclic edges → length out ≡ length keys
  acyclic-length distinct acyclic = omega (
    arith,
    length-le_of_Included out keys t.counted.once t.counted.known,
    length-le_of_Included keys out distinct
        (λ k m. ranked_visited acyclic (suc (acyclic.0 k)) k (omega arith) m),
  )

  visited-IsAcyclic : length out ≡ length keys → IsAcyclic edges
  visited-IsAcyclic full = (λ k. position k out, λ e m. grows e m)
    where
      absent :
          (k : String) (before after : List String)
          → out ≡ before ++ k ∷ after
          → mem k before ≡ false
      absent k before after e = elim (Bool-cases (mem k before)) [
        | inl m ↦ absurd (
            ground (
              arith,
              count_of_mem k before m,
              t.counted.once k,
              ap (count k) e,
              tally-append (str_eq k) before (k ∷ after),
              eq_refl k,
            ))
        | inr m ↦ m
      ]

      grows : (e : WorkflowEdge) → Memᴰ e edges → position e.source out < position e.target out
      grows e m =
          let there =
            Included-of_length out keys t.counted.once t.counted.known full e.target
              (AllListed-Memᴰ keys edges e listed m).1 in
          let (before, after, split) = split_mem e.target out there in
          let o = subst (IsOrdered edges []) split t.ordered in
          let source =
            met_source edges before e.target e (IsOrdered-split edges before after [] e.target o) m
              refl in
          omega (
            arith,
            ap (position e.source) split,
            ap (position e.target) split,
            position-mem e.source before (e.target ∷ after) source,
            position-split e.target before after (absent e.target before after split),
          )

-- For a graph with distinct keys whose edges are all accepted, the cycle check reports nothing
-- exactly when the graph has no cycle.
pub cycle_check-IsAcyclic :
    {N : Type 0} (g : WorkflowGraph N)
    → Once (keys_of g)
    → (scanned g).errors ≡ []
    → (cycle_check g (scanned g).tables ≡ some []) ↔ IsAcyclic g.edges
cycle_check-IsAcyclic {N} g distinct clean =
    let same = scanned-tables g ∙ ap (built (keys_of g)) (kept_all g clean) in
    let listed = subst (AllListed (keys_of g)) (kept_all g clean) (kept-AllListed g).0 in
    let (out, visited) = visit_order_total g in
    let t =
      visit_sound (keys_of g) g.edges listed distinct out
        (sym (visit_order-built g g.edges) ∙ ap (visit_order g) (sym same) ∙ visited) in
    let verdict = cycle_check-visited g out visited in
    let nodes = length-map (λ (n : WorkflowNode N). n.key) g.nodes in
    (
      λ quiet.
          visited-IsAcyclic (keys_of g) g.edges out t listed
            (cycle_errors-length g out (cc verdict) ∙ sym nodes),
      λ acyclic.
          verdict
          ∙ ap some (
              cycle_errors-full g out
                (acyclic-length (keys_of g) g.edges out t listed distinct acyclic ∙ nodes)),
    )
