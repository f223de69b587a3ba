-- ===== src/Graph/Visits.antt =====
-- Kahn's algorithm on the maps of a list of accepted edges: it ends, and with distinct keys it
-- returns the keys in an order of turns.
use b2b_app.Prelude.{
  ◌+◌, ◌≤◌, String, ◌≡◌, refl, Bool, true, ◌&&◌, some, List, [], ◌∷◌, arith, eq_iff, length, get_or,
  mem, count, KeyMap, Bool-cases, inl, inr, keep, Once,
}
use b2b_app.Prelude.Int.{ℤ, pos, is_zero}
use b2b_app.Workflow.{WorkflowEdge}
use b2b_app.Graph.{sources_of, kahn}
use b2b_app.Graph.Kahn.{waiting, IsWithin, kahn_total}
use b2b_app.Graph.Turns.{IsCounted}
use b2b_app.Graph.Needs.{unmet, targets, IsTurnOrder, kahn_sound}
use b2b_app.Graph.Maps.{AllListed, built, built-adjacency, built-indegree, built-absent}

mem-keep :
    (p : String → Bool) (k : String) (ks : List String) → mem k (keep p ks) ≡ (mem k ks && p k)
mem-keep p k [] = refl
mem-keep p k (x ∷ ks) = ground (arith, mem-keep p k ks, eq_iff k x)

count-keep-le :
    (p : String → Bool) (k : String) (ks : List String) → count k (keep p ks) ≤ count k ks
count-keep-le p k [] = omega arith
count-keep-le p k (x ∷ ks) = ground (arith, count-keep-le p k ks)

-- At the start the queue and the waiting keys are disjoint.
start_measure :
    (d : KeyMap ℤ) (ks : List String) → length (sources_of d ks) + waiting d ks ≤ length ks
start_measure d [] = omega arith
start_measure d (k ∷ ks) = ground (arith, start_measure d ks)

mem_of_targets :
    (keys : List String) (es : List WorkflowEdge) (k j : String)
    → AllListed keys es
    → mem j (targets es k) ≡ true
    → mem j keys ≡ true
mem_of_targets keys [] k j a m = cc
mem_of_targets keys (e ∷ es) k j ((_, listed), a) m =
    ground (arith, mem_of_targets keys es k j a, eq_iff j e.target)

module _ (keys : List String) (es : List WorkflowEdge) (a : AllListed keys es) where
  built-IsWithin : IsWithin (built keys es).indegree keys
  built-IsWithin k p = elim (Bool-cases (mem k keys)) [
    | inl m ↦ m
    | inr m ↦ ground (arith, built-absent keys es a k m)
  ]

  -- As much fuel as there are nodes is enough.
  pub visit_total :
      (out : List String) × (kahn
          (length keys)
          (built keys es).adjacency
          (built keys es).indegree
          (sources_of (built keys es).indegree keys)
          []
        ≡ some out)
  visit_total =
      kahn_total (length keys) (built keys es).adjacency keys (built keys es).indegree
        (sources_of (built keys es).indegree keys) [] built-IsWithin
        (start_measure (built keys es).indegree keys)

  module _ (distinct : Once keys) where
    start-IsCounted :
        IsCounted keys
          (unmet [] es)
          (built keys es).indegree
          (sources_of (built keys es).indegree keys)
    start-IsCounted =
        let d = (built keys es).indegree in
        let p = λ (k : String). is_zero (get_or (d k) (pos 0)) in
        record {
          counted = built-indegree keys es;
          known = λ j m. ground (arith, mem-keep p j keys);
          once = λ j. omega (arith, count-keep-le p j keys, distinct j);
          met = λ j m. ground (arith, mem-keep p j keys, built-indegree keys es j);
          ready = λ j m z. ground (arith, mem-keep p j keys, built-indegree keys es j);
        }

    pub visit_sound :
        (out : List String)
        → kahn
            (length keys)
            (built keys es).adjacency
            (built keys es).indegree
            (sources_of (built keys es).indegree keys)
            []
          ≡ some out
        → IsTurnOrder keys es out
    visit_sound out e =
        kahn_sound (length keys) (built keys es).adjacency keys es (built keys es).indegree
          (sources_of (built keys es).indegree keys) [] out (λ k m. built-adjacency keys es k)
          (λ k j m. mem_of_targets keys es k j a m) start-IsCounted tt e
