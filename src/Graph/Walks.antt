-- ===== src/Graph/Walks.antt =====
-- The walk from the trigger: it ends, and it finds exactly the keys that edges lead to.
use mathlib.Core.Path.{subst}
use b2b_app.Prelude.{
  ◌↔◌, ℕ, zero, suc, ◌+◌, ◌≤◌, String, ◌≡◌, refl, sym, true, false, not, ◌||◌, some, List, [], ◌∷◌,
  arith, str_eq, eq_iff, eq_refl, length, tally, get_or, mem, KeyMap, Bool-cases, inl, inr,
}
use b2b_app.Workflow.{WorkflowEdge}
use b2b_app.Graph.{walk, push_all}
use b2b_app.Graph.Needs.{targets}

-- The keys to which a path of edges leads from `start`.
pub data Reach (es : List WorkflowEdge) (start : String) : String → Type 0 where
  here : Reach es start start
  next : {u v : String} → Reach es start u → mem v (targets es u) ≡ true → Reach es start v

-- The edges whose source is not in `done`.
abbrev outside : List String → List WorkflowEdge → ℕ
outside done es = tally (λ e. not (mem e.source done)) es

length-push_all : (ns stack : List String) → length (push_all ns stack) ≡ length ns + length stack
length-push_all [] stack = omega arith
length-push_all (n ∷ ns) stack = omega (arith, length-push_all ns (n ∷ stack))

mem-push_all :
    (j : String) (ns stack : List String) → mem j (push_all ns stack) ≡ (mem j ns || mem j stack)
mem-push_all j [] stack = refl
mem-push_all j (n ∷ ns) stack = ground (arith, mem-push_all j ns (n ∷ stack))

outside_step :
    (es : List WorkflowEdge) (done : List String) (k : String)
    → mem k done ≡ false
    → length (targets es k) + outside (k ∷ done) es ≡ outside done es
outside_step [] done k absent = omega arith
outside_step (e ∷ es) done k absent =
    ground (arith, outside_step es done k absent, eq_iff e.source k)

-- The walk's invariant.
record IsWalk (es : List WorkflowEdge) (start : String) (stack reachable : List String)
    : Type 0 where
  begun : (mem start reachable || mem start stack) ≡ true
  found : (j : String) → mem j reachable ≡ true → Reach es start j
  pending : (j : String) → mem j stack ≡ true → Reach es start j
  closed :
      (k j : String)
      → mem k reachable ≡ true
      → mem j (targets es k) ≡ true
      → (mem j reachable || mem j stack) ≡ true

module _ (es : List WorkflowEdge) (start : String) (k : String) (stack reachable : List String)
    (w : IsWalk es start (k ∷ stack) reachable) where
  IsWalk-skip : mem k reachable ≡ true → IsWalk es start stack reachable
  IsWalk-skip m = record {
    begun = ground (arith, w.begun, eq_iff start k);
    found = w.found;
    pending = λ j h. w.pending j (ground arith);
    closed = λ u j mu mj. ground (arith, w.closed u j mu mj, eq_iff j k);
  }

  taken-Reach : Reach es start k
  taken-Reach = w.pending k (ground (arith, eq_refl k))

  found_after : (j : String) → mem j (k ∷ reachable) ≡ true → Reach es start j
  found_after j m = elim (Bool-cases (str_eq j k)) [
    | inl same ↦ subst (Reach es start) (sym ((eq_iff j k).0 same)) taken-Reach
    | inr other ↦ w.found j (ground arith)
  ]

  pending_after : (j : String) → mem j (push_all (targets es k) stack) ≡ true → Reach es start j
  pending_after j m = elim (Bool-cases (mem j (targets es k))) [
    | inl edge ↦ Reach.next taken-Reach edge
    | inr other ↦ w.pending j (ground (arith, mem-push_all j (targets es k) stack))
  ]

  IsWalk-deeper : IsWalk es start (push_all (targets es k) stack) (k ∷ reachable)
  IsWalk-deeper = record {
    begun = ground (arith, w.begun, mem-push_all start (targets es k) stack);
    found = found_after;
    pending = pending_after;
    closed = λ u j mu mj.
        ground (arith, w.closed u j, eq_iff u k, eq_iff j k, mem-push_all j (targets es k) stack);
  }

module _ (adj : KeyMap (List String)) (es : List WorkflowEdge)
    (adjacent : (k : String) → get_or (adj k) [] ≡ targets es k) where
  walk_total :
      (fuel : ℕ) (stack reachable : List String)
      → length stack + outside reachable es ≤ fuel
      → (out : List String) × (walk fuel adj stack reachable ≡ some out)
  unfolding walk
  walk_total fuel [] reachable m = (reachable, refl)
  walk_total zero (k ∷ stack) reachable m = absurd (omega arith)
  walk_total (suc fuel) (k ∷ stack) reachable m = elim (Bool-cases (mem k reachable)) [
    | inl old ↦ rw old (walk_total fuel stack reachable (omega arith))
    | inr new ↦
        rw (new, adjacent k)
          (walk_total fuel (push_all (targets es k) stack) (k ∷ reachable)
            (omega (arith, length-push_all (targets es k) stack, outside_step es reachable k new)))
  ]

  walk_sound :
      (start : String) (fuel : ℕ) (stack reachable out : List String)
      → IsWalk es start stack reachable
      → walk fuel adj stack reachable ≡ some out
      → IsWalk es start [] out
  unfolding walk
  walk_sound start fuel [] reachable out w e =
      let same : reachable ≡ out = cc in subst (IsWalk es start []) same w
  walk_sound start zero (k ∷ stack) reachable out w e = cc
  walk_sound start (suc fuel) (k ∷ stack) reachable out w e = elim (Bool-cases (mem k reachable)) [
    | inl old ↦
        walk_sound start fuel stack reachable out (IsWalk-skip es start k stack reachable w old)
          (rw old at e)
    | inr new ↦
        walk_sound start fuel (push_all (targets es k) stack) (k ∷ reachable) out
          (IsWalk-deeper es start k stack reachable w) (rw (new, adjacent k) at e)
  ]

  pub walk_from_total :
      (start : String) (fuel : ℕ)
      → suc (length es) ≤ fuel
      → (out : List String) × (walk fuel adj (start ∷ []) [] ≡ some out)
  walk_from_total start fuel h = walk_total fuel (start ∷ []) [] (omega (arith, outside-le es))
    where
      outside-le : (l : List WorkflowEdge) → outside [] l ≤ length l
      outside-le [] = omega arith
      outside-le (x ∷ l) = omega (arith, outside-le l)

  first : (start : String) → IsWalk es start (start ∷ []) []
  first start = record {
    begun = ground (arith, eq_refl start);
    found = λ j m. cc;
    pending = λ j m.
        let same : j ≡ start = ground (arith, eq_iff j start) in
        subst (Reach es start) (sym same) Reach.here;
    closed = λ k j m n. cc;
  }

  Reach-mem :
      {start : String} {out : List String}
      → IsWalk es start [] out
      → {j : String} → Reach es start j
      → mem j out ≡ true
  Reach-mem w Reach.here = ground (arith, w.begun)
  Reach-mem w (Reach.next {u = u} {v = v} r edge) =
      ground (arith, w.closed u v (Reach-mem w r) edge)

  -- The walk lists exactly the keys to which edges lead from its start.
  pub walk-mem_iff :
      (start : String) (fuel : ℕ) (out : List String)
      → walk fuel adj (start ∷ []) [] ≡ some out
      → (j : String) → (mem j out ≡ true) ↔ Reach es start j
  walk-mem_iff start fuel out e j =
      let w = walk_sound start fuel (start ∷ []) [] out (first start) e in (w.found j, Reach-mem w)
