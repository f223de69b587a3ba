-- ===== src/Graph/Needs.antt =====
-- Predecessors that have not had their turn, and what Kahn's loop returns.
use mathlib.Core.List.{append_assoc, append-nil}
use mathlib.Core.Path.{subst}
use b2b_app.Prelude.{
  ℕ, zero, suc, ◌≤◌, String, ◌≡◌, refl, true, false, not, ◌&&◌, some, List, [], ◌∷◌, ◌++◌, arith,
  if◌then◌else◌, str_eq, eq_iff, eq_refl, tally, get_or, mem, count, KeyMap, tally-append,
  mem-append, Bool-cases, inl, inr, count_of_mem,
}
use b2b_app.Prelude.Int.{ℤ}
use b2b_app.Workflow.{WorkflowEdge}
use b2b_app.Graph.{relax, kahn}
use b2b_app.Graph.Turns.{IsCounted, plus_count, relax-IsCounted, IsCounted-need}

-- How many edges into `k` come from a key outside `done`.
abbrev pub unmet : List String → List WorkflowEdge → String → ℕ
unmet done edges k = tally (λ e. str_eq k e.target && not (mem e.source done)) edges

-- The targets of the edges out of `k`, in their order.
abbrev pub targets : List WorkflowEdge → String → List String
targets [] k = []
targets (e ∷ es) k = let rest = targets es k in if str_eq e.source k then e.target ∷ rest else rest

-- Each key stands behind all of its predecessors, given those in `seen`.
abbrev pub IsOrdered : List WorkflowEdge → List String → List String → Type 0
IsOrdered edges seen [] = Unit
IsOrdered edges seen (k ∷ ks) = (unmet seen edges k ≡ 0) × IsOrdered edges (seen ++ k ∷ []) ks

unmet_step :
    (edges : List WorkflowEdge) (visited : List String) (k j : String)
    → mem k visited ≡ false
    → unmet visited edges j ≡ plus_count (unmet (visited ++ k ∷ []) edges) (targets edges k) j
unmet_step [] visited k j absent = refl
unmet_step (e ∷ es) visited k j absent = ground (
  arith,
  unmet_step es visited k j absent,
  mem-append e.source visited (k ∷ []),
  eq_iff e.source k,
  eq_iff k e.source,
)

pub IsOrdered-concat :
    (edges : List WorkflowEdge) (ks seen : List String) (k : String)
    → IsOrdered edges seen ks
    → unmet (seen ++ ks) edges k ≡ 0
    → IsOrdered edges seen (ks ++ k ∷ [])
IsOrdered-concat edges [] seen k h e = (rw append-nil at e, tt)
IsOrdered-concat edges (x ∷ ks) seen k (here, h) e =
    (here, IsOrdered-concat edges ks (seen ++ x ∷ []) k h (rw (append_assoc seen (x ∷ []) ks) e))

absent_of_once :
    (k : String) (visited queue : List String)
    → count k (visited ++ k ∷ queue) ≤ 1
    → mem k visited ≡ false
absent_of_once k visited queue h = elim (Bool-cases (mem k visited)) [
  | inl m ↦ absurd (
      ground
        (arith, count_of_mem k visited m, tally-append (str_eq k) visited (k ∷ queue), eq_refl k))
  | inr m ↦ m
]

-- What is known of the keys that the loop returns.
pub record IsTurnOrder (ks : List String) (edges : List WorkflowEdge) (out : List String)
    : Type 0 where
  pub indegree : KeyMap ℤ
  pub counted : IsCounted ks (unmet out edges) indegree out
  pub ordered : IsOrdered edges [] out

pub kahn_sound :
    (fuel : ℕ) (adj : KeyMap (List String)) (ks : List String) (edges : List WorkflowEdge)
    (d : KeyMap ℤ) (queue visited out : List String)
    → ((k : String) → mem k ks ≡ true → get_or (adj k) [] ≡ targets edges k)
    → ((k j : String) → mem j (targets edges k) ≡ true → mem j ks ≡ true)
    → IsCounted ks (unmet visited edges) d (visited ++ queue)
    → IsOrdered edges [] visited
    → kahn fuel adj d queue visited ≡ some out
    → IsTurnOrder ks edges out
unfolding kahn
kahn_sound fuel adj ks edges d [] visited out adjacent closed i o e =
    let same : visited ≡ out = cc in
    subst (IsTurnOrder ks edges) same
      (record { indegree = d; counted = rw append-nil at i; ordered = o })
kahn_sound zero adj ks edges d (k ∷ queue) visited out adjacent closed i o e = cc
kahn_sound (suc fuel) adj ks edges d (k ∷ queue) visited out adjacent closed i o e =
    let taken : mem k (visited ++ k ∷ queue) ≡ true =
      ground (arith, mem-append k visited (k ∷ queue), eq_refl k) in
    let absent = absent_of_once k visited queue (i.once k) in
    let next = get_or (adj k) [] in
    let stepped : IsCounted ks (plus_count (unmet (visited ++ k ∷ []) edges) next) d
        ((visited ++ k ∷ []) ++ queue) =
      rw (adjacent k (i.known k taken), append_assoc)
        (IsCounted-need (λ j. unmet_step edges visited k j absent) i) in
    kahn_sound fuel adj ks edges (relax d queue next).0 (relax d queue next).1 (visited ++ k ∷ [])
      out adjacent closed
      (relax-IsCounted ks next (unmet (visited ++ k ∷ []) edges) d queue (visited ++ k ∷ [])
        (λ j m. closed k j (rw (← adjacent k (i.known k taken)) m)) stepped)
      (IsOrdered-concat edges visited [] k o (i.met k taken)) e
