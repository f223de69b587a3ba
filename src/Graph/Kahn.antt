-- ===== src/Graph/Kahn.antt =====
-- The loop of Kahn's algorithm.
use b2b_app.Prelude.{
  ℕ, zero, suc, ◌+◌, ◌≤◌, String, ◌≡◌, refl, Bool, true, false, Option, some, List, [], ◌∷◌, ◌++◌,
  arith, eq_iff, length, tally, get_or, mem, KeyMap, put, length-append, Bool-cases, inl, inr,
}
use b2b_app.Prelude.Int.{ℤ, pos, pred, is_zero}
use b2b_app.Graph.{relax, kahn}

abbrev pub positive : Option ℤ → Bool
positive (some (pos (suc n))) = true
positive _ = false

-- The keys of `ks` that still wait for a predecessor.
abbrev pub waiting : KeyMap ℤ → List String → ℕ
waiting d ks = tally (λ k. positive (d k)) ks

-- Only keys of `ks` wait.
abbrev pub IsWithin : KeyMap ℤ → List String → Type 0
IsWithin d ks = (k : String) → positive (d k) ≡ true → mem k ks ≡ true

abbrev pub lowered : KeyMap ℤ → String → ℤ
lowered d n = pred (get_or (d n) (pos 0))

waiting-lower :
    (d : KeyMap ℤ) (n : String) (ks : List String)
    → waiting (put n (lowered d n) d) ks ≤ waiting d ks
waiting-lower d n [] = omega arith
waiting-lower d n (k ∷ ks) = ground (arith, waiting-lower d n ks, eq_iff n k)

waiting-release :
    (d : KeyMap ℤ) (n : String) (ks : List String)
    → positive (d n) ≡ true
    → is_zero (lowered d n) ≡ true
    → mem n ks ≡ true
    → suc (waiting (put n (lowered d n) d) ks) ≤ waiting d ks
waiting-release d n [] p z m = cc
waiting-release d n (k ∷ ks) p z m =
    ground (arith, waiting-release d n ks, waiting-lower d n ks, eq_iff n k)

IsWithin-lower :
    (d : KeyMap ℤ) (n : String) (ks : List String)
    → IsWithin d ks
    → IsWithin (put n (lowered d n) d) ks
IsWithin-lower d n ks h k p = ground (arith, eq_iff n k, h k, h n)

positive_of_release :
    (d : KeyMap ℤ) (n : String) → is_zero (lowered d n) ≡ true → positive (d n) ≡ true
positive_of_release d n z = ground arith

-- The two outcomes of one round of `relax`.
pub relax_release :
    (d : KeyMap ℤ) (queue : List String) (n : String) (ns : List String)
    → is_zero (lowered d n) ≡ true
    → relax d queue (n ∷ ns) ≡ relax (put n (lowered d n) d) (queue ++ n ∷ []) ns
unfolding relax
relax_release d queue n ns z = rw z

pub relax_hold :
    (d : KeyMap ℤ) (queue : List String) (n : String) (ns : List String)
    → is_zero (lowered d n) ≡ false
    → relax d queue (n ∷ ns) ≡ relax (put n (lowered d n) d) queue ns
unfolding relax
relax_hold d queue n ns z = rw z

relax-measure :
    (ks ns : List String) (d : KeyMap ℤ) (queue : List String)
    → IsWithin d ks
    → (length (relax d queue ns).1 + waiting (relax d queue ns).0 ks ≤ length queue + waiting d ks)
      × IsWithin (relax d queue ns).0 ks
unfolding relax
relax-measure ks [] d queue h = (omega arith, h)
relax-measure ks (n ∷ ns) d queue h =
    let d' = put n (lowered d n) d in
    let h' = IsWithin-lower d n ks h in
    elim (Bool-cases (is_zero (lowered d n))) [
      | inl z ↦
          let p = positive_of_release d n z in
          let (le, within) = relax-measure ks ns d' (queue ++ n ∷ []) h' in
          rw (relax_release d queue n ns z) (
            omega (arith, le, waiting-release d n ks p z (h n p), length-append queue (n ∷ [])),
            within,
          )
      | inr z ↦
          let (le, within) = relax-measure ks ns d' queue h' in
          rw (relax_hold d queue n ns z) (omega (arith, le, waiting-lower d n ks), within)
    ]

pub kahn_total :
    (fuel : ℕ) (adj : KeyMap (List String)) (ks : List String) (d : KeyMap ℤ)
    (queue visited : List String)
    → IsWithin d ks
    → length queue + waiting d ks ≤ fuel
    → (out : List String) × (kahn fuel adj d queue visited ≡ some out)
unfolding kahn
kahn_total fuel adj ks d [] visited h m = (visited, refl)
kahn_total zero adj ks d (k ∷ queue) visited h m = absurd (omega arith)
kahn_total (suc fuel) adj ks d (k ∷ queue) visited h m =
    let (shrinks, within) = relax-measure ks (get_or (adj k) []) d queue h in
    kahn_total fuel adj ks (relax d queue (get_or (adj k) [])).0
      (relax d queue (get_or (adj k) [])).1 (visited ++ k ∷ []) within (omega arith)
