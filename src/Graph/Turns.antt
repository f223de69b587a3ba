-- ===== src/Graph/Turns.antt =====
-- The invariant of Kahn's loop: what each key still needs, and which keys had or await their turn.
use mathlib.Core.List.{append_assoc}
use b2b_app.Prelude.{
  ℕ, ◌+◌, ◌≤◌, String, ◌≡◌, ◌≢◌, true, false, some, List, [], ◌∷◌, ◌++◌, arith, if◌then◌else◌,
  str_eq, eq_iff, eq_refl, mem, count, KeyMap, put, tally-append, mem-append, Bool-cases, inl, inr,
  count_of_not_mem,
}
use b2b_app.Prelude.Int.{ℤ, pos, is_zero}
use b2b_app.Graph.{relax}
use b2b_app.Graph.Kahn.{lowered, relax_release, relax_hold}

-- `taken` lists the keys that left or stand in the queue; `need j` is the entry of `j` in `d`.
pub record IsCounted (ks : List String) (need : String → ℕ) (d : KeyMap ℤ) (taken : List String)
    : Type 0 where
  pub counted : (j : String) → mem j ks ≡ true → d j ≡ some (pos (need j))
  pub known : (j : String) → mem j taken ≡ true → mem j ks ≡ true
  pub once : (j : String) → count j taken ≤ 1
  pub met : (j : String) → mem j taken ≡ true → need j ≡ 0
  pub ready : (j : String) → mem j ks ≡ true → need j ≡ 0 → mem j taken ≡ true

-- `need` exceeds `less` by one at `n`.
abbrev pub Drops : (String → ℕ) → String → (String → ℕ) → Type 0
Drops need n less = (j : String) → need j ≡ less j + (if str_eq j n then 1 else 0)

module _ {ks : List String} {need : String → ℕ} {d : KeyMap ℤ} {taken : List String}
    (i : IsCounted ks need d taken) (less : String → ℕ) (n : String) (drops : Drops need n less)
    (listed : mem n ks ≡ true) where
  lowered-counted : lowered d n ≡ pos (less n)
  lowered-counted = ground (arith, i.counted n listed, drops n, eq_refl n)

  not_taken : mem n taken ≡ false
  not_taken = ground (arith, i.met n, drops n, eq_refl n)

  counted_after : (j : String) → mem j ks ≡ true → put n (lowered d n) d j ≡ some (pos (less j))
  counted_after j m =
      ground (arith, i.counted j m, lowered-counted, drops j, eq_iff n j, eq_iff j n)

  IsCounted-release : less n ≡ 0 → IsCounted ks less (put n (lowered d n) d) (taken ++ n ∷ [])
  IsCounted-release free = record {
    counted = counted_after;
    known = λ j m. ground (arith, mem-append j taken (n ∷ []), i.known j, eq_iff j n, listed);
    once = λ j. ground (
      arith,
      tally-append (str_eq j) taken (n ∷ []),
      i.once j,
      eq_iff j n,
      not_taken,
      count_of_not_mem n taken,
    );
    met = λ j m. ground (arith, mem-append j taken (n ∷ []), i.met j, drops j, eq_iff j n, free);
    ready = λ j m z. ground (arith, mem-append j taken (n ∷ []), i.ready j m, drops j, eq_iff j n);
  }

  IsCounted-hold : less n ≢ 0 → IsCounted ks less (put n (lowered d n) d) taken
  IsCounted-hold waits = record {
    counted = counted_after;
    known = i.known;
    once = i.once;
    met = λ j m. ground (arith, i.met j m, drops j);
    ready = λ j m z. ground (arith, i.ready j m, drops j, eq_iff j n, waits);
  }

abbrev pub plus_count : (String → ℕ) → List String → String → ℕ
plus_count base ns j = base j + count j ns

Drops-cons :
    (base : String → ℕ) (n : String) (ns : List String)
    → Drops (plus_count base (n ∷ ns)) n (plus_count base ns)
Drops-cons base n ns j = omega arith

pub IsCounted-need :
    {ks taken : List String} {need need' : String → ℕ} {d : KeyMap ℤ}
    → ((j : String) → need j ≡ need' j)
    → IsCounted ks need d taken
    → IsCounted ks need' d taken
IsCounted-need same i = record {
  counted = λ j m. ground (arith, i.counted j m, same j);
  known = i.known;
  once = i.once;
  met = λ j m. omega (arith, i.met j m, same j);
  ready = λ j m z. i.ready j m (omega (arith, same j));
}

-- The loop over the successors brings each need down by the number of times that it is listed.
pub relax-IsCounted :
    (ks : List String) (ns : List String) (base : String → ℕ) (d : KeyMap ℤ)
    (queue visited : List String)
    → ((j : String) → mem j ns ≡ true → mem j ks ≡ true)
    → IsCounted ks (plus_count base ns) d (visited ++ queue)
    → IsCounted ks base (relax d queue ns).0 (visited ++ (relax d queue ns).1)
relax-IsCounted ks [] base d queue visited listed i =
    unfold relax in IsCounted-need (λ j. omega arith) i
relax-IsCounted ks (n ∷ ns) base d queue visited listed i =
    let less = plus_count base ns in
    let drops = Drops-cons base n ns in
    let here : mem n ks ≡ true = listed n (ground (arith, eq_refl n)) in
    let rest = λ (j : String) (m : mem j ns ≡ true). listed j (ground arith) in
    let value = lowered-counted i less n drops here in
    elim (Bool-cases (is_zero (lowered d n))) [
      | inl z ↦ rw (relax_release d queue n ns z) (
          relax-IsCounted ks ns base (put n (lowered d n) d) (queue ++ n ∷ []) visited rest
            (rw append_assoc at (IsCounted-release i less n drops here (ground arith))))
      | inr z ↦ rw (relax_hold d queue n ns z) (
          relax-IsCounted ks ns base (put n (lowered d n) d) queue visited rest
            (IsCounted-hold i less n drops here (ground arith)))
    ]
