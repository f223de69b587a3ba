-- ===== src/Prelude/Perms.antt =====
-- Lists of distinct keys: inclusion, length and permutation.
use mathlib.Core.List.Perm
use mathlib.Core.List.{List, [], ◌∷◌, ◌++◌, Perm, perm_middle}
use Prim.Native.Nat.{ℕ, suc, ◌≤◌}
use Prim.Native.String.{String}
use mathlib.Core.Path.{◌≡◌, sym, ap, subst}
use mathlib.Core.Logic.{inl, inr}
use mathlib.Core.Bool.{Bool, true, false}
use native.Mathlib.Omega.{arith}
use text.Mathlib.Text.{◌==◌ as str_eq}
use text.Mathlib.TextEquality.{eq_iff}
use text.Mathlib.TextPositions.{eq_refl}
use b2b_app.Prelude.Tests.{if◌then◌else◌, Bool-cases, leb, leb→le}
use b2b_app.Prelude.Lists.{all, length, length-append}
use b2b_app.Prelude.Keys.{mem, count, mem-append, count_of_mem, count_of_not_mem}

abbrev pub Included : List String → List String → Type 0
Included xs ys = (j : String) → mem j xs ≡ true → mem j ys ≡ true

abbrev pub Once : List String → Type 0
Once xs = (j : String) → count j xs ≤ 1

pub split_mem :
    (k : String) (xs : List String)
    → mem k xs ≡ true
    → (a : List String) × (b : List String) × (xs ≡ a ++ k ∷ b)
split_mem k [] m = cc
split_mem k (x ∷ xs) m = elim (Bool-cases (str_eq k x)) [
  | inl same ↦ ([], xs, ap (λ y. y ∷ xs) (sym ((eq_iff k x).0 same)))
  | inr other ↦ let (a, b, e) = split_mem k xs (ground arith) in (x ∷ a, b, ap (λ l. x ∷ l) e)
]

module _ (k : String) (xs a b : List String) where
  Once-tail : Once (k ∷ xs) → Once xs
  Once-tail once j = omega (arith, once j)

  tail-Included : Once (k ∷ xs) → Included (k ∷ xs) (a ++ k ∷ b) → Included xs (a ++ b)
  tail-Included once incl j m = ground (
    arith,
    incl j,
    once j,
    count_of_mem j xs,
    mem-append j a (k ∷ b),
    mem-append j a b,
    eq_iff j k,
    eq_refl k,
  )

pub length-le_of_Included : (xs ys : List String) → Once xs → Included xs ys → length xs ≤ length ys
length-le_of_Included [] ys once incl = omega arith
length-le_of_Included (k ∷ xs) ys once incl =
    let (a, b, e) = split_mem k ys (incl k (ground (arith, eq_refl k))) in
    let incl' = tail-Included k xs a b once (subst (Included (k ∷ xs)) e incl) in
    omega (
      arith,
      length-le_of_Included xs (a ++ b) (Once-tail k xs a b once) incl',
      ap length e,
      length-append a (k ∷ b),
      length-append a b,
    )

pub perm_of_Included :
    (xs ys : List String) → Once xs → Included xs ys → length xs ≡ length ys → Perm xs ys
perm_of_Included [] [] once incl same = Perm.refl []
perm_of_Included [] (y ∷ ys) once incl same = absurd (omega arith)
perm_of_Included (k ∷ xs) ys once incl same =
    let (a, b, e) = split_mem k ys (incl k (ground (arith, eq_refl k))) in
    let incl' = tail-Included k xs a b once (subst (Included (k ∷ xs)) e incl) in
    let rest =
      perm_of_Included xs (a ++ b) (Once-tail k xs a b once) incl'
        (omega (arith, same, ap length e, length-append a (k ∷ b), length-append a b)) in
    rw e (Perm.trans (Perm.cons k rest) (Perm.symm (perm_middle a b)))

pub Included-of_length :
    (xs ys : List String) → Once xs → Included xs ys → length xs ≡ length ys → Included ys xs
Included-of_length [] [] once incl same j m = m
Included-of_length [] (y ∷ ys) once incl same j m = absurd (omega arith)
Included-of_length (k ∷ xs) ys once incl same j m =
    let (a, b, e) = split_mem k ys (incl k (ground (arith, eq_refl k))) in
    let incl' = tail-Included k xs a b once (subst (Included (k ∷ xs)) e incl) in
    let rest =
      Included-of_length xs (a ++ b) (Once-tail k xs a b once) incl'
        (omega (arith, same, ap length e, length-append a (k ∷ b), length-append a b)) j in
    let placed : mem j (a ++ k ∷ b) ≡ true = subst (λ l. mem j l ≡ true) e m in
    ground (arith, rest, placed, mem-append j a (k ∷ b), mem-append j a b)

-- The index of the first occurrence.
abbrev pub position : String → List String → ℕ
position k [] = 0
position k (x ∷ xs) = if str_eq k x then 0 else suc (position k xs)

pub position-mem :
    (k : String) (before after : List String)
    → mem k before ≡ true
    → suc (position k (before ++ after)) ≤ length before
position-mem k [] after m = cc
position-mem k (x ∷ before) after m = ground (arith, position-mem k before after)

pub position-split :
    (k : String) (before after : List String)
    → mem k before ≡ false
    → position k (before ++ k ∷ after) ≡ length before
position-split k [] after m = ground (arith, eq_refl k)
position-split k (x ∷ before) after m = ground (arith, position-split k before after)

all-mem :
    (p : String → Bool) (ks : List String) (k : String)
    → all p ks ≡ true
    → mem k ks ≡ true
    → p k ≡ true
all-mem p [] k h m = cc
all-mem p (x ∷ ks) k h m = ground (arith, all-mem p ks k, eq_iff k x)

-- A test for distinct keys.
pub Once-of_all : (ks : List String) → all (λ k. leb (count k ks) 1) ks ≡ true → Once ks
Once-of_all ks h j = elim (Bool-cases (mem j ks)) [
  | inl m ↦ leb→le (count j ks) 1 (all-mem (λ k. leb (count k ks) 1) ks j h m)
  | inr m ↦ omega (arith, count_of_not_mem j ks m)
]
