-- ===== src/Prelude/Keys.antt =====
-- Text keys: membership and counts in lists of keys, and maps from keys as functions.
use Prim.Native.Nat.{ℕ, ◌<◌}
use Prim.Native.String.{String}
use mathlib.Core.Path.{◌≡◌, refl}
use mathlib.Core.Bool.{Bool, true, false, ◌||◌}
use mathlib.Core.Option.{Option, some}
use mathlib.Core.List.{List, [], ◌∷◌, ◌++◌}
use native.Mathlib.Omega.{arith}
use text.Mathlib.Text.{◌==◌ as str_eq}
use text.Mathlib.TextEquality.{eq_iff}
use text.Mathlib.TextPositions.{eq_refl}
use b2b_app.Prelude.Tests.{if◌then◌else◌}
use b2b_app.Prelude.Lists.{any, tally}

abbrev pub mem : String → List String → Bool
mem k xs = any (str_eq k) xs

abbrev pub count : String → List String → ℕ
count k xs = tally (str_eq k) xs

abbrev pub KeyMap {ℓ} : Type ℓ → Type ℓ
KeyMap V = String → Option V

-- map.set(k, v)
abbrev pub put {ℓ} : {V : Type ℓ} → String → V → KeyMap V → KeyMap V
put k v m j = if str_eq k j then some v else m j

pub mem-append : (k : String) (xs ys : List String) → mem k (xs ++ ys) ≡ (mem k xs || mem k ys)
mem-append k [] ys = refl
mem-append k (x ∷ xs) ys = ground (arith, mem-append k xs ys)

pub count_of_not_mem : (k : String) (xs : List String) → mem k xs ≡ false → count k xs ≡ 0
count_of_not_mem k [] h = refl
count_of_not_mem k (x ∷ xs) h = ground (arith, count_of_not_mem k xs)

pub count_of_mem : (k : String) (xs : List String) → mem k xs ≡ true → 0 < count k xs
count_of_mem k [] h = cc
count_of_mem k (x ∷ xs) h = ground (arith, count_of_mem k xs)

pub str_eq_sym : (a b : String) → str_eq a b ≡ str_eq b a
str_eq_sym a b = ground (arith, eq_iff a b, eq_iff b a)

pub mem-concat_self : (k : String) (xs : List String) → mem k (xs ++ k ∷ []) ≡ true
mem-concat_self k xs = ground (arith, mem-append k xs (k ∷ []), eq_refl k)
