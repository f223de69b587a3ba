-- ===== src/Prelude/Escapes.antt =====
-- Texts without colons that stand for texts: encodings for the examples.
use Prim.Native.Char.{Char, code}
use Prim.Native.String.{String}
use mathlib.Core.Path.{◌≡◌, refl, sym, ap, ◌∙◌}
use mathlib.Core.Logic.{inl, inr}
use mathlib.Core.Bool.{Bool, false}
use text.Mathlib.TextEquality.{Char-path}
use b2b_app.Prelude.Tests.{if◌then◌else◌, ◌==◌, ==_iff, Bool-cases}
use b2b_app.Prelude.Texts.{has_char}

abbrev pub is_colon : Char → Bool
is_colon c = code c == b':'

-- A colon becomes "x", and any other character follows a "y".
abbrev pub escape : String → String
escape String.[] = ""
escape (String.◌∷◌ c s) =
    let rest = escape s in
    if is_colon c then String.◌∷◌ "x" rest else String.◌∷◌ "y" (String.◌∷◌ c rest)

abbrev pub unescape : String → String
unescape String.[] = ""
unescape (String.◌∷◌ c String.[]) = ":"
unescape (String.◌∷◌ c (String.◌∷◌ d s)) =
    let marked = unescape (String.◌∷◌ d s) in
    let plain = unescape s in if code c == b'x' then String.◌∷◌ ":" marked else String.◌∷◌ d plain

unescape-colon : (s : String) → unescape (String.◌∷◌ "x" s) ≡ String.◌∷◌ ":" (unescape s)
unescape-colon String.[] = refl
unescape-colon (String.◌∷◌ d s) = refl

pub unescape-escape : (s : String) → unescape (escape s) ≡ s
unescape-escape String.[] = refl
unescape-escape (String.◌∷◌ c s) = elim (Bool-cases (is_colon c)) [
  | inl colon ↦
      let same : ":" ≡ c = sym (Char-path c ":" ((==_iff (code c) b':').0 colon)) in
      rw colon (
        unescape-colon (escape s)
        ∙ ap (String.◌∷◌ ":") (unescape-escape s)
        ∙ ap (λ d. String.◌∷◌ d s) same)
  | inr other ↦ rw other (ap (String.◌∷◌ c) (unescape-escape s))
]

pub escape_plain : (s : String) → has_char b':' (escape s) ≡ false
escape_plain String.[] = refl
escape_plain (String.◌∷◌ c s) = elim (Bool-cases (is_colon c)) [
  | inl colon ↦ rw colon (escape_plain s)
  | inr other ↦ rw (other, other) (escape_plain s)
]
