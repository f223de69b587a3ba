-- ===== src/Prelude/Texts.antt =====
-- Texts as lists of characters: prefixes, and pieces between separators.
use Prim.Native.Char.{Char, code}
use Prim.Native.Nat.{ℕ}
use Prim.Native.String
use Prim.Native.String.{String}
use mathlib.Core.Path.{◌≡◌, refl, ap, ◌∙◌}
use mathlib.Core.Bool.{Bool, true, false, not, ◌||◌}
use mathlib.Core.Option.{Option, none, some}
use mathlib.Core.List.{List, [], ◌∷◌}
use native.Mathlib.Omega.{arith}
use text.Mathlib.TextLemmas.{nil-append, cons-append, append-nil, append_assoc}
use b2b_app.Prelude.Tests.{if◌then◌else◌, ◌==◌, ==_iff}
use b2b_app.Prelude.Lists.{all}

infixl 65 ◌+++◌
abbrev pub ◌+++◌ : String → String → String
s +++ t = String.◌++◌ s t

-- The text behind a prefix, where the text starts with it.
abbrev pub after_prefix : String → String → Option String
after_prefix String.[] s = some s
after_prefix (String.◌∷◌ c p) String.[] = none
after_prefix (String.◌∷◌ c p) (String.◌∷◌ d s) = if code c == code d then after_prefix p s else none

-- s.split(c), from the piece that has been read so far.
abbrev pub split_from : ℕ → String → String → List String
split_from sep current String.[] = current ∷ []
split_from sep current (String.◌∷◌ c s) =
    let next = split_from sep (String.◌++◌ current (String.◌∷◌ c String.[])) s in
    let fresh = split_from sep "" s in if code c == sep then current ∷ fresh else next

abbrev pub split : ℕ → String → List String
split sep s = split_from sep "" s

-- The character occurs.
abbrev pub has_char : ℕ → String → Bool
has_char sep String.[] = false
has_char sep (String.◌∷◌ c s) = (code c == sep) || has_char sep s

pub after_prefix-append : (p s : String) → after_prefix p (p +++ s) ≡ some s
after_prefix-append String.[] s = rw (nil-append s) refl
after_prefix-append (String.◌∷◌ c p) s =
    let same : (code c == code c) ≡ true = (==_iff (code c) (code c)).1 refl in
    rw (cons-append c p s, same) (after_prefix-append p s)

push_front :
    (s : String) (d : Char) (t : String)
    → String.◌++◌ (String.◌++◌ s (String.◌∷◌ d String.[])) t ≡ String.◌++◌ s (String.◌∷◌ d t)
push_front s d t =
    append_assoc s (String.◌∷◌ d String.[]) t
    ∙ ap (λ x. String.◌++◌ s x) (cons-append d String.[] t ∙ ap (String.◌∷◌ d) (nil-append t))

pub split_from-append :
    (sep : ℕ) (current piece rest : String) (c : Char)
    → has_char sep piece ≡ false
    → code c ≡ sep
    → split_from sep current (piece +++ String.◌∷◌ c rest) ≡ (current +++ piece) ∷ split sep rest
split_from-append sep current String.[] rest c h e =
    let hit : (code c == sep) ≡ true = (==_iff (code c) sep).1 e in
    rw (nil-append (String.◌∷◌ c rest), hit, append-nil current) refl
split_from-append sep current (String.◌∷◌ d piece) rest c h e =
    let miss : (code d == sep) ≡ false = ground arith in
    let step =
      split_from-append sep (String.◌++◌ current (String.◌∷◌ d String.[])) piece rest c
        (ground arith) e in
    rw (cons-append d piece (String.◌∷◌ c rest), miss)
      (step ∙ ap (λ x. x ∷ split sep rest) (push_front current d piece))

pub split_from_last :
    (sep : ℕ) (current piece : String)
    → has_char sep piece ≡ false
    → split_from sep current piece ≡ (current +++ piece) ∷ []
split_from_last sep current String.[] h = rw (append-nil current) refl
split_from_last sep current (String.◌∷◌ d piece) h =
    let miss : (code d == sep) ≡ false = ground arith in
    let step =
      split_from_last sep (String.◌++◌ current (String.◌∷◌ d String.[])) piece (ground arith) in
    rw miss (step ∙ ap (λ x. x ∷ []) (push_front current d piece))

one-append : (c : Char) (s : String) → String.◌∷◌ c String.[] +++ s ≡ String.◌∷◌ c s
one-append c s = cons-append c String.[] s ∙ ap (String.◌∷◌ c) (nil-append s)

pub split-append :
    (c : Char) (piece rest : String)
    → has_char (code c) piece ≡ false
    → split (code c) (piece +++ (String.◌∷◌ c String.[] +++ rest)) ≡ piece ∷ split (code c) rest
split-append c piece rest h =
    ap (λ x. split (code c) (piece +++ x)) (one-append c rest)
    ∙ split_from-append (code c) "" piece rest c h refl
    ∙ ap (λ x. x ∷ split (code c) rest) (nil-append piece)

-- pieces.join(c)
abbrev pub join : Char → List String → String
join c [] = ""
join c (x ∷ []) = x
join c (x ∷ y ∷ pieces) = x +++ (String.◌∷◌ c String.[] +++ join c (y ∷ pieces))

abbrev pub free_of : ℕ → List String → Bool
free_of sep pieces = all (λ x. not (has_char sep x)) pieces

pub split-join :
    (c : Char) (x : String) (pieces : List String)
    → free_of (code c) (x ∷ pieces) ≡ true
    → split (code c) (join c (x ∷ pieces)) ≡ x ∷ pieces
split-join c x [] h = split_from_last (code c) "" x (ground arith) ∙ ap (λ y. y ∷ []) (nil-append x)
split-join c x (y ∷ pieces) h =
    split-append c x (join c (y ∷ pieces)) (ground arith)
    ∙ ap (λ l. x ∷ l) (split-join c y pieces (ground arith))
