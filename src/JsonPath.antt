-- ===== src/JsonPath.antt =====
-- lib/path.ts: `tokenize`, `getPath`, `hasPath` and `setPath`. An index is a natural number; those
-- beyond 2 ^ 53, where the source's numbers round, are not told apart there. The key `__proto__`,
-- which reads and writes the prototype, is not modelled.
use Prim.Native.Char.{Char, code}
use Prim.Native.String
use b2b_app.Prelude.{
  ℕ, ◌+◌, ◌-◌, ◌*◌, String, Bool, true, false, ◌&&◌, Option, none, some, List, [], ◌∷◌, ◌++◌,
  str_eq, if◌then◌else◌, leb, ◌==◌, Result, ok, err, ◌>>=◌,
}
use b2b_app.Json.{
  Value, undefined, null, arr, obj, nil, Fields, end, Js, item, set_item, own, set_own,
  is_cloneable,
}

pub data Token : Type 0 where
  key : String → Token
  index : ℕ → Token

-- What the code throws: `PathError`, the `DataCloneError` of `structuredClone`, or the `TypeError` of
-- `String(v)`.
pub data Thrown : Type 0 where
  path_error : (path : String) → Thrown
  clone_error : Thrown
  text_error : Thrown

-- Where the loop of `tokenize` stands: outside of brackets, between them, or just behind them. The
-- first two carry `current`.
pub data Mode : Type 0 where
  plain : String → Mode
  bracket : String → Mode
  behind : Mode

abbrev is_digit : ℕ → Bool
is_digit c = leb b'0' c && leb c b'9'

-- /^\d+$/
abbrev all_digits : String → Bool
all_digits String.[] = true
all_digits (String.◌∷◌ c s) = is_digit (code c) && all_digits s

abbrev is_index : String → Bool
is_index String.[] = false
is_index (String.◌∷◌ c s) = is_digit (code c) && all_digits s

-- Number(current), for digits.
abbrev number_from : ℕ → String → ℕ
number_from n String.[] = n
number_from n (String.◌∷◌ c s) = number_from (10 * n + (code c - b'0')) s

abbrev push : String → Char → String
push s c = String.◌++◌ s (String.◌∷◌ c String.[])

-- flushCurrent
abbrev flush : String → List Token → List Token
flush current tokens =
    if str_eq current ""
    then tokens
    else tokens ++ (if is_index current then index (number_from 0 current) else key current) ∷ []

unfoldable pub step_plain : String → List Token → Char → Mode × List Token
step_plain current tokens c =
    if code c == b'.'
    then (plain "", flush current tokens)
    else if code c == b'['
    then (bracket "", flush current tokens)
    else (plain (push current c), tokens)

-- One character; `none` is the error of an index that is no number.
unfoldable pub step : Mode → List Token → Char → Option (Mode × List Token)
step (plain current) tokens c = some (step_plain current tokens c)
step (bracket current) tokens c =
    if code c == b']'
    then if is_index current
      then some (behind, tokens ++ index (number_from 0 current) ∷ [])
      else none
    else some (bracket (push current c), tokens)
step behind tokens c =
    if code c == b'.' then some (plain "", tokens) else some (step_plain "" tokens c)

-- The end of the text. A bracket that is not closed counts as closed there.
unfoldable pub finish : Mode → List Token → Option (List Token)
finish (plain current) tokens = some (flush current tokens)
finish (bracket current) tokens =
    if is_index current then some (tokens ++ index (number_from 0 current) ∷ []) else none
finish behind tokens = some tokens

unfoldable pub scan : Mode → List Token → String → Option (List Token)
scan m tokens String.[] = finish m tokens
scan m tokens (String.◌∷◌ c s) = elim (step m tokens c) [
  | none ↦ none
  | some (m', tokens') ↦ scan m' tokens' s
]

abbrev strip_dot : String → String
strip_dot String.[] = ""
strip_dot (String.◌∷◌ c s) = if code c == b'.' then s else String.◌∷◌ c s

-- .replace(/^\$\.?/, "")
abbrev strip_root : String → String
strip_root String.[] = ""
strip_root (String.◌∷◌ c s) = if code c == b'$' then strip_dot s else String.◌∷◌ c s

unfoldable pub tokenize : String → Result Thrown (List Token)
tokenize path = elim (scan (plain "") [] (strip_dot (strip_root path))) [
  | none ↦ err (path_error path)
  | some tokens ↦ ok tokens
]

pub data Lookup (N : Type 0) : Type 0 where
  found : Value N → Lookup N
  not_found : Lookup N

module _ (js : Js) where
  open js use {Number, inherited}

  -- record[k], own or inherited.
  abbrev pub property : Fields Number → String → Option (Value Number)
  property fs k = elim (own fs k) [ none ↦ inherited k | some v ↦ some v ]

  -- One round of the loop of `getPath`.
  abbrev pub enter : Value Number → Token → Option (Value Number)
  enter (arr vs) (index i) = item vs i
  enter (obj fs) (key k) = property fs k
  enter _ _ = none

  unfoldable pub get_tokens : Value Number → List Token → Lookup Number
  get_tokens cursor [] = found cursor
  get_tokens cursor (t ∷ ts) = elim (enter cursor t) [ none ↦ not_found | some v ↦ get_tokens v ts ]

  unfoldable pub get_path : Value Number → String → Result Thrown (Lookup Number)
  get_path root path = do
    tokens ← tokenize path
    elim tokens [
      | [] ↦ if str_eq path "$" then ok (found root) else err (path_error path)
      | t ∷ ts ↦ ok (get_tokens root (t ∷ ts))
    ]

  abbrev is_found : Lookup Number → Bool
  is_found (found v) = true
  is_found not_found = false

  unfoldable pub has_path : Value Number → String → Result Thrown Bool
  has_path root path = do lookup ← get_path root path; ok (is_found lookup)

  -- typeof next === "number" ? [] : {}
  abbrev pub container_for : Token → Value Number
  container_for (index i) = arr nil
  container_for (key k) = obj end

  -- The existing value, unless it is null or undefined.
  abbrev pub or_container : Option (Value Number) → Token → Value Number
  or_container none t = container_for t
  or_container (some undefined) t = container_for t
  or_container (some null) t = container_for t
  or_container (some v) t = v

  -- An inherited property that is neither null nor undefined is entered, and not made an own one.
  abbrev pub stays_inherited : Fields Number → String → Bool
  stays_inherited fs k = elim (own fs k) [
    | some v ↦ false
    | none ↦ elim (inherited k) [
      | none ↦ false
      | some undefined ↦ false
      | some null ↦ false
      | some v ↦ true
    ]
  ]

  -- The writes of `setPath` below a cursor. Where the cursor is no container of the token's kind,
  -- the source goes on with a fresh container that nothing refers to, so nothing changes.
  unfoldable pub set_tokens : List Token → Value Number → Value Number → Value Number
  set_tokens [] value cursor = cursor
  set_tokens (index i ∷ []) value (arr vs) = arr (set_item i value vs)
  set_tokens (key k ∷ []) value (obj fs) = obj (set_own k value fs)
  set_tokens (index i ∷ t ∷ ts) value (arr vs) =
      arr (set_item i (set_tokens (t ∷ ts) value (or_container (item vs i) t)) vs)
  set_tokens (key k ∷ t ∷ ts) value (obj fs) =
      let inner = set_tokens (t ∷ ts) value (or_container (property fs k) t) in
      if stays_inherited fs k then obj fs else obj (set_own k inner fs)
  set_tokens (t ∷ ts) value cursor = cursor

  unfoldable pub set_path : Value Number → String → Value Number → Result Thrown (Value Number)
  set_path root path value = do
    tokens ← tokenize path
    if is_cloneable root
        then ok (elim tokens [ [] ↦ value | t ∷ ts ↦ set_tokens (t ∷ ts) value root ])
        else err clone_error
