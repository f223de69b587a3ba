-- ===== src/Json.antt =====
-- The values of JavaScript that a workflow handles: parsed JSON, `undefined`, and functions, which
-- a lookup can meet on the prototype of an object. `N` stands for the numbers.
use b2b_app.Prelude.{
  ℕ, zero, suc, String, Bool, true, false, ◌&&◌, Option, none, some, str_eq, if◌then◌else◌,
}

mutual
  pub data Value (N : Type 0) : Type 0 where
    undefined : Value N
    null : Value N
    bool : Bool → Value N
    num : N → Value N
    str : String → Value N
    arr : Items N → Value N
    obj : Fields N → Value N
    native_function : String → Value N

  pub data Items (N : Type 0) : Type 0 where
    nil : Items N
    cons : Value N → Items N → Items N

  -- The own properties, in their order.
  pub data Fields (N : Type 0) : Type 0 where
    end : Fields N
    field : String → Value N → Fields N → Fields N

-- What the code uses of the language's own library, which is not modelled: numbers with their
-- comparisons, `String(v)` (`none` where it throws, on an object without a usable `toString`), the tests on strings, `new RegExp(p).test(s)` (`none` where the pattern
-- is refused), the properties that every object inherits from `Object.prototype`, and a whole number.
pub record Js : Type 1 where
  pub Number : Type 0
  pub lt : Number → Number → Bool
  pub le : Number → Number → Bool
  pub eq : Number → Number → Bool
  pub to_text : Value Number → Option String
  pub includes : String → String → Bool
  pub starts_with : String → String → Bool
  pub ends_with : String → String → Bool
  pub regex_test : String → String → Option Bool
  pub inherited : String → Option (Value Number)
  pub of_nat : ℕ → Number

module _ {N : Type 0} where
  abbrev pub item : Items N → ℕ → Option (Value N)
  item nil i = none
  item (cons v vs) zero = some v
  item (cons v vs) (suc i) = item vs i

  -- a[i] = v: an array that is too short is filled up with holes, which read as `undefined`.
  abbrev pub set_item : ℕ → Value N → Items N → Items N
  set_item zero v nil = cons v nil
  set_item zero v (cons w ws) = cons v ws
  set_item (suc i) v nil = cons undefined (set_item i v nil)
  set_item (suc i) v (cons w ws) = cons w (set_item i v ws)

  abbrev pub own : Fields N → String → Option (Value N)
  own end k = none
  own (field j v fs) k = if str_eq j k then some v else own fs k

  -- o[k] = v: an existing property keeps its place.
  abbrev pub set_own : String → Value N → Fields N → Fields N
  set_own k v end = field k v end
  set_own k v (field j w fs) = if str_eq j k then field j v fs else field j w (set_own k v fs)

-- `structuredClone` returns an equal copy, and throws where it meets a function.
unfoldable mutual
  pub is_cloneable : {N : Type 0} → Value N → Bool
  is_cloneable undefined = true
  is_cloneable null = true
  is_cloneable (bool b) = true
  is_cloneable (num n) = true
  is_cloneable (str s) = true
  is_cloneable (arr vs) = items_cloneable vs
  is_cloneable (obj fs) = fields_cloneable fs
  is_cloneable (native_function f) = false

  pub items_cloneable : {N : Type 0} → Items N → Bool
  items_cloneable nil = true
  items_cloneable (cons v vs) = is_cloneable v && items_cloneable vs

  pub fields_cloneable : {N : Type 0} → Fields N → Bool
  fields_cloneable end = true
  fields_cloneable (field k v fs) = is_cloneable v && fields_cloneable fs
