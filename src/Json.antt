-- ===== src/Json.antt =====
-- The dynamic values that the hub passes on: what `json.loads` returns. They fill
-- `action_details`, `metadata`, the JSONB columns, the tags and the bodies of requests.
-- A `float` is known by whether it is 0 and by its printed form; a `dict` is its entries in
-- insertion order.
pub mod Print
pub mod Cast
pub mod Laws
use nodus_hitl_hub.Base.{
  ℕ, String, Bool, true, false, not, ◌&&◌, ◌||◌, Option, none, some, List, [], ◌∷◌, ◌==◌, is_full,
  if◌then◌else◌,
}
use nodus_hitl_hub.Base.Int.{ℤ, is_zero}

mutual
  pub data Value : Type 0 where
    obj : Fields → Value
    arr : Items → Value
    str : String → Value
    bool : Bool → Value
    float : Bool → String → Value
    int : ℤ → Value
    null : Value

  pub data Fields : Type 0 where
    field : String → Value → Fields → Fields
    end : Fields

  pub data Items : Type 0 where
    cons : Value → Items → Items
    nil : Items

-- `bool(v)`; the flag of a float says that it is 0.
abbrev pub truthy : Value → Bool
truthy null = false
truthy (bool b) = b
truthy (int z) = not (is_zero z)
truthy (float is_nought _) = not is_nought
truthy (str s) = is_full s
truthy (arr nil) = false
truthy (arr (cons _ _)) = true
truthy (obj end) = false
truthy (obj (field _ _ _)) = true

-- `isinstance(v, dict)`
abbrev pub is_dict : Value → Bool
is_dict (obj _) = true
is_dict _ = false

-- `v == s` against a text
abbrev pub is_str : Value → String → Bool
is_str (str t) s = t == s
is_str _ s = false

-- `v in (s, …)`
abbrev pub is_str_in : Value → List String → Bool
is_str_in v [] = false
is_str_in v (s ∷ ss) = is_str v s || is_str_in v ss

-- `v or w`
abbrev pub or_value : Value → Value → Value
or_value v w = if truthy v then v else w

-- `d.get(key)`, a missing key told apart
abbrev pub lookup : String → Fields → Option Value
lookup key end = none
lookup key (field k v d) = if k == key then some v else lookup key d

-- `d.get(key, default)`
abbrev pub get_or : String → Value → Fields → Value
get_or key default d = elim (lookup key d) [ none ↦ default | some v ↦ v ]

-- `d.get(key)`
abbrev pub get : String → Fields → Value
get key d = get_or key null d

-- `key in d`
abbrev pub contains : String → Fields → Bool
contains key d = elim (lookup key d) [ none ↦ false | some _ ↦ true ]

-- `d[key] = v`: the entry keeps its place, a new one goes last.
abbrev pub set : String → Value → Fields → Fields
set key v end = field key v end
set key v (field k w d) = if k == key then field k v d else field k w (set key v d)

-- `d.setdefault(key, v)`
abbrev pub set_default : String → Value → Fields → Fields
set_default key v d = if contains key d then d else set key v d

-- `d or {}` of an optional dict
abbrev pub or_empty : Option Fields → Fields
or_empty none = end
or_empty (some d) = d

-- An `Optional[str]` as a value.
abbrev pub opt_str : Option String → Value
opt_str none = null
opt_str (some s) = str s
