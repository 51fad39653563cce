-- ===== src/Validators/Accepted.antt =====
-- Which payloads pass the validation of the hub's own validators, stated without the error lists.
use nodus_hitl_hub.Base.{
  All, List, Option, String, [], ap, arith, eq_iff, false, is_one_of, none, refl, some, sym, true,
  ◌↔◌, ◌∙◌, ◌∷◌, ◌≡◌,
}
use nodus_hitl_hub.Json.{Fields, Value, get, get_or, is_str_in, lookup, str, truthy}
use nodus_hitl_hub.Json.Laws.{get_or_of_lookup}
use nodus_hitl_hub.Validators.Defs.{validation_errors}
use nodus_hitl_hub.Validators.Plugins.{discovered}
use nodus_hitl_hub.World.{World}
use nodus_hitl_hub.World.Exec.{ok}

-- The payload holds these keys, each with a value that counts as true.
abbrev pub Fills : List String → Fields → Type 0
Fills keys payload = All (λ key. truthy (get key payload) ≡ true) keys

-- The payload holds the key with one of these texts.
abbrev pub HoldsOneOf : String → List String → Fields → Type 0
HoldsOneOf key options payload =
    (s : String) × (lookup key payload ≡ some (str s)) × (is_one_of s options ≡ true)

-- The validation of the discovered validators finds no error, whatever the state.
abbrev pub Passes : String → Fields → Type 0
Passes action payload = (w : World) → validation_errors discovered action payload w ≡ (ok [], w)

is_str_in-str :
    (s : String) (options : List String) → is_str_in (str s) options ≡ is_one_of s options
is_str_in-str s [] = refl
is_str_in-str s (t ∷ ts) = ground (arith, is_str_in-str s ts)

text_of_member :
    (v : Value) (options : List String) → is_str_in v options ≡ true → (s : String) × (v ≡ str s)
text_of_member (str s) options h = (s, refl)
text_of_member v [] h = cc
text_of_member v (t ∷ ts) h = text_of_member v ts (ground arith)

abbrev or_blank : Option Value → Value
or_blank none = str ""
or_blank (some v) = v

or_blank-member :
    (o : Option Value) (options : List String)
    → is_one_of "" options ≡ false
    → is_str_in (or_blank o) options ≡ true
    → (s : String) × (o ≡ some (str s)) × (is_one_of s options ≡ true)
or_blank-member none options no_blank h = cc (is_str_in-str "" options)
or_blank-member (some v) options no_blank h =
    let (s, e) = text_of_member v options h in
    (s, ap some e, sym (is_str_in-str s options) ∙ (rw e at h))

pub HoldsOneOf-iff :
    (key : String) (options : List String) (payload : Fields)
    → is_one_of "" options ≡ false
    → (is_str_in (get_or key (str "") payload) options ≡ true) ↔ HoldsOneOf key options payload
HoldsOneOf-iff key options payload no_blank = (
  λ h. or_blank-member (lookup key payload) options no_blank (ground arith),
  λ (s, e, h). rw (get_or_of_lookup key (str "") (str s) payload e) (is_str_in-str s options ∙ h),
)

-- A listed text is not empty, so the check for it makes the check of presence redundant.
pub truthy_of_HoldsOneOf :
    (key : String) (options : List String) (payload : Fields)
    → is_one_of "" options ≡ false
    → HoldsOneOf key options payload
    → truthy (get_or key (str "") payload) ≡ true
truthy_of_HoldsOneOf key options payload no_blank (s, e, h) =
    rw (get_or_of_lookup key (str "") (str s) payload e) (ground (arith, eq_iff s ""))
