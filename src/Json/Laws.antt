-- ===== src/Json/Laws.antt =====
-- How a write to a dict shows in its reads.
use nodus_hitl_hub.Base.{
  String, ◌≡◌, ◌≢◌, ◌↔◌, refl, true, none, some, arith, eq_iff, eq_refl, ◌==◌, if◌then◌else◌,
}
use nodus_hitl_hub.Json.{Value, Fields, end, field, lookup, get, get_or, set, set_default, contains}

pub lookup-set :
    (key j : String) (v : Value) (d : Fields)
    → lookup j (set key v d) ≡ (if key == j then some v else lookup j d)
lookup-set key j v end = refl
lookup-set key j v (field k w d) =
    ground (arith, eq_iff key j, eq_iff k key, eq_iff k j, lookup-set key j v d)

pub get-set_self : (key : String) (v : Value) (d : Fields) → get key (set key v d) ≡ v
get-set_self key v d = ground (arith, lookup-set key key v d, eq_refl key)

pub get-set_ne : (key j : String) (v : Value) (d : Fields) → key ≢ j → get j (set key v d) ≡ get j d
get-set_ne key j v d h = ground (arith, lookup-set key j v d, eq_iff key j)

-- A key that is there already keeps its value.
pub lookup-set_default :
    (key j : String) (v w : Value) (d : Fields)
    → lookup j d ≡ some w
    → lookup j (set_default key v d) ≡ some w
lookup-set_default key j v w d h = ground (arith, lookup-set key j v d, eq_iff key j)

pub get_or_of_lookup :
    (key : String) (default v : Value) (d : Fields)
    → lookup key d ≡ some v
    → get_or key default d ≡ v
get_or_of_lookup key default v d e = ground arith

pub get-missing :
    (key : String) (default : Value) (d : Fields)
    → lookup key d ≡ none
    → get_or key default d ≡ default
get-missing key default d e = ground arith

pub contains_iff : (key : String) (d : Fields) → (contains key d ≡ true) ↔ (lookup key d ≢ none)
contains_iff key d = ground arith
