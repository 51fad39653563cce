-- ===== src/Json/Cast.antt =====
-- The values whose printed form the database reads as JSONB: PostgreSQL refuses \u0000 in a text, and
-- NaN and the infinities, which `json.dumps` prints, are no JSON.
use Prim.Native.Char.{code}
use Prim.Native.String.{String}
use mathlib.Core.Bool.{Bool, false, not, ◌&&◌, ◌||◌}
use nodus_hitl_hub.Base.{[], is_one_of, nat_eq, refl, true, ◌∷◌, ◌≡◌}
use nodus_hitl_hub.Json.{
  Fields, Items, Value, arr, bool, cons, end, field, float, int, nil, null, obj, str,
}

unfoldable pub has_nul : String → Bool
has_nul String.[] = false
has_nul (String.◌∷◌ ch s) = nat_eq (code ch) 0 || has_nul s

unfoldable mutual
  unfolding has_nul

  pub castable : Value → Bool
  castable null = true
  castable (bool b) = true
  castable (int z) = true
  castable (float _ text) = not (is_one_of text ("NaN" ∷ "Infinity" ∷ "-Infinity" ∷ []))
  castable (str s) = not (has_nul s)
  castable (arr xs) = castable_items xs
  castable (obj d) = castable_fields d

  pub castable_items : Items → Bool
  castable_items nil = true
  castable_items (cons v xs) = castable v && castable_items xs

  pub castable_fields : Fields → Bool
  castable_fields end = true
  castable_fields (field k v d) = not (has_nul k) && castable v && castable_fields d

refuses_nan : castable (obj (field "a" (arr (cons (float false "NaN") nil)) end)) ≡ false
unfolding castable
refuses_nan = refl

refuses_nul : castable (obj (field "a" (str "x\0") end)) ≡ false
unfolding castable
refuses_nul = refl
