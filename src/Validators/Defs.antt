-- ===== src/Validators/Defs.antt =====
-- core/validator.py: `ValidatorPlugin` and `ValidatorRegistry`.
use nodus_hitl_hub.Base.{
  ℕ, String, Bool, not, ◌&&◌, Option, none, some, List, [], ◌∷◌, ◌++◌, length, find,
}
use nodus_hitl_hub.Json.{Fields}
use nodus_hitl_hub.World.Exec.{Exec, pure}

-- A validator plugin. `validate` returns the list of errors, or raises.
pub record Validator : Type 0 where
  pub name : String
  pub is_fallback : Bool
  pub accepts : String → Bool
  pub validate : String → Fields → Exec (List String)

-- The two loops of `get_validator`.
unfoldable pub get_validator : List Validator → String → Option Validator
get_validator validators action =
    elim (find (λ v. not v.is_fallback && v.accepts action) validators) [
      | some v ↦ some v
      | none ↦ find (λ v. v.is_fallback && v.accepts action) validators
    ]

unfoldable pub register : Validator → List Validator → List Validator
register v validators = validators ++ v ∷ []

unfoldable pub count : List Validator → ℕ
count validators = length validators

-- Step 1 of `HITLEngine.request`: no validator, no errors.
unfoldable pub validation_errors : List Validator → String → Fields → Exec (List String)
validation_errors validators action payload = elim (get_validator validators action) [
  | some v ↦ v.validate action payload
  | none ↦ pure []
]
