-- ===== src/Host.antt =====
-- What the hub calls and does not implement, as parameters: the random source behind `uuid4`,
-- pydantic's checks of a field, asyncpg's check of a text parameter, and `str` of a value that is
-- not a text, and `int` of a float, of which the model keeps the printed form. The laws are what their
-- documentation promises of the values that fit.
use nodus_hitl_hub.Base.{Option, String, none, some, ℕ, ◌≡◌}
use nodus_hitl_hub.Base.Int.{ℤ}
use nodus_hitl_hub.Json.{Fields, Items, Value, arr, null, obj, str}
use nodus_hitl_hub.World.Exec.{Result, ok}

pub record Host : Type 0 where
  -- `uuid4().hex` of the call with this number
  pub uuid_hex : ℕ → String
  -- a field `Optional[str]`, `dict` or `list` of a pydantic model
  pub optional_str : Value → Result (Option String)
  pub dict_field : Value → Result Fields
  pub list_field : Value → Result Items
  -- `str(v)`
  pub py_str : Value → String
  -- `int(f)`, by the printed form of the float: infinities and NaN raise
  pub float_int : String → Result ℤ
  -- a query argument for a TEXT column
  pub text_param : Value → Result String
  pub optional_str-null : optional_str null ≡ ok none
  pub optional_str-str : (s : String) → optional_str (str s) ≡ ok (some s)
  pub dict_field-obj : (d : Fields) → dict_field (obj d) ≡ ok d
  pub list_field-arr : (xs : Items) → list_field (arr xs) ≡ ok xs
  pub text_param-str : (s : String) → text_param (str s) ≡ ok s
  pub py_str-str : (s : String) → py_str (str s) ≡ s
