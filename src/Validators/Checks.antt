-- ===== src/Validators/Checks.antt =====
-- The errors of each validator, and what a list of no errors means.
use nodus_hitl_hub.Base.{
  Bool, List, Option-cases, String, [], arith, eq_iff, false, inl, inr, is_one_of, none, refl, true,
  ◌++◌, ◌↔◌, ◌∷◌, ◌≡◌, ◌≢◌,
}
use nodus_hitl_hub.Json.{Fields, get, get_or, is_str_in, lookup, null, str, truthy}
use nodus_hitl_hub.Json.Laws.{contains_iff, get-missing, get_or_of_lookup}
use nodus_hitl_hub.Validators.Accepted.{Fills, HoldsOneOf, HoldsOneOf-iff, truthy_of_HoldsOneOf}
use nodus_hitl_hub.Validators.Plugins.{
  recording_types, sensor_errors, unless, valid_sensors, validate_calendar, validate_default,
  validate_email, validate_modelbook_conflict, validate_recording, validate_sensor_deploy,
}

unless-nil : (b : Bool) (e : String) → (unless b e ≡ []) ↔ (b ≡ true)
unless-nil b e = ground arith

append-nil_iff : (xs ys : List String) → ((xs ++ ys) ≡ []) ↔ ((xs ≡ []) × (ys ≡ []))
append-nil_iff [] ys = ground arith
append-nil_iff (x ∷ xs) ys = ground arith

-- The check that a value is there adds nothing to the check that it is one of some texts.
listed_text :
    (key : String) (options : List String) (payload : Fields)
    → is_one_of "" options ≡ false
    → ((truthy (get_or key (str "") payload) ≡ true)
        × (is_str_in (get_or key (str "") payload) options ≡ true))
      ↔ HoldsOneOf key options payload
listed_text key options payload no_blank = (
  λ (_, h). (HoldsOneOf-iff key options payload no_blank).0 h,
  λ h. (
    truthy_of_HoldsOneOf key options payload no_blank h,
    (HoldsOneOf-iff key options payload no_blank).1 h,
  ),
)

-- A blank default reads as a missing key.
truthy-get_or :
    (key : String) (payload : Fields)
    → truthy (get_or key (str "") payload) ≡ truthy (get key payload)
truthy-get_or key payload = elim (Option-cases (lookup key payload)) [
  | inl e ↦ rw (get-missing key (str "") payload e, get-missing key null payload e) refl
  | inr (v, e) ↦
      rw (get_or_of_lookup key (str "") v payload e, get_or_of_lookup key null v payload e) refl
]

pub email_nil :
    (a : String) (payload : Fields)
    → (validate_email a payload ≡ []) ↔ Fills ("to" ∷ "subject" ∷ []) payload
unfolding validate_email
email_nil a payload = grind (arith, append-nil_iff, unless-nil)

pub conflict_nil :
    (a : String) (payload : Fields)
    → (validate_modelbook_conflict a payload ≡ []) ↔ (
        Fills ("proposal_id" ∷ "tenant_id" ∷ "region_id" ∷ "claim_key" ∷ []) payload
        × (lookup "proposed_value" payload ≢ none))
unfolding validate_modelbook_conflict
conflict_nil a payload =
    grind (arith, append-nil_iff, unless-nil, contains_iff "proposed_value" payload)

pub recording_nil :
    (a : String) (payload : Fields)
    → (validate_recording a payload ≡ []) ↔ (
        Fills ("recording_id" ∷ "recorder_url" ∷ []) payload
        × HoldsOneOf "recording_type" recording_types payload)
unfolding validate_recording
recording_nil a payload = grind (
  arith,
  append-nil_iff,
  unless-nil,
  truthy-get_or "recording_type" payload,
  listed_text "recording_type" recording_types payload refl,
)

pub sensor_nil :
    (a : String) (payload : Fields)
    → (validate_sensor_deploy a payload ≡ [])
      ↔ (Fills ("target_system" ∷ []) payload × HoldsOneOf "sensor" valid_sensors payload)
unfolding validate_sensor_deploy sensor_errors
sensor_nil a payload =
    grind (arith, append-nil_iff, unless-nil, listed_text "sensor" valid_sensors payload refl)

pub created_nil :
    (payload : Fields)
    → (validate_calendar "create_calendar_event" payload ≡ [])
      ↔ Fills ("title" ∷ "start" ∷ []) payload
unfolding validate_calendar
created_nil payload = grind (arith, append-nil_iff, unless-nil)

pub updated_nil :
    (payload : Fields)
    → (validate_calendar "update_calendar_event" payload ≡ []) ↔ Fills ("title" ∷ []) payload
unfolding validate_calendar
updated_nil payload = grind (arith, append-nil_iff, unless-nil)

pub deleted_nil : (payload : Fields) → validate_calendar "delete_calendar_event" payload ≡ []
unfolding validate_calendar
deleted_nil payload = refl

pub default_nil : (a : String) (payload : Fields) → (validate_default a payload ≡ []) ↔ (a ≢ "")
unfolding validate_default
default_nil a payload = grind (arith, append-nil_iff, unless-nil, eq_iff a "")
