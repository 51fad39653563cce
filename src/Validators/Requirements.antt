-- ===== src/Validators/Requirements.antt =====
-- The requirements on the payload of each action, as a table, and that the discovered registry implements it.
use nodus_hitl_hub.Base.{
  List, String, [], ap, arith, false, is_one_of, none, refl, true, ◌==◌, ◌↔◌, ◌∷◌, ◌≡◌, ◌≢◌,
}
use nodus_hitl_hub.Json.{Fields, lookup}
use nodus_hitl_hub.Validators.Accepted.{Fills, HoldsOneOf, Passes}
use nodus_hitl_hub.Validators.Checks.{
  conflict_nil, created_nil, default_nil, deleted_nil, email_nil, recording_nil, sensor_nil,
  updated_nil,
}
use nodus_hitl_hub.Validators.Choice.{get_validator-discovered, validator_of}
use nodus_hitl_hub.Validators.Defs.{Validator, validation_errors}
use nodus_hitl_hub.Validators.Plugins.{
  calendar_actions, default_validator, recording_types, valid_sensors, validate_default,
}
use nodus_hitl_hub.World.{World}
use nodus_hitl_hub.World.Exec.{pure}

-- Every action that a specific validator of the hub handles.
abbrev pub handled_actions : List String
handled_actions =
    "start_recording" ∷ "deploy_sensor" ∷ "send_email" ∷ "modelbook_conflict" ∷ calendar_actions

-- What passes validation, for every action: a recording names its id, its recorder and one of three
-- types; a deployment one of four sensors and a target; an e-mail its recipient and subject; a model
-- book conflict its proposal, tenant, region, claim and a proposed value, which may be null; a new
-- calendar event a title and a start, an updated one a title, a deleted one nothing; any other
-- action passes when it has a name.
pub record HasRequirements (payload : Fields) : Type 0 where
  pub recording : Passes "start_recording" payload ↔ (
      Fills ("recording_id" ∷ "recorder_url" ∷ []) payload
      × HoldsOneOf "recording_type" recording_types payload)
  pub sensor :
      Passes "deploy_sensor" payload
      ↔ (Fills ("target_system" ∷ []) payload × HoldsOneOf "sensor" valid_sensors payload)
  pub email : Passes "send_email" payload ↔ Fills ("to" ∷ "subject" ∷ []) payload
  pub conflict : Passes "modelbook_conflict" payload ↔ (
      Fills ("proposal_id" ∷ "tenant_id" ∷ "region_id" ∷ "claim_key" ∷ []) payload
      × (lookup "proposed_value" payload ≢ none))
  pub created : Passes "create_calendar_event" payload ↔ Fills ("title" ∷ "start" ∷ []) payload
  pub updated : Passes "update_calendar_event" payload ↔ Fills ("title" ∷ []) payload
  pub deleted : Passes "delete_calendar_event" payload
  pub other :
      (action : String)
      → is_one_of action handled_actions ≡ false
      → Passes action payload ↔ (action ≢ "")

abbrev blank : World
blank = record {
  now = 0;
  hitl = [];
  users = [];
  id_fits = λ n. true;
  notification_log = [];
  preferences = [];
  serial = 0;
  sent = [];
}

-- A validator that only returns a list passes exactly when the list is empty.
Passes-iff :
    (action : String) (payload : Fields) (errors : List String)
    → (validator_of action).validate action payload ≡ pure errors
    → Passes action payload ↔ (errors ≡ [])
unfolding validation_errors
Passes-iff action payload errors e = (
  λ h. ground (arith, h blank, get_validator-discovered action, ap (λ f. f blank) e),
  λ h w. ground (arith, get_validator-discovered action, ap (λ f. f w) e),
)

validator_of-other :
    (action : String)
    → is_one_of action handled_actions ≡ false
    → validator_of action ≡ default_validator
validator_of-other action h =
    let n1 : (action == "start_recording") ≡ false = ground arith in
    let n2 : (action == "deploy_sensor") ≡ false = ground arith in
    let n3 : (action == "send_email") ≡ false = ground arith in
    let n4 : (action == "modelbook_conflict") ≡ false = ground arith in
    let n5 : is_one_of action calendar_actions ≡ false = ground arith in
    rw (n1, n2, n3, n4, n5) refl

compose : {A B C : Type 0} → A ↔ B → B ↔ C → A ↔ C
compose f g = (λ a. g.0 (f.0 a), λ c. f.1 (g.1 c))

-- For every payload, the hub's validators accept exactly what the table `HasRequirements` says.
pub validation-HasRequirements : (payload : Fields) → HasRequirements payload
validation-HasRequirements payload = record {
  recording = compose (Passes-iff "start_recording" payload _ refl) (recording_nil _ payload);
  sensor = compose (Passes-iff "deploy_sensor" payload _ refl) (sensor_nil _ payload);
  email = compose (Passes-iff "send_email" payload _ refl) (email_nil _ payload);
  conflict = compose (Passes-iff "modelbook_conflict" payload _ refl) (conflict_nil _ payload);
  created = compose (Passes-iff "create_calendar_event" payload _ refl) (created_nil payload);
  updated = compose (Passes-iff "update_calendar_event" payload _ refl) (updated_nil payload);
  deleted = (Passes-iff "delete_calendar_event" payload _ refl).1 (deleted_nil payload);
  other = λ action h.
      compose
        (Passes-iff action payload (validate_default action payload)
          (ap (λ (v : Validator). v.validate action payload) (validator_of-other action h)))
        (default_nil action payload);
}
