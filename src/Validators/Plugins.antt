-- ===== src/Validators/Plugins.antt =====
-- plugins/validators/: the validators that the hub ships.
use nodus_hitl_hub.Base.{
  Bool, List, String, [], concat, false, if◌then◌else◌, is_full, is_one_of, join, not, true, ◌++◌,
  ◌==◌, ◌∷◌,
}
use nodus_hitl_hub.Json.{Fields, Value, contains, get, get_or, is_dict, is_str_in, obj, str, truthy}
use nodus_hitl_hub.Validators.Defs.{Validator}
use nodus_hitl_hub.World.Exec.{pure}

-- `if not passed: errors.append(error)`
abbrev pub unless : Bool → String → List String
unless passed message = if passed then [] else message ∷ []

-- calendar.py
abbrev pub calendar_actions : List String
calendar_actions = "create_calendar_event" ∷ "update_calendar_event" ∷ "delete_calendar_event" ∷ []

unfoldable pub validate_calendar : String → Fields → List String
validate_calendar action payload =
    (if is_one_of action ("create_calendar_event" ∷ "update_calendar_event" ∷ [])
      then unless (truthy (get "title" payload)) "title is required for calendar events"
      else [])
    ++ (if action == "create_calendar_event"
        then unless (truthy (get "start" payload))
            "start date is required for create_calendar_event"
        else [])

abbrev pub calendar_validator : Validator
calendar_validator = record {
  name = "CalendarValidator";
  is_fallback = false;
  accepts = λ action. is_one_of action calendar_actions;
  validate = λ action payload. pure (validate_calendar action payload);
}

-- default.py; the payload of a request is always a dict.
unfoldable pub validate_default : String → Fields → List String
validate_default action payload =
    unless (is_full action) "action_type is required"
    ++ unless (is_dict (obj payload)) "payload must be a JSON object"

abbrev pub default_validator : Validator
default_validator = record {
  name = "DefaultValidator";
  is_fallback = true;
  accepts = λ action. true;
  validate = λ action payload. pure (validate_default action payload);
}

-- email.py
unfoldable pub validate_email : String → Fields → List String
validate_email action payload =
    unless (truthy (get "to" payload)) "to (recipient) is required for send_email"
    ++ unless (truthy (get "subject" payload)) "subject is required for send_email"

abbrev pub email_validator : Validator
email_validator = record {
  name = "EmailValidator";
  is_fallback = false;
  accepts = λ action. action == "send_email";
  validate = λ action payload. pure (validate_email action payload);
}

-- modelbook_conflict.py
unfoldable pub validate_modelbook_conflict : String → Fields → List String
validate_modelbook_conflict action payload =
    unless (truthy (get "proposal_id" payload)) "proposal_id is required for modelbook_conflict"
    ++ unless (truthy (get "tenant_id" payload)) "tenant_id is required for modelbook_conflict"
    ++ unless (truthy (get "region_id" payload)) "region_id is required for modelbook_conflict"
    ++ unless (truthy (get "claim_key" payload)) "claim_key is required for modelbook_conflict"
    ++ unless (contains "proposed_value" payload)
        "proposed_value is required for modelbook_conflict"

abbrev pub modelbook_conflict_validator : Validator
modelbook_conflict_validator = record {
  name = "ModelBookConflictValidator";
  is_fallback = false;
  accepts = λ action. action == "modelbook_conflict";
  validate = λ action payload. pure (validate_modelbook_conflict action payload);
}

-- recording.py
abbrev pub recording_types : List String
recording_types = "audio" ∷ "video" ∷ "screen" ∷ []

unfoldable pub validate_recording : String → Fields → List String
validate_recording action payload =
    unless (truthy (get "recording_id" payload)) "recording_id is required for start_recording"
    ++ unless (truthy (get "recorder_url" payload)) "recorder_url is required for start_recording"
    ++ unless (truthy (get "recording_type" payload))
        "recording_type is required (audio, video, or screen)"
    ++ unless (is_str_in (get_or "recording_type" (str "") payload) recording_types)
        "recording_type must be 'audio', 'video', or 'screen'"

abbrev pub recording_validator : Validator
recording_validator = record {
  name = "RecordingValidator";
  is_fallback = false;
  accepts = λ action. action == "start_recording";
  validate = λ action payload. pure (validate_recording action payload);
}

-- sensor_deploy.py
abbrev pub valid_sensors : List String
valid_sensors = "gmail" ∷ "calendar" ∷ "drive" ∷ "twenty" ∷ []

unfoldable pub sensor_errors : Value → List String
sensor_errors sensor =
    if not (truthy sensor)
    then "sensor name is required for deploy_sensor" ∷ []
    else unless (is_str_in sensor valid_sensors)
        (concat ("sensor must be one of: " ∷ join ", " valid_sensors ∷ []))

unfoldable pub validate_sensor_deploy : String → Fields → List String
unfolding sensor_errors
validate_sensor_deploy action payload =
    sensor_errors (get_or "sensor" (str "") payload)
    ++ unless (truthy (get "target_system" payload)) "target_system is required for deploy_sensor"

abbrev pub sensor_deploy_validator : Validator
sensor_deploy_validator = record {
  name = "SensorDeployValidator";
  is_fallback = false;
  accepts = λ action. action == "deploy_sensor";
  validate = λ action payload. pure (validate_sensor_deploy action payload);
}

-- What `_discover` registers: the modules of the package in the order of their names, `base` left
-- out, one validator in each.
abbrev pub discovered : List Validator
discovered =
    calendar_validator ∷ default_validator ∷ email_validator ∷ modelbook_conflict_validator
    ∷ recording_validator ∷ sensor_deploy_validator ∷ []
