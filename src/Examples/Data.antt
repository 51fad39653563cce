-- ===== src/Examples/Data.antt =====
-- A host, plugins that raise, a database and requests for the runs.
use nodus_hitl_hub.Base.{Option, String, [], concat, false, none, refl, some, true, ◌∷◌}
use nodus_hitl_hub.Base.Int.{int_ltb, pos}
use nodus_hitl_hub.Bridge.{Client}
use nodus_hitl_hub.Engine.Defs.{HitlEngine}
use nodus_hitl_hub.Host.{Host}
use nodus_hitl_hub.Json.{Fields, Items, Value, arr, end, field, nil, null, obj, str}
use nodus_hitl_hub.Json.Print.{decimal, dumps}
use nodus_hitl_hub.Lifecycle.Defs.{Hook, NotificationPlugin}
use nodus_hitl_hub.Models.Event.{HitlEvent}
use nodus_hitl_hub.Models.Hitl.{HitlRequest, pending}
use nodus_hitl_hub.Repository.Rows.{row_of_event}
use nodus_hitl_hub.Validators.Plugins.{discovered}
use nodus_hitl_hub.World.{HitlRow, World, audit_line, cache_delete, inbox_item}
use nodus_hitl_hub.World.Exec.{
  Result, err, external, ok, overflow_error, pure, raise, runtime_error, send, type_error,
  value_error, ◌>>◌,
}

-- pydantic's checks in strict form: only the type of the field passes.
abbrev strict_str : Value → Result (Option String)
strict_str null = ok none
strict_str (str s) = ok (some s)
strict_str _ = err value_error

abbrev strict_dict : Value → Result Fields
strict_dict (obj d) = ok d
strict_dict _ = err value_error

abbrev strict_list : Value → Result Items
strict_list (arr xs) = ok xs
strict_list _ = err value_error

abbrev strict_param : Value → Result String
strict_param (str s) = ok s
strict_param _ = err type_error

abbrev shown : Value → String
shown (str s) = s
shown v = dumps true v

abbrev pub strict_host : Host
strict_host = record {
  uuid_hex = λ n. concat ("5f2c" ∷ decimal (pos n) ∷ "a0b1c2d3e4f5" ∷ []);
  optional_str = strict_str;
  dict_field = strict_dict;
  list_field = strict_list;
  py_str = shown;
  float_int = λ f. err overflow_error;
  text_param = strict_param;
  optional_str-null = refl;
  optional_str-str = λ s. refl;
  dict_field-obj = λ d. refl;
  list_field-arr = λ xs. refl;
  text_param-str = λ s. refl;
  py_str-str = λ s. refl;
}

abbrev pub failing_hook : Hook
failing_hook = record {
  name = "failing";
  on_created = λ e. raise runtime_error;
  on_approved = λ e. send (audit_line e.event_id) >> raise external;
  on_rejected = λ e. raise runtime_error;
  on_expired = λ e. raise runtime_error;
}

abbrev pub failing_plugin : NotificationPlugin
failing_plugin = record {
  name = "failing";
  notify = λ e. send (cache_delete e.user_id) >> raise external;
}

abbrev pub hub_relay : Client
hub_relay = record {
  send_event = λ item. send (inbox_item item) >> pure "note1";
  disconnect = raise external;
}

abbrev pub mail_engine : HitlEngine
mail_engine = record {
  validators = discovered;
  hooks = failing_hook ∷ [];
  plugins = failing_plugin ∷ [];
  bridge = some (record {
    relay_url = "wss://relay";
    nsec = "nsec1";
    client = some hub_relay;
    pubkey_hex = some "npubhub";
    listening = true;
  });
}

abbrev pub mail_payload : Fields
mail_payload = field "to" (str "ana@example.org") (field "subject" (str "Hola") end)

abbrev pub mail_request : HitlRequest
mail_request = record {
  action_type = "send_email";
  action_description = "Send a mail";
  action_details = mail_payload;
  user_id = "7";
  tenant_id = "acme";
  timeout_seconds = pos 300;
  metadata = field "idempotency_key" (str "key-1") end;
}

abbrev pub mail_event : HitlEvent
mail_event = record {
  event_id = "hitl_1";
  kind = 10020;
  pubkey = "hitl-hub";
  session_id = none;
  reference_id = none;
  dw_pubkey = none;
  owner_pubkey = some "npub7";
  user_id = "7";
  content = none;
  hint = some "Send a mail";
  action = some "send_email";
  payload = mail_payload;
  tags = nil;
  status = pending;
  created_at = 1000000;
  resolved_at = none;
  expires_at = some 2000000;
  sig = none;
  verified = false;
  relay_url = none;
  tenant_id = some "acme";
  idempotency_key = some "key-1";
}

abbrev pub empty_hub : World
empty_hub = record {
  now = 1500000;
  hitl = [];
  id_fits = λ n. int_ltb n (pos 2147483648);
  users = record { id = pos 7; nostr_pubkey = some "npub7" } ∷ [];
  notification_log = [];
  preferences = [];
  serial = 0;
  sent = [];
}

abbrev pub mail_row : HitlRow
mail_row = row_of_event mail_event

abbrev pub mail_hub : World
mail_hub = record empty_hub { hitl = mail_row ∷ [] }

-- The same with a status that the enum lacks.
abbrev pub active_row : HitlRow
active_row = record (row_of_event mail_event) { status = "active" }

abbrev pub active_hub : World
active_hub = record empty_hub { hitl = active_row ∷ [] }
