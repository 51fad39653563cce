-- ===== src/Examples/Notified.antt =====
-- The notification engine with an adapter that raises.
use nodus_hitl_hub.Base.{
  List, Option, String, [], arith, false, if◌then◌else◌, none, refl, some, true, ℕ, ◌%◌, ◌+◌, ◌-◌,
  ◌==◌, ◌↔◌, ◌∷◌, ◌≡◌, ◌≢◌, ◌≤◌,
}
use nodus_hitl_hub.Base.Int.{pos}
use nodus_hitl_hub.Channels.Defs.{Post}
use nodus_hitl_hub.Channels.Delivery.{AllDeliver, adapters-AllDeliver}
use nodus_hitl_hub.Examples.Data.{empty_hub}
use nodus_hitl_hub.Json.{end, field, null, str}
use nodus_hitl_hub.Models.Notify.{NotifyRequest, urgent}
use nodus_hitl_hub.Notify.Acks.{mark_acked-once}
use nodus_hitl_hub.Notify.Admission.{IsAdmitted, is_prepared, prepare_iff}
use nodus_hitl_hub.Notify.Channels.{ChannelAdapter}
use nodus_hitl_hub.Notify.Defs.{log_of, no_tally, outside_quiet, prepare}
use nodus_hitl_hub.Notify.Quiet.{outside_quiet_iff}
use nodus_hitl_hub.Notify.Sending.{AdaptersKeep}
use nodus_hitl_hub.Notify.Store.{mark_acked, row_to_pref}
use nodus_hitl_hub.World.{PrefRow, World, cache_delete, http_post}
use nodus_hitl_hub.World.Exec.{external, ok, pure, raise, send, ◌>>◌}

abbrev failing_adapter : ChannelAdapter
failing_adapter = record {
  name = "webpush";
  send = λ r. send (cache_delete r.user_id) >> raise external;
}

abbrev mail_adapter : ChannelAdapter
mail_adapter = record { name = "email"; send = λ r. pure true }

abbrev pub adapters_two : List ChannelAdapter
adapters_two = failing_adapter ∷ mail_adapter ∷ []

abbrev adapters_two-Keep : AdaptersKeep adapters_two
adapters_two-Keep = (λ r w. refl, (λ r w. refl, tt))

abbrev pub alert : NotifyRequest
alert = record {
  user_id = "7";
  title = "Frost";
  body = "Tonight";
  priority = urgent;
  url = none;
  tenant_id = "acme";
  channels = some ("email" ∷ "webpush" ∷ "inapp" ∷ []);
  metadata = end;
}

abbrev mail_pref : PrefRow
mail_pref = record {
  user_id = "7";
  tenant_id = some "acme";
  channel = "email";
  enabled = some true;
  address = some "ana@example.org";
  min_priority = none;
  quiet_hours_start = some (pos 22);
  quiet_hours_end = some (pos 6);
}

abbrev alert_hub : World
alert_hub = record empty_hub { now = 36000000000; preferences = mail_pref ∷ [] }

abbrev pub logged_hub : World
logged_hub = record empty_hub { notification_log = log_of "notify_1" alert no_tally ∷ [] }

prepare_iff_example :
    (is_prepared (prepare (some (row_to_pref mail_pref)) "email" 23 alert) ≡ true)
    ↔ IsAdmitted (some (row_to_pref mail_pref)) "email" urgent 23
prepare_iff_example = prepare_iff (some (row_to_pref mail_pref)) "email" 23 alert

abbrev ten_pm : ℕ
ten_pm = 22

outside_quiet_iff_example :
    (outside_quiet (pos 22) (pos 6) 23 ≡ true)
    ↔ ((ten_pm ≢ 6) × ((6 + 24 - 22) % 24 ≤ (23 + 24 - 22) % 24))
outside_quiet_iff_example = outside_quiet_iff 22 6 23 (ground arith) (ground arith) (ground arith)

mark_acked-once_example :
    ((mark_acked "notify_1" logged_hub).0 ≡ ok true)
    × (mark_acked "notify_1" (record (mark_acked "notify_1" logged_hub).1 { now = 9000000 })
        ≡ (ok false, record (mark_acked "notify_1" logged_hub).1 { now = 9000000 }))
mark_acked-once_example = mark_acked-once "notify_1" 9000000 logged_hub (ground arith)

-- A service that takes every post.
abbrev service : Post
service url headers body =
    send (http_post url headers body) >> pure (record { status_code = 200; json = ok null })

abbrev addressed_alert : NotifyRequest
addressed_alert = record alert { metadata = field "address" (str "ana@example.org") end }

-- The backoffice has a token, and web push has none.
abbrev one_token : String → Option String
one_token key = if key == "BACKOFFICE_SERVICE_TOKEN" then some "s3cret" else none

adapters-AllDeliver_example : AllDeliver service one_token addressed_alert alert_hub
adapters-AllDeliver_example = adapters-AllDeliver service one_token addressed_alert alert_hub
