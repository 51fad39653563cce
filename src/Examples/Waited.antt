-- ===== src/Examples/Waited.antt =====
-- A wait, while the user decides.
use nodus_hitl_hub.Base.{arith, refl, some, ◌+◌, ◌≡◌}
use nodus_hitl_hub.Base.Int.{pos}
use nodus_hitl_hub.Engine.Answered.{wait-answers}
use nodus_hitl_hub.Engine.Defs.{approve, finish_approve, resolvable}
use nodus_hitl_hub.Engine.Final.{Steps, approves, leaves, stay, step}
use nodus_hitl_hub.Engine.Resolve.{approved_payload}
use nodus_hitl_hub.Engine.Wait.{decision, wait}
use nodus_hitl_hub.Examples.Data.{mail_engine, mail_event, mail_hub, mail_payload, strict_host}
use nodus_hitl_hub.Examples.Resolved.{mail_engine-IsQuiet}
use nodus_hitl_hub.Json.{str}
use nodus_hitl_hub.Json.Cast.{castable}
use nodus_hitl_hub.Json.Print.{dumps}
use nodus_hitl_hub.Lifecycle.Defs.{on_approved}
use nodus_hitl_hub.Models.Event.{HitlEvent, add_seconds}
use nodus_hitl_hub.Models.Hitl.{approved}
use nodus_hitl_hub.Repository.{get_event, optional_event, update_status}
use nodus_hitl_hub.Repository.Rows.{row_of_event, row_to_event}
use nodus_hitl_hub.Repository.Updates.{stored}
use nodus_hitl_hub.World.{World}
use nodus_hitl_hub.World.Exec.{ok}

-- The user approves during the sleep.
abbrev busy_doze : World → World
busy_doze w = record (approve strict_host mail_engine "hitl_1" (str "go") w).1 {
  now = w.now + 2000000;
}

abbrev approved_event : HitlEvent
approved_event = record (stored mail_event) {
  status = approved;
  payload = approved_payload (str "go") mail_payload;
  resolved_at = some mail_hub.now;
}

busy_doze-Steps : (w : World) → Steps strict_host mail_engine w (busy_doze w)
busy_doze-Steps w = step (approves "hitl_1" (str "go")) (step (leaves refl) stay)

approved_event_read :
    (get_event strict_host "hitl_1" (busy_doze mail_hub)).0 ≡ ok (some approved_event)
unfolding castable approve resolvable finish_approve get_event optional_event row_to_event
    row_of_event dumps update_status on_approved
approved_event_read = refl

mail_event_read : (get_event strict_host "hitl_1" mail_hub).0 ≡ ok (some (stored mail_event))
unfolding get_event optional_event row_to_event row_of_event dumps
mail_event_read = refl

wait-answers_example :
    (wait strict_host busy_doze "hitl_1" (pos 3) 2 mail_hub).0
    ≡ ok (some (decision "hitl_1" approved_event))
unfolding add_seconds
wait-answers_example =
    wait-answers strict_host mail_engine mail_engine-IsQuiet busy_doze (λ w. ground arith)
      busy_doze-Steps "hitl_1" (pos 3) 1 1 4500000 mail_hub (stored mail_event) approved_event
      mail_event_read approved_event_read refl refl (ground arith) (ground arith)
