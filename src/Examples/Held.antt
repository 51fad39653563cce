-- ===== src/Examples/Held.antt =====
-- A resolution over HTTP, and what comes after it.
use nodus_hitl_hub.Base.{false, refl, some, ◌≡◌}
use nodus_hitl_hub.Engine.Defs.{approve, finish_approve, reject, resolvable}
use nodus_hitl_hub.Engine.Final.{expires_stale, rejects, stay, step}
use nodus_hitl_hub.Examples.Data.{mail_engine, mail_hub, strict_host}
use nodus_hitl_hub.Examples.Resolved.{mail_engine-IsQuiet}
use nodus_hitl_hub.Examples.Served.{trusting, yes_body, yes_request}
use nodus_hitl_hub.Json.{Value, bool, end, field, obj, str}
use nodus_hitl_hub.Json.Cast.{castable}
use nodus_hitl_hub.Json.Print.{dumps}
use nodus_hitl_hub.Lifecycle.Defs.{on_approved}
use nodus_hitl_hub.Mcp.Lasting.{Holds, resolve_request-Holds}
use nodus_hitl_hub.Mcp.Rest.{
  JsonResponse, WebRequest, resolve_request, resolve_route, resolve_with, respond_json, serve,
  unauthorized,
}
use nodus_hitl_hub.Mcp.Shapes.{IsShaped, codes_of, serve-IsShaped}
use nodus_hitl_hub.Models.Hitl.{approved, respond}
use nodus_hitl_hub.Repository.{expire_stale, get_event, optional_event, update_status}
use nodus_hitl_hub.Repository.Rows.{row_of_event, row_to_event}
use nodus_hitl_hub.World.{World}
use nodus_hitl_hub.World.Exec.{ok}

abbrev approved_answer : JsonResponse
approved_answer = respond_json strict_host trusting 200 (respond (some "hitl_1") approved)

abbrev no_body : Value
no_body = obj (field "approved" (bool false) (field "reason" (str "no") end))

abbrev no_request : WebRequest
no_request = record yes_request { body = some no_body }

abbrev settled_hub : World
settled_hub = (resolve_request strict_host trusting yes_request mail_hub).1

yes_request_answered :
    (resolve_request strict_host trusting yes_request mail_hub).0 ≡ ok approved_answer
unfolding castable resolve_request unauthorized resolve_with approve resolvable finish_approve
    get_event optional_event row_to_event row_of_event dumps respond_json update_status on_approved
yes_request_answered = refl

serve-IsShaped_example : IsShaped (codes_of resolve_route) approved_answer
unfolding serve
serve-IsShaped_example =
    serve-IsShaped strict_host trusting mail_hub approved_answer resolve_route yes_request
      yes_request_answered

approved_answer_code : approved_answer.status_code ≡ 200
unfolding respond_json
approved_answer_code = refl

-- A rejection comes too late, and the expiry finds nothing.
abbrev late_hub : World
late_hub = (expire_stale (reject strict_host mail_engine "hitl_1" (str "no") settled_hub).1).1

resolve_request-Holds_example :
    Holds strict_host trusting "hitl_1" yes_body yes_request no_request late_hub
unfolding unauthorized
resolve_request-Holds_example =
    resolve_request-Holds strict_host trusting mail_engine mail_engine-IsQuiet (λ w. refl) "hitl_1"
      yes_request yes_request no_request yes_body no_body mail_hub late_hub approved_answer refl
      refl refl refl refl refl refl refl yes_request_answered approved_answer_code
      (step (rejects "hitl_1" (str "no")) (step expires_stale stay))
