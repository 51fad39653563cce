-- ===== src/Examples/Served.antt =====
-- Requests over HTTP and calls of the tools.
use nodus_hitl_hub.Base.{[], false, none, refl, some, true, ◌↔◌, ◌≡◌}
use nodus_hitl_hub.Base.Int.{pos}
use nodus_hitl_hub.Base.Number.{parse_int}
use nodus_hitl_hub.Examples.Data.{
  empty_hub, mail_engine, mail_hub, mail_payload, mail_request, strict_host,
}
use nodus_hitl_hub.Examples.Resolved.{mail_engine-HasTameHooks}
use nodus_hitl_hub.Examples.Run.{mail_engine-IsTame}
use nodus_hitl_hub.Json.{Value, bool, end, field, float, int, obj, str}
use nodus_hitl_hub.Json.Print.{dumps}
use nodus_hitl_hub.Mcp.Agreement.{
  Arguments, body_of, call, create_request-hitl_request_confirmation, seen_of, tool_seen,
  with_defaults,
}
use nodus_hitl_hub.Mcp.Creations.{Posted, create_request-Posted}
use nodus_hitl_hub.Mcp.Decisions.{Resolved, decision_of, resolve_request-Resolved}
use nodus_hitl_hub.Mcp.Guard.{Is401, IsRefused, serve-Is401}
use nodus_hitl_hub.Mcp.Rest.{
  Service, WebRequest, body_request, create_from, create_request, error_response, resolve_request,
  resolve_route, serve, unauthorized,
}
use nodus_hitl_hub.Mcp.Tools.{Factories}
use nodus_hitl_hub.Models.Hitl.{rejected}
use nodus_hitl_hub.Models.Time.{isoformat}
use nodus_hitl_hub.World.Exec.{err, key_error, ok, overflow_error, pure}

abbrev pub mail_service : Service
mail_service = record {
  service_token = "s3cret";
  get_engine = pure mail_engine;
  json_time = isoformat;
  exc_text = λ e. "wrong";
}

abbrev no_header : WebRequest
no_header = record { authorization = ""; path_id = "hitl_1"; body = none }

serve-Is401_example :
    (Is401 (serve strict_host mail_service resolve_route no_header mail_hub).0
      ↔ IsRefused mail_service no_header)
    × (IsRefused mail_service no_header
        → serve strict_host mail_service resolve_route no_header mail_hub
          ≡ (ok (error_response 401 "unauthorized"), mail_hub))
serve-Is401_example = serve-Is401 strict_host mail_service resolve_route no_header mail_hub refl

-- Without a token, everybody is let in.
abbrev pub trusting : Service
trusting = record mail_service { service_token = "" }

abbrev pub yes_body : Value
yes_body = obj (field "approved" (bool true) (field "response" (str "go") end))

abbrev pub yes_request : WebRequest
yes_request = record { authorization = ""; path_id = "hitl_1"; body = some yes_body }

resolve_request-Resolved_example :
    Resolved strict_host "hitl_1" yes_body mail_hub
      (resolve_request strict_host trusting yes_request mail_hub)
unfolding unauthorized
resolve_request-Resolved_example =
    resolve_request-Resolved strict_host trusting mail_engine mail_engine-HasTameHooks "hitl_1"
      mail_hub yes_request yes_body mail_hub refl refl refl refl

-- A text is not JSON's `true`.
said_in_words : decision_of (field "approved" (str "true") end) ≡ rejected
unfolding decision_of
said_in_words = refl

abbrev mail_body : Value
mail_body = obj (
    field "action_type" (str "send_email") (
      field "action_description" (str "Send a mail") (
        field "action_details" (obj mail_payload)
          (field "user_id" (int (pos 7)) (field "timeout_seconds" (str "60") end)))))

abbrev mail_post : WebRequest
mail_post = record { authorization = ""; path_id = ""; body = some mail_body }

create_request-Posted_example :
    Posted strict_host trusting mail_engine mail_body empty_hub
      (create_request strict_host trusting mail_post empty_hub)
unfolding unauthorized
create_request-Posted_example =
    create_request-Posted strict_host trusting mail_engine mail_engine-IsTame mail_post mail_body
      empty_hub (λ u. refl) refl refl

-- The numbers and the text of the body are read.
mail_body_reads :
    (body_request strict_host mail_body empty_hub).0
    ≡ ok (record mail_request { tenant_id = "default"; timeout_seconds = pos 60; metadata = end })
unfolding body_request parse_int dumps
mail_body_reads = refl

-- A request without its type is a `KeyError`, and infinity as a timeout an `OverflowError`, which the
-- handler does not catch.
untyped : (body_request strict_host (obj end) empty_hub).0 ≡ err key_error
unfolding body_request
untyped = refl

infinite_timeout :
    (create_from strict_host trusting mail_engine
      (obj (
        field "action_type" (str "send_email") (
          field "action_description"
            (str "Send a mail")
            (field "user_id" (str "7") (field "timeout_seconds" (float false "Infinity") end)))))
      empty_hub).0
    ≡ err overflow_error
unfolding create_from body_request
infinite_timeout = refl

-- A call with the tenant and the timeout that the route replaces.
abbrev bare_arguments : Arguments
bare_arguments = record {
  action_type = "send_email";
  action_description = "Send a mail";
  user_id = "7";
  action_details = some mail_payload;
  tenant_id = "";
  timeout_seconds = pos 0;
  metadata = none;
}

abbrev hub_factories : Factories
hub_factories = record {
  hitl_engine_factory = pure mail_engine;
  notify_engine_factory = pure [];
  json_time = isoformat;
}

abbrev bare_post : WebRequest
bare_post = record mail_post { body = some (body_of bare_arguments) }

create_request-hitl_request_confirmation_example :
    seen_of (create_request strict_host trusting bare_post empty_hub)
    ≡ tool_seen (call strict_host hub_factories (with_defaults bare_arguments) empty_hub)
unfolding unauthorized
create_request-hitl_request_confirmation_example =
    create_request-hitl_request_confirmation strict_host trusting hub_factories refl refl
      bare_arguments bare_post empty_hub refl refl
