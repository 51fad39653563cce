-- ===== src/Server.antt =====
-- server.py: the app with its tools, its resource and its routes, and where it is served.
pub mod Routes
pub mod Tools
pub mod Finality
use nodus_hitl_hub.Base.{List, Option, String, ℕ}
use nodus_hitl_hub.Base.Int.{ℤ}
use nodus_hitl_hub.Base.Number.{parse_int}
use nodus_hitl_hub.Channels.Defs.{getenv_or}
use nodus_hitl_hub.Host.{Host}
use nodus_hitl_hub.Json.{Fields}
use nodus_hitl_hub.Mcp.Rest.{JsonResponse, Route, Service, WebRequest, or_error, serve}
use nodus_hitl_hub.Mcp.Tools.{
  Factories, hitl_check_status, hitl_inbox, hitl_request_confirmation, hitl_wait_for_confirmation,
  notify_ack, notify_history, notify_send,
}
use nodus_hitl_hub.World.{World}
use nodus_hitl_hub.World.Exec.{Exec, Result, and_then, ok, pure, value_error, ◌>>=◌}

-- What comes to the app: a request over HTTP, the call of a tool with the arguments of its signature, or
-- the read of the resource. The sleep of the tool that waits, and its fuel, are those of `wait`.
pub data Entry : Type 0 where
  http_route : Route → WebRequest → Entry
  request_tool : String → String → String → Option Fields → String → ℤ → Option Fields → Entry
  wait_tool : (World → World) → ℕ → String → ℤ → Entry
  check_tool : String → Entry
  send_tool :
      String → String → String → String → Option String → Option (List String) → String → Entry
  ack_tool : String → Entry
  history_tool : String → ℤ → Entry
  inbox_resource : String → Entry

-- What goes back.
pub data Reply : Type 0 where
  web_reply : JsonResponse → Reply
  dict_reply : Fields → Reply
  wait_reply : Option Fields → Reply
  list_reply : List Fields → Reply
  text_reply : String → Reply

-- `create_app`: each entry is served by what is registered for it.
unfoldable pub serve_app : Host → Service → Factories → Entry → Exec Reply
serve_app host service factories (http_route route req) = do
  answer ← serve host service route req
  pure (web_reply answer)
serve_app host service factories
      (request_tool action description user details tenant seconds metadata) =
    do
      answer ←
          hitl_request_confirmation host factories action description user details tenant seconds
            metadata
      pure (dict_reply answer)
serve_app host service factories (wait_tool sleep fuel id seconds) = do
  answer ← hitl_wait_for_confirmation host factories sleep fuel id seconds
  pure (wait_reply answer)
serve_app host service factories (check_tool id) = do
  answer ← hitl_check_status host factories id
  pure (dict_reply answer)
serve_app host service factories (send_tool user title body priority url channels tenant) = do
  answer ← notify_send host factories user title body priority url channels tenant
  pure (dict_reply answer)
serve_app host service factories (ack_tool id) = do
  answer ← notify_ack host factories id
  pure (dict_reply answer)
serve_app host service factories (history_tool user limit) = do
  answer ← notify_history host factories user limit
  pure (list_reply answer)
serve_app host service factories (inbox_resource user) = do
  answer ← hitl_inbox host factories user
  pure (text_reply answer)

-- The address at which `main` serves the app: `int` of PORT may raise.
unfoldable pub main_address : (String → Option String) → Result (String × ℤ)
unfolding parse_int
main_address getenv =
    and_then (or_error (parse_int (getenv_or getenv "PORT" "3000")) value_error)
      (λ port. ok (getenv_or getenv "HOST" "0.0.0.0", port))
