-- ===== src/Server/Tools.antt =====
-- What the entries of the app do to the requests, as steps of the engine.
use nodus_hitl_hub.Base.{List, Option, String, ℕ}
use nodus_hitl_hub.Base.Int.{ℤ}
use nodus_hitl_hub.Engine.Defs.{HitlEngine, check, get_inbox, request}
use nodus_hitl_hub.Engine.Final.{Steps, requests, stay, step}
use nodus_hitl_hub.Engine.Steps.{bind-Steps, leaving, pure-Steps}
use nodus_hitl_hub.Engine.Wait.{wait}
use nodus_hitl_hub.Host.{Host}
use nodus_hitl_hub.Json.{Fields}
use nodus_hitl_hub.Mcp.Rest.{Service, serve}
use nodus_hitl_hub.Mcp.Tools.{
  Factories, hitl_check_status, hitl_inbox, hitl_request_confirmation, hitl_wait_for_confirmation,
  notify_ack, notify_history, notify_send, priority_of,
}
use nodus_hitl_hub.Notify.Channels.{ChannelAdapter}
use nodus_hitl_hub.Notify.Defs.{ack, send_notification}
use nodus_hitl_hub.Notify.Untouched.{ack-Keeps, history-Keeps, send_notification-Keeps}
use nodus_hitl_hub.Repository.{list_pending}
use nodus_hitl_hub.Server.{
  Entry, ack_tool, check_tool, dict_reply, history_tool, http_route, inbox_resource, list_reply,
  request_tool, send_tool, serve_app, text_reply, wait_reply, wait_tool, web_reply,
}
use nodus_hitl_hub.Server.Routes.{IsServing, check-Steps, serve-Steps, wait-Steps}
use nodus_hitl_hub.World.{World}
use nodus_hitl_hub.World.Exec.{lift}

-- While the tool that waits sleeps, the other tasks change the requests by the engine alone.
abbrev pub SleepSteps : Host → HitlEngine → Entry → Type 0
SleepSteps host engine (wait_tool sleep fuel id seconds) =
    (w : World) → Steps host engine w (sleep w)
SleepSteps host engine _ = Unit

module _ (host : Host) (service : Service) (factories : Factories) (engine : HitlEngine)
    (adapters : List ChannelAdapter) (ready : IsServing service factories engine adapters) where
  request_tool-Steps :
      (action description user : String) (details : Option Fields) (tenant : String) (seconds : ℤ)
      (metadata : Option Fields) (w : World)
      → Steps host engine w
          (hitl_request_confirmation host factories action description user details tenant seconds
            metadata w).1
  unfolding hitl_request_confirmation
  request_tool-Steps action description user details tenant seconds metadata w =
      rw (ready.to_tools w)
        (pure-Steps host engine (request host engine _) _ w (step (requests _) stay))

  wait_tool-Steps :
      (sleep : World → World) (fuel : ℕ) (id : String) (seconds : ℤ) (w : World)
      → ((u : World) → Steps host engine u (sleep u))
      → Steps host engine w (hitl_wait_for_confirmation host factories sleep fuel id seconds w).1
  unfolding hitl_wait_for_confirmation
  wait_tool-Steps sleep fuel id seconds w others = rw (ready.to_tools w) (
      pure-Steps host engine (wait host sleep id seconds fuel) _ w
        (wait-Steps host engine sleep others id seconds fuel w))

  check_tool-Steps :
      (id : String) (w : World) → Steps host engine w (hitl_check_status host factories id w).1
  unfolding hitl_check_status
  check_tool-Steps id w =
      rw (ready.to_tools w)
        (pure-Steps host engine (check host id) _ w (check-Steps host engine id w))

  send_tool-Steps :
      (user title body priority : String) (url : Option String) (channels : Option (List String))
      (tenant : String) (w : World)
      → Steps host engine w
          (notify_send host factories user title body priority url channels tenant w).1
  unfolding notify_send
  send_tool-Steps user title body priority url channels tenant w = rw (ready.to_notices w) (
      bind-Steps host engine (lift (priority_of priority)) _ w stay (λ level known.
        pure-Steps host engine (send_notification host adapters _) _ w
          (leaving host engine (send_notification-Keeps host adapters _ ready.leave_requests w))))

  ack_tool-Steps :
      (id : String) (w : World) → Steps host engine w (notify_ack host factories id w).1
  unfolding notify_ack
  ack_tool-Steps id w =
      rw (ready.to_notices w)
        (pure-Steps host engine (ack id) _ w (leaving host engine (ack-Keeps id w)))

  history_tool-Steps :
      (user : String) (limit : ℤ) (w : World)
      → Steps host engine w (notify_history host factories user limit w).1
  unfolding notify_history
  history_tool-Steps user limit w =
      rw (ready.to_notices w) (leaving host engine (history-Keeps user limit w))

  inbox-Steps :
      (user : String) (w : World) → Steps host engine w (hitl_inbox host factories user w).1
  unfolding hitl_inbox get_inbox list_pending
  inbox-Steps user w = rw (ready.to_tools w) (pure-Steps host engine (get_inbox host user) _ w stay)

  -- Each entry does to the requests what calls of the engine do, one after the other.
  pub serve_app-Steps :
      (entry : Entry) (w : World)
      → SleepSteps host engine entry
      → Steps host engine w (serve_app host service factories entry w).1
  unfolding serve_app
  serve_app-Steps (http_route route req) w k =
      pure-Steps host engine (serve host service route req) web_reply w
        (serve-Steps host service engine ready.to_routes route req w)
  serve_app-Steps (request_tool action description user details tenant seconds metadata) w k =
      pure-Steps host engine
        (hitl_request_confirmation host factories action description user details tenant seconds
          metadata)
        dict_reply w (request_tool-Steps action description user details tenant seconds metadata w)
  serve_app-Steps (wait_tool sleep fuel id seconds) w k =
      pure-Steps host engine (hitl_wait_for_confirmation host factories sleep fuel id seconds)
        wait_reply w (wait_tool-Steps sleep fuel id seconds w k)
  serve_app-Steps (check_tool id) w k =
      pure-Steps host engine (hitl_check_status host factories id) dict_reply w
        (check_tool-Steps id w)
  serve_app-Steps (send_tool user title body priority url channels tenant) w k =
      pure-Steps host engine
        (notify_send host factories user title body priority url channels tenant) dict_reply w
        (send_tool-Steps user title body priority url channels tenant w)
  serve_app-Steps (ack_tool id) w k =
      pure-Steps host engine (notify_ack host factories id) dict_reply w (ack_tool-Steps id w)
  serve_app-Steps (history_tool user limit) w k =
      pure-Steps host engine (notify_history host factories user limit) list_reply w
        (history_tool-Steps user limit w)
  serve_app-Steps (inbox_resource user) w k =
      pure-Steps host engine (hitl_inbox host factories user) text_reply w (inbox-Steps user w)
