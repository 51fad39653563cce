-- ===== src/Mcp/Tools.antt =====
-- mcp/tools.py and mcp/resources.py. The arguments of a tool have the types of its signature, which
-- the MCP server checks.
use mathlib.Core.Option
use nodus_hitl_hub.Base.{List, Option, String, [], if◌then◌else◌, map, true, ℕ, ◌==◌, ◌∷◌}
use nodus_hitl_hub.Base.Int.{ℤ}
use nodus_hitl_hub.Engine.Defs.{HitlEngine, check, get_inbox, request}
use nodus_hitl_hub.Engine.Wait.{wait}
use nodus_hitl_hub.Host.{Host}
use nodus_hitl_hub.Json.{Fields, Items, arr, bool, cons, end, field, nil, obj, or_empty, str}
use nodus_hitl_hub.Json.Print.{dumps}
use nodus_hitl_hub.Mcp.Dump.{dump_event, dump_response, dump_result}
use nodus_hitl_hub.Models.Hitl.{HitlRequest}
use nodus_hitl_hub.Models.Notify.{NotifyPriority, critical, info, normal, urgent}
use nodus_hitl_hub.Notify.Channels.{ChannelAdapter}
use nodus_hitl_hub.Notify.Defs.{ack, send_notification}
use nodus_hitl_hub.Notify.History.{history}
use nodus_hitl_hub.Notify.Sending.{notification_id}
use nodus_hitl_hub.World.{World}
use nodus_hitl_hub.World.Exec.{Exec, Result, err, lift, ok, pure, value_error, ◌>>=◌}

-- The factories of `register_tools`, and pydantic's text of a time. A `NotifyEngine` is its channels.
pub record Factories : Type 0 where
  pub hitl_engine_factory : Exec HitlEngine
  pub notify_engine_factory : Exec (List ChannelAdapter)
  pub json_time : ℕ → String

-- `NotifyPriority(text)`
unfoldable pub priority_of : String → Result NotifyPriority
priority_of text =
    if text == "info"
    then ok info
    else if text == "normal"
    then ok normal
    else if text == "urgent"
    then ok urgent
    else if text == "critical"
    then ok critical
    else err value_error

module _ (host : Host) (factories : Factories) where
  unfoldable pub hitl_request_confirmation :
      String → String → String → Option Fields → String → ℤ → Option Fields → Exec Fields
  unfolding dump_response
  hitl_request_confirmation action_type action_description user_id action_details tenant_id
        timeout_seconds metadata =
      do
        engine ← factories.hitl_engine_factory
        let req : HitlRequest = record {
          action_type = action_type;
          action_description = action_description;
          action_details = or_empty action_details;
          user_id = user_id;
          tenant_id = tenant_id;
          timeout_seconds = timeout_seconds;
          metadata = or_empty metadata;
        }
        result ← request host engine req
        pure (dump_response factories.json_time result)

  -- The sleep of the loop and its fuel are those of `wait`.
  unfoldable pub hitl_wait_for_confirmation :
      (World → World) → ℕ → String → ℤ → Exec (Option Fields)
  unfolding dump_response
  hitl_wait_for_confirmation sleep fuel confirmation_id max_wait_seconds = do
    engine ← factories.hitl_engine_factory
    result ← wait host sleep confirmation_id max_wait_seconds fuel
    pure (Option.map (dump_response factories.json_time) result)

  unfoldable pub hitl_check_status : String → Exec Fields
  unfolding dump_response
  hitl_check_status confirmation_id = do
    engine ← factories.hitl_engine_factory
    result ← check host confirmation_id
    pure (dump_response factories.json_time result)

  unfoldable pub notify_send :
      String
      → String
      → String
      → String
      → Option String
      → Option (List String)
      → String
      → Exec Fields
  unfolding dump_result priority_of
  notify_send user_id title body priority url channels tenant_id = do
    adapters ← factories.notify_engine_factory
    level ← lift (priority_of priority)
    result ← send_notification host adapters (record {
      user_id = user_id;
      title = title;
      body = body;
      priority = level;
      url = url;
      tenant_id = tenant_id;
      channels = channels;
      metadata = end;
    })
    pure (dump_result result)

  unfoldable pub notify_ack : String → Exec Fields
  notify_ack notification_id = do
    adapters ← factories.notify_engine_factory
    acked ← ack notification_id
    pure (field "notification_id" (str notification_id) (field "acked" (bool acked) end))

  unfoldable pub notify_history : String → ℤ → Exec (List Fields)
  notify_history user_id limit = do
    adapters ← factories.notify_engine_factory
    history user_id limit

  -- A list of dicts as a JSON list.
  abbrev pub dicts : List Fields → Items
  dicts [] = nil
  dicts (d ∷ ds) = cons (obj d) (dicts ds)

  -- The resource `hitl://inbox/{user_id}`
  unfoldable pub hitl_inbox : String → Exec String
  unfolding dump_event dumps
  hitl_inbox user_id = do
    engine ← factories.hitl_engine_factory
    events ← get_inbox host user_id
    pure (dumps true (arr (dicts (map (dump_event factories.json_time) events))))
