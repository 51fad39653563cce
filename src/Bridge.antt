-- ===== src/Bridge.antt =====
-- core/nostr_bridge.py: what the hub publishes to the relay. The resolutions that come back are in
-- `Engine/Resolution`.
pub mod Content
pub mod Session
use nodus_hitl_hub.Base.{
  Bool, List, Option, String, [], concat, false, is_full, none, or_text, some, ◌&&◌, ◌∷◌,
}
use nodus_hitl_hub.Host.{Host}
use nodus_hitl_hub.Json.{Fields, end, field, get, obj, opt_str, or_value, set_default, str}
use nodus_hitl_hub.Json.Print.{dumps}
use nodus_hitl_hub.Models.Event.{HitlEvent}
use nodus_hitl_hub.World.{InboxItem}
use nodus_hitl_hub.World.Exec.{Done, Exec, pure, ◌>>=◌}

-- A connected client of nostr-sdk: it signs an item with a fresh key and sends it, and returns the
-- id of the event, or raises.
pub record Client : Type 0 where
  pub send_event : InboxItem → Exec String
  pub disconnect : Exec Done

-- `NostrBridge`: the keys are known by their public key in hex, and the task of the listener by
-- whether it runs.
pub record NostrBridge : Type 0 where
  pub relay_url : String
  pub nsec : String
  pub client : Option Client
  pub pubkey_hex : Option String
  pub listening : Bool

-- `NostrBridge.enabled`
unfoldable pub enabled : NostrBridge → Bool
enabled bridge = is_full bridge.relay_url && is_full bridge.nsec

-- `for key, value in payload.items(): body.setdefault(key, value)`
abbrev pub fill_in : Fields → Fields → Fields
fill_in end body = body
fill_in (field key v payload) body = fill_in payload (set_default key v body)

module _ (host : Host) where
  -- `str(payload.get(key) or default)`
  abbrev pub text_or : String → String → Fields → String
  text_or key default payload = host.py_str (or_value (get key payload) (str default))

  -- The dict that `_inbox_content` prints.
  unfoldable pub inbox_body : HitlEvent → Fields
  inbox_body event = fill_in event.payload (
      field "intent" (str (text_or "intent" "permission" event.payload)) (
        field "delivery_page" (str (text_or "delivery_page" "system" event.payload)) (
          field "action" (opt_str event.action) (
            field "hint" (opt_str event.hint) (
              field "hub_id" (str event.event_id) (
                field "tenant_id" (opt_str event.tenant_id)
                  (field "user_id" (str event.user_id) end)))))))

  unfoldable pub inbox_content : HitlEvent → String
  unfolding inbox_body dumps
  inbox_content event = dumps false (obj (inbox_body event))

  unfoldable pub inbox_tags : HitlEvent → String → List (List String)
  inbox_tags event owner =
      ("p" ∷ owner ∷ [])
      ∷ ("session" ∷ or_text event.session_id (concat ("hitl-" ∷ event.event_id ∷ [])) ∷ [])
      ∷ ("action" ∷ or_text event.action "" ∷ [])
      ∷ ("hint" ∷ or_text event.hint "" ∷ [])
      ∷ ("hub" ∷ event.event_id ∷ [])
      ∷ []

  unfoldable pub publish_request : NostrBridge → HitlEvent → String → Exec (Option String)
  unfolding inbox_content inbox_tags
  publish_request bridge event owner = elim bridge.client [
    | none ↦ pure none
    | some client ↦ do
      id ←
          client.send_event
            (record { kind = 10020; content = inbox_content event; tags = inbox_tags event owner })
      pure (some id)
  ]
