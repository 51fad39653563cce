-- ===== src/Engine/Defs.antt =====
-- core/engine.py: the operations of `HITLEngine`, without `wait`.
use nodus_hitl_hub.Base.{
  List, Option, String, [], concat, if◌then◌else◌, is_given, join, none, or_text, some, ◌&&◌, ◌∷◌,
}
use nodus_hitl_hub.Bridge.{NostrBridge, enabled, publish_request}
use nodus_hitl_hub.Host.{Host}
use nodus_hitl_hub.Json.{Value, end, field, get, obj, set, truthy}
use nodus_hitl_hub.Lifecycle.Defs.{
  Hook, NotificationPlugin, notify_all, on_approved, on_created, on_rejected,
}
use nodus_hitl_hub.Models.Event.{HitlEvent, from_request}
use nodus_hitl_hub.Models.Hitl.{
  HitlRequest, HitlResponse, approved, error, is_decided, is_pending, pending, rejected, respond,
  respond_error, status_text,
}
use nodus_hitl_hub.Repository.{
  get_by_idempotency_key, get_event, get_user_pubkey, insert, list_pending, set_reference,
  update_status,
}
use nodus_hitl_hub.Validators.Defs.{Validator, validation_errors}
use nodus_hitl_hub.World.Exec.{Exec, pure, recover, ◌>>=◌, ◌>>◌}

-- What the engine is built from. The repository is the database of the world.
pub record HitlEngine : Type 0 where
  pub validators : List Validator
  pub hooks : List Hook
  pub plugins : List NotificationPlugin
  pub bridge : Option NostrBridge

-- The answer to a request with errors.
abbrev pub refusal : List String → HitlResponse
refusal errors = respond_error none error (concat ("Validation failed: " ∷ join "; " errors ∷ []))

-- The answer to a retry, from the event that is there.
abbrev pub repetition : HitlEvent → HitlResponse
repetition e = record (respond (some e.event_id) e.status) { expires_at = e.expires_at }

-- The answer to a request that was stored.
abbrev pub acceptance : HitlEvent → HitlResponse
acceptance e = record (respond (some e.event_id) pending) { expires_at = e.expires_at }

-- `if not event.owner_pubkey: event.owner_pubkey = await get_user_pubkey(req.user_id)`
unfoldable pub with_owner : HitlEvent → String → Exec HitlEvent
with_owner event user_id =
    if is_given event.owner_pubkey
    then pure event
    else (do owner ← get_user_pubkey user_id; pure (record event { owner_pubkey = owner }))

-- The rest of `approve`, once the event was read as pending.
unfoldable pub finish_approve : HitlEngine → String → Value → HitlEvent → Exec HitlResponse
finish_approve engine id response e = do
  let merged = if truthy response then set "resolution" response e.payload else e.payload
  update_status id approved (some merged)
  on_approved engine.hooks (record e { status = approved; payload = merged })
  pure (respond (some id) approved)

unfoldable pub finish_reject : HitlEngine → String → Value → HitlEvent → Exec HitlResponse
finish_reject engine id reason e = do
  let merged = set "resolution" (obj (field "reason" reason end)) e.payload
  update_status id rejected (some merged)
  on_rejected engine.hooks (record e { status = rejected; payload = merged })
  pure (respond (some id) rejected)

module _ (host : Host) where
  -- The `try` of step 4, for an enabled bridge and a known owner.
  unfoldable pub publish_to : NostrBridge → HitlEvent → String → Exec HitlEvent
  publish_to bridge event owner =
      recover
        (do
          published ← publish_request host bridge event owner
          (if is_given published
              then (do
                set_reference event.event_id (or_text published "") (some bridge.relay_url)
                pure (record event { reference_id = published }))
              else pure event))
        event

  -- Step 4: the event afterwards carries the id under which it was published.
  unfoldable pub publish : Option NostrBridge → HitlEvent → Exec HitlEvent
  publish none event = pure event
  publish (some bridge) event =
      if enabled bridge && is_given event.owner_pubkey
      then publish_to bridge event (or_text event.owner_pubkey "")
      else pure event

  -- Steps 4 to 6.
  unfoldable pub announce : HitlEngine → HitlEvent → Exec HitlResponse
  announce engine event = do
    published ← publish engine.bridge event
    on_created engine.hooks published
    notify_all engine.plugins published
    pure (acceptance published)

  -- Steps 3 to 6.
  unfoldable pub create : HitlEngine → HitlRequest → Exec HitlResponse
  create engine req = do
    event ← from_request host req
    owned ← with_owner event req.user_id
    insert owned
    announce engine owned

  -- Step 2.
  unfoldable pub create_once : HitlEngine → HitlRequest → Exec HitlResponse
  create_once engine req =
      let key = get "idempotency_key" req.metadata in
      if truthy key
      then (do
        existing ← get_by_idempotency_key host key
        (elim existing [ some e ↦ pure (repetition e) | none ↦ create engine req ]))
      else create engine req

  unfoldable pub request : HitlEngine → HitlRequest → Exec HitlResponse
  request engine req = do
    errors ← validation_errors engine.validators req.action_type req.action_details
    (elim errors [ [] ↦ create_once engine req | e ∷ es ↦ pure (refusal (e ∷ es)) ])

  unfoldable pub check : String → Exec HitlResponse
  check id = do
    event ← get_event host id
    pure (elim event [
      | none ↦ respond_error (some id) error "Confirmation not found"
      | some e ↦ record (respond (some id) e.status) {
        response = if is_decided e.status then some e.payload else none;
        confirmed_at = e.resolved_at;
      }
    ])

  -- The guards of `approve` and `reject`: the event to resolve, or the answer that refuses.
  unfoldable pub resolvable : String → Exec (Option HitlEvent × HitlResponse)
  resolvable id = do
    event ← get_event host id
    pure (elim event [
      | none ↦ (none, respond_error (some id) error "Not found")
      | some e ↦ if is_pending e.status then (some e, respond (some id) e.status) else (
        none,
        respond_error (some id) error (concat ("Already " ∷ status_text e.status ∷ [])),
      )
    ])

  unfoldable pub approve : HitlEngine → String → Value → Exec HitlResponse
  approve engine id response = do
    found ← resolvable id
    (elim found.0 [ none ↦ pure found.1 | some e ↦ finish_approve engine id response e ])

  unfoldable pub reject : HitlEngine → String → Value → Exec HitlResponse
  reject engine id reason = do
    found ← resolvable id
    (elim found.0 [ none ↦ pure found.1 | some e ↦ finish_reject engine id reason e ])

  unfoldable pub get_inbox : String → Exec (List HitlEvent)
  get_inbox user_id = list_pending host user_id
