-- ===== src/Engine/Tasks.antt =====
-- core/engine.py as tasks: `request`, `approve` and `reject` cut at their awaits, where the event loop
-- may run others. `from_request` stands between two awaits, and has a turn of its own here: more
-- orders are possible than the event loop takes, and none is lost.
use nodus_hitl_hub.Base.{
  List, Option, String, [], if◌then◌else◌, is_given, none, or_text, some, ◌&&◌, ◌∷◌,
}
use nodus_hitl_hub.Bridge.{NostrBridge, enabled, publish_request}
use nodus_hitl_hub.Engine.Defs.{
  HitlEngine, acceptance, approve, refusal, reject, repetition, request, resolvable, with_owner,
}
use nodus_hitl_hub.Host.{Host}
use nodus_hitl_hub.Json.{Value, end, field, get, obj, set, truthy}
use nodus_hitl_hub.Lifecycle.Defs.{Hook, NotificationPlugin}
use nodus_hitl_hub.Models.Event.{HitlEvent, from_request}
use nodus_hitl_hub.Models.Hitl.{HitlRequest, HitlResponse, approved, rejected, respond}
use nodus_hitl_hub.Repository.{get_by_idempotency_key, insert, set_reference, update_status}
use nodus_hitl_hub.Validators.Defs.{validation_errors}
use nodus_hitl_hub.World.Exec.{Done, Exec, Result, err, ok}
use nodus_hitl_hub.World.Tasks.{Task, await_each, await_ok, awaiting, ends}

-- A call of the engine that changes something.
pub data Call : Type 0 where
  call_request : HitlRequest → Call
  call_approve : String → Value → Call
  call_reject : String → Value → Call

-- The rest of `approve` and of `reject`, once the event was read as pending.
abbrev pub approve_task : HitlEngine → String → Value → HitlEvent → Task HitlResponse
approve_task engine id response e =
    let merged = if truthy response then set "resolution" response e.payload else e.payload in
    await_ok (update_status id approved (some merged)) (λ _.
      await_each
        (λ (hook : Hook). hook.on_approved (record e { status = approved; payload = merged }))
        engine.hooks (ends (ok (respond (some id) approved))))

abbrev pub reject_task : HitlEngine → String → Value → HitlEvent → Task HitlResponse
reject_task engine id reason e =
    let merged = set "resolution" (obj (field "reason" reason end)) e.payload in
    await_ok (update_status id rejected (some merged)) (λ _.
      await_each
        (λ (hook : Hook). hook.on_rejected (record e { status = rejected; payload = merged }))
        engine.hooks (ends (ok (respond (some id) rejected))))

-- What `resolvable` found, and the rest for an event that is pending.
abbrev pub resolve_task :
    (HitlEvent → Task HitlResponse) → Option HitlEvent × HitlResponse → Task HitlResponse
resolve_task rest (none, answer) = ends (ok answer)
resolve_task rest (some e, _) = rest e

module _ (host : Host) (engine : HitlEngine) where
  -- Steps 5 and 6.
  abbrev pub announce_task : HitlEvent → Task HitlResponse
  announce_task e =
      await_each (λ (hook : Hook). hook.on_created e) engine.hooks
        (await_each (λ (plugin : NotificationPlugin). plugin.notify e) engine.plugins
          (ends (ok (acceptance e))))

  -- The reference is in the event only once it is in the row.
  abbrev pub referenced_task : HitlEvent → Option String → Result Done → Task HitlResponse
  referenced_task e published (ok _) = announce_task (record e { reference_id = published })
  referenced_task e published (err x) = announce_task e

  abbrev pub published_task : String → HitlEvent → Result (Option String) → Task HitlResponse
  published_task relay_url e (err x) = announce_task e
  published_task relay_url e (ok published) =
      if is_given published
      then awaiting (set_reference e.event_id (or_text published "") (some relay_url))
          (referenced_task e published)
      else announce_task e

  -- Step 4 and the rest.
  abbrev pub publish_task : Option NostrBridge → HitlEvent → Task HitlResponse
  publish_task none e = announce_task e
  publish_task (some bridge) e =
      if enabled bridge && is_given e.owner_pubkey
      then awaiting (publish_request host bridge e (or_text e.owner_pubkey ""))
          (published_task bridge.relay_url e)
      else announce_task e

  -- Step 3 and the rest.
  abbrev pub create_task : HitlRequest → Task HitlResponse
  create_task req = await_ok (from_request host req) (λ e.
      await_ok (with_owner e req.user_id)
        (λ owned. await_ok (insert owned) (λ _. publish_task engine.bridge owned)))

  abbrev pub found_task : HitlRequest → Option HitlEvent → Task HitlResponse
  found_task req (some e) = ends (ok (repetition e))
  found_task req none = create_task req

  -- Step 2 and the rest.
  abbrev pub once_task : HitlRequest → Task HitlResponse
  once_task req =
      let key = get "idempotency_key" req.metadata in
      if truthy key
      then await_ok (get_by_idempotency_key host key) (found_task req)
      else create_task req

  abbrev pub judged_task : HitlRequest → List String → Task HitlResponse
  judged_task req [] = once_task req
  judged_task req (e ∷ es) = ends (ok (refusal (e ∷ es)))

  -- A call, from its start.
  unfoldable pub task_of : Call → Task HitlResponse
  task_of (call_request req) =
      await_ok (validation_errors engine.validators req.action_type req.action_details)
        (judged_task req)
  task_of (call_approve id response) =
      await_ok (resolvable host id) (resolve_task (approve_task engine id response))
  task_of (call_reject id reason) =
      await_ok (resolvable host id) (resolve_task (reject_task engine id reason))

  -- The same call by the methods of the engine.
  abbrev pub perform : Call → Exec HitlResponse
  perform (call_request req) = request host engine req
  perform (call_approve id response) = approve host engine id response
  perform (call_reject id reason) = reject host engine id reason
