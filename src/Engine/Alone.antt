-- ===== src/Engine/Alone.antt =====
-- A task that no other one interrupts does what the method of the engine does.
use nodus_hitl_hub.Base.{
  Bool, Bool-cases, List, Option, String, [], ap, false, if◌then◌else◌, inl, inr, is_given, none,
  or_text, refl, some, sym, true, ◌&&◌, ◌∙◌, ◌∷◌, ◌≡◌,
}
use nodus_hitl_hub.Bridge.{NostrBridge, enabled, publish_request}
use nodus_hitl_hub.Engine.Defs.{
  HitlEngine, acceptance, announce, approve, create, create_once, finish_approve, finish_reject,
  publish, publish_to, refusal, reject, repetition, request, resolvable, with_owner,
}
use nodus_hitl_hub.Engine.Resolve.{approved_payload, rejected_payload, resolved}
use nodus_hitl_hub.Engine.Tasks.{
  Call, announce_task, approve_task, call_approve, call_reject, call_request, create_task,
  found_task, judged_task, once_task, perform, publish_task, published_task, referenced_task,
  reject_task, resolve_task, task_of,
}
use nodus_hitl_hub.Host.{Host}
use nodus_hitl_hub.Json.{Value, get, obj, truthy}
use nodus_hitl_hub.Json.Cast.{castable}
use nodus_hitl_hub.Lifecycle.Defs.{Hook, NotificationPlugin, notify_all, on_created}
use nodus_hitl_hub.Lifecycle.Isolation.{after_all, plugins-IsIsolated}
use nodus_hitl_hub.Models.Event.{HitlEvent, from_request}
use nodus_hitl_hub.Models.Hitl.{HitlRequest, HitlResponse, approved, rejected, respond}
use nodus_hitl_hub.Repository.{
  get_by_idempotency_key, insert, resolved_world, set_reference, update_status,
}
use nodus_hitl_hub.Validators.Defs.{validation_errors}
use nodus_hitl_hub.World.{World}
use nodus_hitl_hub.World.Exec.{Done, Exec, Result, continue, err, ok, pure, recover, ◌>>=◌, ◌>>◌}
use nodus_hitl_hub.World.Tasks.{
  Task, awaiting, ends, run_task, run_task-await_each, run_task-await_ok,
}

module _ (host : Host) (engine : HitlEngine) where
  -- Steps 5 and 6.
  notified : HitlEvent → Exec HitlResponse
  notified e = do on_created engine.hooks e; notify_all engine.plugins e; pure (acceptance e)

  announce_task-eq :
      (e : HitlEvent) (w : World) → run_task (announce_task host engine e) w ≡ notified e w
  unfolding run_task notified
  announce_task-eq e w =
      let isolated = plugins-IsIsolated engine.hooks engine.plugins e in
      run_task-await_each (λ (hook : Hook). hook.on_created e) engine.hooks _ w
      ∙ run_task-await_each (λ (plugin : NotificationPlugin). plugin.notify e) engine.plugins _ _
      ∙ (rw
          (
            (isolated w).created,
            (isolated (after_all (λ (h : Hook). h.on_created e) engine.hooks w)).notified,
          )
          refl)

  -- The `try` of step 4 after the publication, where `given` says whether it gave an id.
  given_task-eq :
      (bridge : NostrBridge) (e : HitlEvent) (published : Option String) (given : Bool) (w : World)
      → run_task
          (if given
            then awaiting
                (set_reference e.event_id (or_text published "") (some bridge.relay_url))
                (referenced_task host engine e published)
            else announce_task host engine e)
          w
        ≡ (recover
                (if given
                  then (do
                    set_reference e.event_id (or_text published "") (some bridge.relay_url)
                    pure (record e { reference_id = published }))
                  else pure e)
                e
              >>= notified)
            w
  unfolding run_task set_reference
  given_task-eq bridge e published true w =
      announce_task-eq (record e { reference_id = published }) _
  given_task-eq bridge e published false w = announce_task-eq e w

  published_task-eq :
      (bridge : NostrBridge) (e : HitlEvent) (r : Result (Option String)) (w : World)
      → run_task (published_task host engine bridge.relay_url e r) w
        ≡ (recover
                (continue r (λ published.
                  if is_given published
                  then (do
                    set_reference e.event_id (or_text published "") (some bridge.relay_url)
                    pure (record e { reference_id = published }))
                  else pure e))
                e
              >>= notified)
            w
  unfolding run_task
  published_task-eq bridge e (err x) w = announce_task-eq e w
  published_task-eq bridge e (ok published) w =
      given_task-eq bridge e published (is_given published) w

  publish_task-eq :
      (bridge : Option NostrBridge) (e : HitlEvent) (w : World)
      → run_task (publish_task host engine bridge e) w ≡ (publish host bridge e >>= notified) w
  unfolding run_task publish publish_to
  publish_task-eq none e w = announce_task-eq e w
  publish_task-eq (some bridge) e w =
      elim (Bool-cases (enabled bridge && is_given e.owner_pubkey)) [
        | inr off ↦ rw off (announce_task-eq e w)
        | inl on ↦ rw on (
            published_task-eq bridge e
              (publish_request host bridge e (or_text e.owner_pubkey "") w).0
              (publish_request host bridge e (or_text e.owner_pubkey "") w).1)
      ]

  create_task-eq :
      (req : HitlRequest) (w : World)
      → run_task (create_task host engine req) w ≡ create host engine req w
  unfolding create announce notified
  create_task-eq req = run_task-await_ok (from_request host req) _ _ (λ e.
      run_task-await_ok (with_owner e req.user_id) _ _ (λ owned.
        run_task-await_ok (insert owned) _ _ (λ done v. publish_task-eq engine.bridge owned v)))

  found_task-eq :
      (req : HitlRequest) (existing : Option HitlEvent) (w : World)
      → run_task (found_task host engine req existing) w
        ≡ (elim existing as (λ x. Exec HitlResponse) [
          | some e ↦ pure (repetition e)
          | none ↦ create host engine req
        ])
            w
  unfolding run_task
  found_task-eq req (some e) w = refl
  found_task-eq req none w = create_task-eq req w

  once_task-eq :
      (req : HitlRequest) (w : World)
      → run_task (once_task host engine req) w ≡ create_once host engine req w
  unfolding create_once run_task
  once_task-eq req w = elim (Bool-cases (truthy (get "idempotency_key" req.metadata))) [
    | inr keyless ↦ rw keyless (create_task-eq req w)
    | inl keyed ↦ rw keyed (
        run_task-await_ok (get_by_idempotency_key host (get "idempotency_key" req.metadata)) _ _
          (found_task-eq req) w)
  ]

  judged_task-eq :
      (req : HitlRequest) (errors : List String) (w : World)
      → run_task (judged_task host engine req errors) w
        ≡ (elim errors as (λ x. Exec HitlResponse) [
          | [] ↦ create_once host engine req
          | e ∷ es ↦ pure (refusal (e ∷ es))
        ])
            w
  unfolding run_task
  judged_task-eq req [] w = once_task-eq req w
  judged_task-eq req (e ∷ es) w = refl

  -- The rest of a resolution, after its guards.
  resolve_task-eq :
      (rest : HitlEvent → Task HitlResponse) (finish : HitlEvent → Exec HitlResponse)
      (found : Option HitlEvent × HitlResponse)
      → ((e : HitlEvent) (w : World) → run_task (rest e) w ≡ finish e w)
      → (w : World)
      → run_task (resolve_task rest found) w
        ≡ (elim found.0 as (λ x. Exec HitlResponse) [ none ↦ pure found.1 | some e ↦ finish e ]) w
  unfolding run_task
  resolve_task-eq rest finish (none, answer) same w = refl
  resolve_task-eq rest finish (some e, answer) same w = same e w

  approve_task-eq :
      (id : String) (response : Value) (e : HitlEvent) (w : World)
      → run_task (approve_task engine id response e) w ≡ finish_approve engine id response e w
  unfolding finish_approve run_task update_status
  approve_task-eq id response e w =
      elim (Bool-cases (castable (obj (approved_payload response e.payload)))) [
        | inr bad ↦ rw (finish_approve, run_task, bad) refl
        | inl good ↦
            let f = resolved approved (approved_payload response e.payload) e in
            let v = resolved_world id approved (some (approved_payload response e.payload)) w in
            let hooks_run = (plugins-IsIsolated engine.hooks [] f v).approved in
            rw (finish_approve, run_task, good)
              (run_task-await_each (λ (hook : Hook). hook.on_approved f) engine.hooks
                  (ends (ok (respond (some id) approved))) v
                ∙ ap
                    (λ (y : Result Done × World).
                      continue y.0 (λ _. pure (respond (some id) approved)) y.1)
                    (sym hooks_run))
      ]

  reject_task-eq :
      (id : String) (reason : Value) (e : HitlEvent) (w : World)
      → run_task (reject_task engine id reason e) w ≡ finish_reject engine id reason e w
  unfolding finish_reject run_task update_status
  reject_task-eq id reason e w =
      elim (Bool-cases (castable (obj (rejected_payload reason e.payload)))) [
        | inr bad ↦ rw (finish_reject, run_task, bad) refl
        | inl good ↦
            let f = resolved rejected (rejected_payload reason e.payload) e in
            let v = resolved_world id rejected (some (rejected_payload reason e.payload)) w in
            let hooks_run = (plugins-IsIsolated engine.hooks [] f v).rejected in
            rw (finish_reject, run_task, good)
              (run_task-await_each (λ (hook : Hook). hook.on_rejected f) engine.hooks
                  (ends (ok (respond (some id) rejected))) v
                ∙ ap
                    (λ (y : Result Done × World).
                      continue y.0 (λ _. pure (respond (some id) rejected)) y.1)
                    (sym hooks_run))
      ]

  -- A call that no other task interrupts does what the method of the engine does: it has the same
  -- result, and leaves the same world.
  pub run_task-task_of :
      (call : Call) (w : World) → run_task (task_of host engine call) w ≡ perform host engine call w
  unfolding task_of request approve reject
  run_task-task_of (call_request req) =
      run_task-await_ok (validation_errors engine.validators req.action_type req.action_details) _ _
        (judged_task-eq req)
  run_task-task_of (call_approve id response) =
      run_task-await_ok (resolvable host id) _ _
        (λ found. resolve_task-eq _ _ found (approve_task-eq id response))
  run_task-task_of (call_reject id reason) =
      run_task-await_ok (resolvable host id) _ _
        (λ found. resolve_task-eq _ _ found (reject_task-eq id reason))
