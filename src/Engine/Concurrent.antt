-- ===== src/Engine/Concurrent.antt =====
-- Calls of the engine that interleave: what holds whatever the order of their turns.
use nodus_hitl_hub.Base.{List, String, false, inl, inr, refl, some, subst, ℕ, ◌≡◌, ◌⊎◌}
use nodus_hitl_hub.Engine.Defs.{HitlEngine, resolvable}
use nodus_hitl_hub.Engine.Final.{IsQuiet}
use nodus_hitl_hub.Engine.Growth.{validation_errors-Keeps}
use nodus_hitl_hub.Engine.Promised.{judged_task-Secured}
use nodus_hitl_hub.Engine.Promises.{IsResolved, promise_of, promise_of-Lasts, resolves, stores}
use nodus_hitl_hub.Engine.Race.{HooksKeep}
use nodus_hitl_hub.Engine.Request.{key_of}
use nodus_hitl_hub.Engine.Resolve.{approved_payload, rejected_payload, resolved}
use nodus_hitl_hub.Engine.Resolving.{resolving-Secured}
use nodus_hitl_hub.Engine.Schedule.{Hub, Turn, calls_at, run_turns}
use nodus_hitl_hub.Engine.Secured.{AllSecured, Secured, await_ok-Secured, run_turns-AllSecured}
use nodus_hitl_hub.Engine.Tasks.{
  Call, call_approve, call_reject, call_request, resolve_task, task_of,
}
use nodus_hitl_hub.Host.{Host}
use nodus_hitl_hub.Json.{Fields, Value, null, str}
use nodus_hitl_hub.Lifecycle.Defs.{Hook}
use nodus_hitl_hub.Models.Event.{HitlEvent}
use nodus_hitl_hub.Models.Hitl.{
  HitlRequest, HitlResponse, HitlStatus, approved, is_error, is_pending, rejected, respond,
}
use nodus_hitl_hub.Repository.{update_status}
use nodus_hitl_hub.Repository.Keys.{IsKeyed}
use nodus_hitl_hub.Repository.Later.{Later, same-Later}
use nodus_hitl_hub.Repository.Unique.{same_key-same_id}
use nodus_hitl_hub.Validators.Defs.{validation_errors}
use nodus_hitl_hub.World.{World}
use nodus_hitl_hub.World.Exec.{Done, Exec, ok}
use nodus_hitl_hub.World.Tasks.{await_each, await_ok, ends}

module _ (host : Host) (engine : HitlEngine) (quiet : IsQuiet engine) where
  resolve-Secured :
      (id : String) (status : HitlStatus) (final : is_pending status ≡ false)
      (merge : Fields → Fields) (run_hook : Hook → HitlEvent → Exec Done)
      → HooksKeep run_hook engine.hooks
      → (w : World)
      → Secured (resolves id) w (
          await_ok (resolvable host id) (
            resolve_task (λ e. await_ok (update_status id status (some (merge e.payload))) (λ _.
              await_each
                (λ (hook : Hook). run_hook hook (resolved status (merge e.payload) e))
                engine.hooks
                (ends (ok (respond (some id) status)))))))
  resolve-Secured id status final merge run_hook keep w =
      resolving-Secured host engine id status final merge run_hook keep (resolves id)
        (promise_of-Lasts (call_approve id null)) (λ v done. λ fine. done)
        (λ answer v wrong. λ fine. cc (wrong, fine)) w

  task_of-Secured : (c : Call) (w : World) → Secured (promise_of c) w (task_of host engine c)
  unfolding task_of
  task_of-Secured (call_request req) w =
      await_ok-Secured (stores req) (promise_of-Lasts (call_request req))
        (validation_errors engine.validators req.action_type req.action_details) _ w
        (λ v later keyed. same-Later v _ (
          validation_errors-Keeps engine.validators req.action_type req.action_details
            quiet.validating v))
        (λ v errors later keyed judged. judged_task-Secured host engine quiet req errors _)
  task_of-Secured (call_approve id response) w =
      resolve-Secured id approved refl (approved_payload response) (λ (h : Hook). h.on_approved)
        quiet.resolving.at_approval w
  task_of-Secured (call_reject id reason) w =
      resolve-Secured id rejected refl (rejected_payload reason) (λ (h : Hook). h.on_rejected)
        quiet.resolving.at_rejection w

  module _ (calls : ℕ → Call) (turns : List Turn) (w : World) (keyed : IsKeyed w.hitl) where
    -- The hub after the turns.
    abbrev pub hub_after : Hub
    hub_after = run_turns turns (calls_at host engine calls w)

    run_turns-kept : Later w hub_after.world × AllSecured (λ i. promise_of (calls i)) hub_after
    unfolding calls_at
    run_turns-kept =
        run_turns-AllSecured (λ i. promise_of (calls i)) (λ i. promise_of-Lasts (calls i)) turns
          (calls_at host engine calls w) keyed (λ i. task_of-Secured (calls i) w)

    -- For an engine that leaves the requests alone beside its own writes, and a table with unique keys,
    -- in whatever order requests, approvals, rejections, expiries and the clock take their turns, no
    -- request is lost, none that is closed is pending again, and the keys stay unique.
    pub run_turns-Later : Later w hub_after.world
    run_turns-Later = run_turns-kept.0

    ended-promise :
        (i : ℕ) (answer : HitlResponse)
        → hub_after.tasks i ≡ ends (ok answer)
        → promise_of (calls i) answer hub_after.world
    ended-promise i answer over =
        subst (Secured (promise_of (calls i)) hub_after.world) over (run_turns-kept.1 i)

    -- For an engine that leaves the requests alone beside its own writes, and a table with unique keys,
    -- in whatever order the calls, the expiry and the clock take their turns, two requests with one
    -- idempotency key that are both answered with an id are answered with the same one.
    pub run_turns-one_id :
        (i j : ℕ) (req other : HitlRequest) (key x y : String) (a b : HitlResponse)
        → calls i ≡ call_request req
        → calls j ≡ call_request other
        → key_of req ≡ str key
        → key_of other ≡ str key
        → hub_after.tasks i ≡ ends (ok a)
        → hub_after.tasks j ≡ ends (ok b)
        → a.confirmation_id ≡ some x
        → b.confirmation_id ≡ some y
        → x ≡ y
    run_turns-one_id i j req other key x y a b at_i at_j keyed_i keyed_j over_i over_j named_i
          named_j =
        let first =
          subst (λ c. promise_of c a hub_after.world) at_i (ended-promise i a over_i) x named_i in
        let second =
          subst (λ c. promise_of c b hub_after.world) at_j (ended-promise j b over_j) y named_j in
        same_key-same_id hub_after.world.hitl x y key first.row second.row
          (run_turns-Later.keyed keyed) first.found second.found (first.key key keyed_i)
          (second.key key keyed_j)

    -- For an engine that leaves the requests alone beside its own writes, and a table with unique keys,
    -- in whatever order the calls, the expiry and the clock take their turns, a request for which an
    -- approval or a rejection was answered without an error is there, and is not pending.
    pub run_turns-IsResolved :
        (i : ℕ) (id : String) (v : Value) (a : HitlResponse)
        → (calls i ≡ call_approve id v) ⊎ (calls i ≡ call_reject id v)
        → hub_after.tasks i ≡ ends (ok a)
        → is_error a.status ≡ false
        → IsResolved id hub_after.world
    run_turns-IsResolved i id v a (inl approves_it) over fine =
        subst (λ c. promise_of c a hub_after.world) approves_it (ended-promise i a over) fine
    run_turns-IsResolved i id v a (inr rejects_it) over fine =
        subst (λ c. promise_of c a hub_after.world) rejects_it (ended-promise i a over) fine
