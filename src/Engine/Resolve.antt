-- ===== src/Engine/Resolve.antt =====
-- What `approve` and `reject` do, on every branch.
use nodus_hitl_hub.Base.{
  Bool-cases, Option, String, [], arith, concat, false, if◌then◌else◌, inl, inr, none, refl, some,
  true, ◌↔◌, ◌∷◌, ◌≡◌, ◌≢◌,
}
use nodus_hitl_hub.Engine.Defs.{
  HitlEngine, approve, finish_approve, finish_reject, reject, resolvable,
}
use nodus_hitl_hub.Host.{Host}
use nodus_hitl_hub.Json.{Fields, Value, end, field, obj, set, truthy}
use nodus_hitl_hub.Json.Cast.{castable}
use nodus_hitl_hub.Lifecycle.Defs.{on_approved, on_rejected}
use nodus_hitl_hub.Lifecycle.Isolation.{on_approved_ok, on_rejected_ok}
use nodus_hitl_hub.Models.Event.{HitlEvent}
use nodus_hitl_hub.Models.Hitl.{
  HitlResponse, HitlStatus, approved, error, is_pending, pending, rejected, respond, respond_error,
  status_text,
}
use nodus_hitl_hub.Repository.{get_event, resolved_world, update_status}
use nodus_hitl_hub.Repository.Updates.{get_event_reads}
use nodus_hitl_hub.World.{World}
use nodus_hitl_hub.World.Exec.{Done, Error, Exec, Result, Result-cases, err, external, ok}

-- The payload that `approve` stores.
abbrev pub approved_payload : Value → Fields → Fields
approved_payload response payload =
    if truthy response then set "resolution" response payload else payload

-- The payload that `reject` stores.
abbrev pub rejected_payload : Value → Fields → Fields
rejected_payload reason payload = set "resolution" (obj (field "reason" reason end)) payload

abbrev pub already : String → HitlEvent → HitlResponse
already id e = respond_error (some id) error (concat ("Already " ∷ status_text e.status ∷ []))

-- The event as the hooks see it.
abbrev pub resolved : HitlStatus → Fields → HitlEvent → HitlEvent
resolved status payload e = record e { status = status; payload = payload }

-- How a resolution of `id` ends, by what the read of the event gave.
pub data Outcome (status : HitlStatus) (merge : Fields → Fields) (hooks : HitlEvent → Exec Done)
    (id : String) (w : World) (read : Result (Option HitlEvent))
    (result : Result HitlResponse × World) : Type 0 where
  -- The read raised: so does the call.
  failed :
      (x : Error) → read ≡ err x → result ≡ (err x, w) → Outcome status merge hooks id w read result
  -- There is no such event: an error, and nothing changes.
  missing :
      read ≡ ok none
      → result ≡ (ok (respond_error (some id) error "Not found"), w)
      → Outcome status merge hooks id w read result
  -- The event is resolved already: an error, and nothing changes.
  refused :
      (e : HitlEvent)
      → read ≡ ok (some e)
      → e.status ≢ pending
      → result ≡ (ok (already id e), w)
      → Outcome status merge hooks id w read result
  -- The event was pending, and the database refuses the payload: the call raises, and nothing changes.
  unwritten :
      (e : HitlEvent)
      → read ≡ ok (some e)
      → e.status ≡ pending
      → castable (obj (merge e.payload)) ≡ false
      → result ≡ (err external, w)
      → Outcome status merge hooks id w read result
  -- The event was pending: its row is written, the hooks run on the event as written, and the
  -- answer is the new status.
  done :
      (e : HitlEvent)
      → read ≡ ok (some e)
      → e.status ≡ pending
      → castable (obj (merge e.payload)) ≡ true
      → result ≡ (
        ok (respond (some id) status),
        (hooks
            (resolved status (merge e.payload) e)
            (resolved_world id status (some (merge e.payload)) w)).1,
      )
      → Outcome status merge hooks id w read result

pub is_pending_iff : (s : HitlStatus) → (is_pending s ≡ true) ↔ (s ≡ pending)
is_pending_iff s = ground arith

pub update_status-fits :
    (id : String) (s : HitlStatus) (d : Fields) (w : World)
    → castable (obj d) ≡ true
    → update_status id s (some d) w ≡ (ok tt, resolved_world id s (some d) w)
unfolding update_status
update_status-fits id s d w good = rw good refl

pub update_status-refused :
    (id : String) (s : HitlStatus) (d : Fields) (w : World)
    → castable (obj d) ≡ false
    → update_status id s (some d) w ≡ (err external, w)
unfolding update_status
update_status-refused id s d w bad = rw bad refl

module _ (engine : HitlEngine) (id : String) (response : Value) (w : World) (e : HitlEvent) where
  pub finish_approve-eq :
      castable (obj (approved_payload response e.payload)) ≡ true
      → finish_approve engine id response e w ≡ (
        ok (respond (some id) approved),
        (on_approved engine.hooks
            (resolved approved (approved_payload response e.payload) e)
            (resolved_world id approved (some (approved_payload response e.payload)) w)).1,
      )
  unfolding finish_approve
  finish_approve-eq good =
      rw
        (
          update_status-fits id approved (approved_payload response e.payload) w good,
          on_approved_ok engine.hooks (resolved approved (approved_payload response e.payload) e)
              (resolved_world id approved (some (approved_payload response e.payload)) w),
        )
        refl

  pub finish_approve-refused :
      castable (obj (approved_payload response e.payload)) ≡ false
      → finish_approve engine id response e w ≡ (err external, w)
  unfolding finish_approve
  finish_approve-refused bad =
      rw (update_status-refused id approved (approved_payload response e.payload) w bad) refl

  pub finish_reject-eq :
      castable (obj (rejected_payload response e.payload)) ≡ true
      → finish_reject engine id response e w ≡ (
        ok (respond (some id) rejected),
        (on_rejected engine.hooks
            (resolved rejected (rejected_payload response e.payload) e)
            (resolved_world id rejected (some (rejected_payload response e.payload)) w)).1,
      )
  unfolding finish_reject
  finish_reject-eq good =
      rw
        (
          update_status-fits id rejected (rejected_payload response e.payload) w good,
          on_rejected_ok engine.hooks (resolved rejected (rejected_payload response e.payload) e)
              (resolved_world id rejected (some (rejected_payload response e.payload)) w),
        )
        refl

  pub finish_reject-refused :
      castable (obj (rejected_payload response e.payload)) ≡ false
      → finish_reject engine id response e w ≡ (err external, w)
  unfolding finish_reject
  finish_reject-refused bad =
      rw (update_status-refused id rejected (rejected_payload response e.payload) w bad) refl

module _ (host : Host) (engine : HitlEngine) (id : String) (response : Value) (w : World) where
  -- `approve` raises with the read, answers an error without any change for an absent or an already
  -- resolved request, and otherwise writes the status and the merged payload, runs the hooks on the
  -- event as written and answers the new status.
  pub approve-Outcome :
      Outcome approved
        (approved_payload response)
        (on_approved engine.hooks)
        id
        w
        (get_event host id w).0
        (approve host engine id response w)
  unfolding approve resolvable
  approve-Outcome = elim (Result-cases (get_event host id w).0) [
    | inl (x, e) ↦ failed x e (rw (e, get_event_reads host id w) refl)
    | inr (none, e) ↦ missing e (rw (e, get_event_reads host id w) refl)
    | inr (some event, e) ↦ elim (Bool-cases (is_pending event.status)) [
      | inl waiting ↦ elim (Bool-cases (castable (obj (approved_payload response event.payload)))) [
        | inl good ↦ done event e ((is_pending_iff event.status).0 waiting) good (
            rw (e, get_event_reads host id w, waiting)
              (finish_approve-eq engine id response w event good))
        | inr bad ↦ unwritten event e ((is_pending_iff event.status).0 waiting) bad (
            rw (e, get_event_reads host id w, waiting)
              (finish_approve-refused engine id response w event bad))
      ]
      | inr closed ↦
          refused event e (λ p. ground (arith, p)) (rw (e, get_event_reads host id w, closed) refl)
    ]
  ]

  -- `reject` raises with the read, answers an error without any change for an absent or an already
  -- resolved request, and otherwise writes the status and the payload with the reason, runs the
  -- hooks on the event as written and answers the new status.
  pub reject-Outcome :
      Outcome rejected
        (rejected_payload response)
        (on_rejected engine.hooks)
        id
        w
        (get_event host id w).0
        (reject host engine id response w)
  unfolding reject resolvable
  reject-Outcome = elim (Result-cases (get_event host id w).0) [
    | inl (x, e) ↦ failed x e (rw (e, get_event_reads host id w) refl)
    | inr (none, e) ↦ missing e (rw (e, get_event_reads host id w) refl)
    | inr (some event, e) ↦ elim (Bool-cases (is_pending event.status)) [
      | inl waiting ↦ elim (Bool-cases (castable (obj (rejected_payload response event.payload)))) [
        | inl good ↦ done event e ((is_pending_iff event.status).0 waiting) good (
            rw (e, get_event_reads host id w, waiting)
              (finish_reject-eq engine id response w event good))
        | inr bad ↦ unwritten event e ((is_pending_iff event.status).0 waiting) bad (
            rw (e, get_event_reads host id w, waiting)
              (finish_reject-refused engine id response w event bad))
      ]
      | inr closed ↦
          refused event e (λ p. ground (arith, p)) (rw (e, get_event_reads host id w, closed) refl)
    ]
  ]
