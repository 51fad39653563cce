-- ===== src/Engine/Written.antt =====
-- What a resolution leaves in the database.
use nodus_hitl_hub.Base.{
  Bool-cases, String, ap, arith, false, inl, inr, none, refl, some, sym, true, ◌∙◌, ◌≡◌, ◌≢◌,
}
use nodus_hitl_hub.Engine.Decided.{get_event-row, updated-read}
use nodus_hitl_hub.Engine.Defs.{HitlEngine, approve, reject}
use nodus_hitl_hub.Engine.Race.{set-truthy}
use nodus_hitl_hub.Engine.Resolve.{
  Outcome, already, approve-Outcome, approved_payload, done, failed, missing, refused,
  reject-Outcome, rejected_payload, unwritten,
}
use nodus_hitl_hub.Host.{Host}
use nodus_hitl_hub.Json.{Fields, Value, end, field, obj, set, truthy}
use nodus_hitl_hub.Json.Cast.{castable}
use nodus_hitl_hub.Lifecycle.Defs.{on_approved, on_rejected}
use nodus_hitl_hub.Models.Event.{HitlEvent}
use nodus_hitl_hub.Models.Hitl.{
  HitlResponse, HitlStatus, approved, error, pending, rejected, respond, respond_error,
}
use nodus_hitl_hub.Repository.{get_event, resolved_world}
use nodus_hitl_hub.Repository.Updates.{
  get_event-update_status, get_event-update_status_ne, resolve_row-kept,
}
use nodus_hitl_hub.World.{World}
use nodus_hitl_hub.World.Exec.{Done, Error, Exec, Result, err, external, ok}

-- How a resolution of `id` ends: what it answers, and what can be read of the table when the hooks
-- start.
pub data Resolution (host : Host) (status : HitlStatus) (merge : Fields → Fields)
    (hooks : HitlEvent → Exec Done) (id : String) (w : World) (result : Result HitlResponse × World)
    : Type 0 where
  -- The read raised: so does the call.
  unread :
      (x : Error)
      → (get_event host id w).0 ≡ err x
      → result ≡ (err x, w)
      → Resolution host status merge hooks id w result
  -- There is no such event: an error, and nothing changes.
  unknown :
      (get_event host id w).0 ≡ ok none
      → result ≡ (ok (respond_error (some id) error "Not found"), w)
      → Resolution host status merge hooks id w result
  -- The event is not pending: an error that names its status, and nothing changes.
  too_late :
      (e : HitlEvent)
      → (get_event host id w).0 ≡ ok (some e)
      → e.status ≢ pending
      → result ≡ (ok (already id e), w)
      → Resolution host status merge hooks id w result
  -- The event was pending, and the database refuses the payload: the call raises, and nothing changes.
  unstorable :
      (e : HitlEvent)
      → (get_event host id w).0 ≡ ok (some e)
      → e.status ≡ pending
      → castable (obj (merge e.payload)) ≡ false
      → result ≡ (err external, w)
      → Resolution host status merge hooks id w result
  -- The event was pending: when the hooks start, it is read with the status, the merged payload and the
  -- time, every other event is read as before, and nothing but the table changed. The hooks get the
  -- event with the status and the payload, and the answer is the status.
  settles :
      (e : HitlEvent) (v : World)
      → (get_event host id w).0 ≡ ok (some e)
      → e.status ≡ pending
      → castable (obj (merge e.payload)) ≡ true
      → (get_event host id v).0
        ≡ ok (
            some
              (record e { status = status; payload = merge e.payload; resolved_at = some w.now }))
      → ((j : String) → id ≢ j → (get_event host j v).0 ≡ (get_event host j w).0)
      → v ≡ record w { hitl = v.hitl }
      → result ≡ (
        ok (respond (some id) status),
        (hooks (record e { status = status; payload = merge e.payload }) v).1,
      )
      → Resolution host status merge hooks id w result

module _ (host : Host) (status : HitlStatus) (merge : Fields → Fields)
    (hooks : HitlEvent → Exec Done) (id : String) (w : World)
    (blank : (d : Fields) → truthy (obj (merge d)) ≡ false → merge d ≡ d) where
  resolved_world-read :
      (e : HitlEvent)
      → (get_event host id w).0 ≡ ok (some e)
      → (get_event host id (resolved_world id status (some (merge e.payload)) w)).0
        ≡ ok (
            some
              (record e { status = status; payload = merge e.payload; resolved_at = some w.now }))
  resolved_world-read e read =
      let (r, found, loads) = get_event-row host id w e read in
      elim (Bool-cases (truthy (obj (merge e.payload)))) [
        | inl full ↦ get_event-update_status host id r e status (merge e.payload) w found loads full
        | inr empty ↦ updated-read host id e status (merge e.payload) w read _ r found (
            resolve_row-kept host r e status (merge e.payload) w.now loads empty
            ∙ ap (λ p. ok (record e { status = status; payload = p; resolved_at = some w.now }))
                (sym (blank e.payload empty)))
      ]

  Outcome-Resolution :
      (result : Result HitlResponse × World)
      → Outcome status merge hooks id w (get_event host id w).0 result
      → Resolution host status merge hooks id w result
  Outcome-Resolution result (failed x r q) = unread x r q
  Outcome-Resolution result (missing r q) = unknown r q
  Outcome-Resolution result (refused e r n q) = too_late e r n q
  Outcome-Resolution result (unwritten e r p bad q) = unstorable e r p bad q
  Outcome-Resolution result (done e r p good q) =
      settles e (resolved_world id status (some (merge e.payload)) w) r p good
        (resolved_world-read e r)
        (λ j apart. get_event-update_status_ne host id j status (some (merge e.payload)) w apart)
        refl q

approved_payload-blank :
    (v : Value) (d : Fields)
    → truthy (obj (approved_payload v d)) ≡ false
    → approved_payload v d ≡ d
approved_payload-blank v d empty = elim (Bool-cases (truthy v)) [
  | inl given ↦
      let full : truthy (obj (set "resolution" v d)) ≡ false = rw given at empty in
      ground (arith, full, set-truthy "resolution" v d)
  | inr not_given ↦ rw not_given refl
]

rejected_payload-blank :
    (v : Value) (d : Fields)
    → truthy (obj (rejected_payload v d)) ≡ false
    → rejected_payload v d ≡ d
rejected_payload-blank v d empty =
    ground (arith, empty, set-truthy "resolution" (obj (field "reason" v end)) d)

module _ (host : Host) (engine : HitlEngine) (id : String) (response : Value) (w : World) where
  -- `approve` raises with the read, answers an error without any change for an absent request or one
  -- that is not pending, and raises without any change for a payload that the database refuses. Else
  -- the request is read as approved then, with the response under `resolution` if there is one, at the
  -- time, no other request changed, the hooks run on it, and the answer is the new status.
  pub approve-Resolution :
      Resolution host approved
        (approved_payload response)
        (on_approved engine.hooks)
        id
        w
        (approve host engine id response w)
  approve-Resolution =
      Outcome-Resolution host approved (approved_payload response) (on_approved engine.hooks) id w
        (approved_payload-blank response) _ (approve-Outcome host engine id response w)

  -- `reject` raises with the read, answers an error without any change for an absent request or one that
  -- is not pending, and raises without any change for a payload that the database refuses. Else the
  -- request is read as rejected then, with the reason under `resolution`, at the time, no other request
  -- changed, the hooks run on it, and the answer is the new status.
  pub reject-Resolution :
      Resolution host rejected
        (rejected_payload response)
        (on_rejected engine.hooks)
        id
        w
        (reject host engine id response w)
  reject-Resolution =
      Outcome-Resolution host rejected (rejected_payload response) (on_rejected engine.hooks) id w
        (rejected_payload-blank response) _ (reject-Outcome host engine id response w)
