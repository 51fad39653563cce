-- ===== src/Mcp/Decisions.antt =====
-- `POST /hitl/requests/{id}/resolve`: what is decided, and how it is answered.
use nodus_hitl_hub.Base.{
  Bool-cases, String, ap, arith, false, if◌then◌else◌, inl, inr, refl, some, sym, true, ◌∙◌, ◌≡◌,
  ◌≢◌,
}
use nodus_hitl_hub.Engine.Decided.{update_status-read}
use nodus_hitl_hub.Engine.Defs.{HitlEngine, approve, reject}
use nodus_hitl_hub.Engine.Final.{HasTameHooks}
use nodus_hitl_hub.Engine.Kept.{Keeps}
use nodus_hitl_hub.Engine.Race.{on_approved-hitl, on_rejected-hitl}
use nodus_hitl_hub.Engine.Reads.{get_event_of}
use nodus_hitl_hub.Engine.Resolve.{
  Outcome, already, approve-Outcome, approved_payload, done, failed, missing, refused,
  reject-Outcome, rejected_payload, resolved, unwritten,
}
use nodus_hitl_hub.Host.{Host}
use nodus_hitl_hub.Json.{Fields, Value, arr, bool, float, get, int, is_dict, null, obj, str}
use nodus_hitl_hub.Json.Cast.{castable}
use nodus_hitl_hub.Lifecycle.Defs.{on_approved, on_rejected}
use nodus_hitl_hub.Mcp.Rest.{
  JsonResponse, Service, WebRequest, is_true, resolve_request, resolve_with, respond_json,
  unauthorized,
}
use nodus_hitl_hub.Models.Event.{HitlEvent}
use nodus_hitl_hub.Models.Hitl.{
  HitlResponse, HitlStatus, approved, error, is_error, pending, rejected, respond, respond_error,
}
use nodus_hitl_hub.Repository.{get_event, resolved_world}
use nodus_hitl_hub.World.{World}
use nodus_hitl_hub.World.Exec.{
  Done, Error, Exec, Result, attribute_error, err, external, ok, pure, ◌>>=◌,
}

-- The decision of a body: JSON's `true` under `approved` approves, and anything else rejects.
unfoldable pub decision_of : Fields → HitlStatus
decision_of d = if is_true (get "approved" d) then approved else rejected

-- The payload that the decision of a body stores.
abbrev pub decided_payload : Fields → Fields → Fields
decided_payload d payload =
    if is_true (get "approved" d)
    then approved_payload (get "response" d) payload
    else rejected_payload (get "reason" d) payload

-- How a call of the handler ends on a body that is JSON, `v` being the world in which it starts.
pub data Resolved (host : Host) (id : String) (body : Value) (v : World)
    (result : Result JsonResponse × World) : Type 0 where
  -- The body is no object: the handler raises, and nothing changes.
  no_object :
      is_dict body ≡ false → result ≡ (err attribute_error, v) → Resolved host id body v result
  -- The request cannot be read: the handler raises, and nothing changes.
  unreadable :
      (x : Error)
      → (get_event host id v).0 ≡ err x
      → result ≡ (err x, v)
      → Resolved host id body v result
  -- There is no such request, or it is not pending: a 400, and nothing changes.
  not_open :
      (a : JsonResponse)
      → ((e : HitlEvent) → (get_event host id v).0 ≡ ok (some e) → e.status ≢ pending)
      → result ≡ (ok a, v)
      → a.status_code ≡ 400
      → Resolved host id body v result
  -- The request was pending, and the database refuses the payload of the decision, for a text with
  -- \u0000, a NaN or an infinity in it: the handler raises, and nothing changes.
  not_storable :
      (d : Fields) (e : HitlEvent)
      → body ≡ obj d
      → (get_event host id v).0 ≡ ok (some e)
      → e.status ≡ pending
      → castable (obj (decided_payload d e.payload)) ≡ false
      → result ≡ (err external, v)
      → Resolved host id body v result
  -- The request was pending and the database takes the payload: a 200, and afterwards the request is read with the decision.
  settled :
      (d : Fields) (e f : HitlEvent) (a : JsonResponse)
      → body ≡ obj d
      → (get_event host id v).0 ≡ ok (some e)
      → e.status ≡ pending
      → castable (obj (decided_payload d e.payload)) ≡ true
      → result.0 ≡ ok a
      → a.status_code ≡ 200
      → (get_event host id result.1).0 ≡ ok (some f)
      → f.status ≡ decision_of d
      → Resolved host id body v result

-- The answer of a resolution as a response.
abbrev answered : Host → Service → Exec HitlResponse → Exec JsonResponse
answered host service m = do result ← m; pure (respond_json host service 200 result)

module _ (host : Host) (service : Service) (id : String) (d : Fields) (status : HitlStatus)
    (decided : decision_of d ≡ status) (fine : is_error status ≡ false) (merge : Fields → Fields)
    (merged : (payload : Fields) → decided_payload d payload ≡ merge payload)
    (hooks : HitlEvent → Exec Done) (keep : (f : HitlEvent) → Keeps (hooks f)) (v : World)
    (m : Exec HitlResponse) where
  Outcome-Resolved :
      Outcome status merge hooks id v (get_event host id v).0 (m v)
      → Resolved host id (obj d) v (answered host service m v)
  unfolding respond_json
  Outcome-Resolved (failed x read q) = unreadable x read (rw q refl)
  Outcome-Resolved (missing read q) =
      not_open (respond_json host service 200 (respond_error (some id) error "Not found"))
        (λ e other. ground (arith, read, other)) (rw q refl) refl
  Outcome-Resolved (refused e read closed q) =
      not_open (respond_json host service 200 (already id e))
        (λ f other. ground (arith, read, other, closed)) (rw q refl) refl
  Outcome-Resolved (unwritten e read waits bad q) =
      not_storable d e refl read waits (ap (λ p. castable (obj p)) (merged e.payload) ∙ bad)
        (rw q refl)
  Outcome-Resolved (done e read waits good q) =
      let written = resolved_world id status (some (merge e.payload)) v in
      let (f, back, status_read) = update_status-read host id e status (merge e.payload) v read in
      settled d e f (respond_json host service 200 (respond (some id) status)) refl read waits
        (ap (λ p. castable (obj p)) (merged e.payload) ∙ good) (rw q refl) (rw fine refl)
        (rw q (
          get_event_of host id _ written (keep (resolved status (merge e.payload) e) written)
          ∙ back))
        (status_read ∙ sym decided)

module _ (host : Host) (service : Service) (engine : HitlEngine) (tame : HasTameHooks engine)
    (id : String) (v : World) where
  resolve_with-Resolved :
      (body : Value) → Resolved host id body v (resolve_with host service engine id body v)
  unfolding resolve_with decision_of
  resolve_with-Resolved (obj d) = elim (Bool-cases (is_true (get "approved" d))) [
    | inl said ↦
        let to_approve : decision_of d ≡ approved = rw said refl in
        rw said (
          Outcome-Resolved host service id d approved to_approve refl
            (approved_payload (get "response" d)) (λ p. rw said refl) (on_approved engine.hooks)
            (λ f u. on_approved-hitl engine.hooks f u tame.at_approval) v
            (approve host engine id (get "response" d))
            (approve-Outcome host engine id (get "response" d) v))
    | inr unsaid ↦
        let to_reject : decision_of d ≡ rejected = rw unsaid refl in
        rw unsaid (
          Outcome-Resolved host service id d rejected to_reject refl
            (rejected_payload (get "reason" d)) (λ p. rw unsaid refl) (on_rejected engine.hooks)
            (λ f u. on_rejected-hitl engine.hooks f u tame.at_rejection) v
            (reject host engine id (get "reason" d))
            (reject-Outcome host engine id (get "reason" d) v))
  ]
  resolve_with-Resolved (arr xs) = no_object refl refl
  resolve_with-Resolved (str s) = no_object refl refl
  resolve_with-Resolved (bool b) = no_object refl refl
  resolve_with-Resolved (float z s) = no_object refl refl
  resolve_with-Resolved (int z) = no_object refl refl
  resolve_with-Resolved null = no_object refl refl

  -- A request that is let in, with a body that is JSON and an engine whose hooks leave the requests
  -- alone, ends in one of the five ways: it is resolved exactly if it was pending and the database
  -- takes the payload of the decision, and then as the body says, approved for JSON's `true` alone;
  -- else nothing changes.
  pub resolve_request-Resolved :
      (req : WebRequest) (body : Value) (w : World)
      → unauthorized service req ≡ false
      → req.body ≡ some body
      → req.path_id ≡ id
      → service.get_engine w ≡ (ok engine, v)
      → Resolved host id body v (resolve_request host service req w)
  unfolding resolve_request
  resolve_request-Resolved req body w let_in read path built =
      rw (let_in, read, path, built) (resolve_with-Resolved body)
