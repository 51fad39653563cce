-- ===== src/Mcp/Creations.antt =====
-- `POST /hitl/requests`, and `GET /hitl/requests/{id}` after it.
use nodus_hitl_hub.Base.{
  Bool-cases, List, String, [], arith, concat, false, inl, inr, none, refl, some, true, ◌∷◌, ◌≡◌,
}
use nodus_hitl_hub.Engine.Create.{Creation, key_taken, made, unmade, unowned, unstored}
use nodus_hitl_hub.Engine.Defs.{HitlEngine, acceptance, check, refusal, repetition, request}
use nodus_hitl_hub.Engine.Fresh.{IsFresh}
use nodus_hitl_hub.Engine.Kept.{IsTame}
use nodus_hitl_hub.Engine.Request.{
  Answer, fresh, invalid, judged, key_of, repeated, request-Answer, unjudged, unsearched,
}
use nodus_hitl_hub.Host.{Host}
use nodus_hitl_hub.Json.{Value, obj}
use nodus_hitl_hub.Mcp.Dump.{dump_response}
use nodus_hitl_hub.Mcp.Rest.{
  JsonResponse, Service, WebRequest, body_request, create_from, create_request, error_response,
  get_request, is_body_error, respond_json, unauthorized,
}
use nodus_hitl_hub.Models.Event.{HitlEvent}
use nodus_hitl_hub.Models.Hitl.{HitlRequest, HitlResponse, pending, respond}
use nodus_hitl_hub.Repository.{get_by_idempotency_key, get_event}
use nodus_hitl_hub.Repository.Updates.{get_event_reads, stored}
use nodus_hitl_hub.World.{World}
use nodus_hitl_hub.World.Exec.{
  Error, Exec, Result, Result-cases, err, external, ok, pure, unique_violation, ◌>>=◌,
}

-- What a request that names an id and is let in gets from an engine that is built already.
abbrev pub Shows : Host → Service → String → World → HitlResponse → Type 0
Shows host service id u shown =
    (req : WebRequest)
    → unauthorized service req ≡ false
    → req.path_id ≡ id
    → get_request host service req u ≡ (
      ok (record { status_code = 200; content = obj (dump_response service.json_time shown) }),
      u,
    )

-- How a creation ends for a body that is JSON, `v` being the world in which it starts and `judge`
-- the validation.
pub data Posted (host : Host) (service : Service) (engine : HitlEngine) (body : Value) (v : World)
    (result : Result JsonResponse × World) : Type 0 where
  -- The body is no request: a 400, and nothing changes.
  malformed :
      (x : Error) (a : JsonResponse)
      → (body_request host body v).0 ≡ err x
      → is_body_error x ≡ true
      → result ≡ (ok a, v)
      → a.status_code ≡ 400
      → Posted host service engine body v result
  -- The reading of the body raises something else: so does the handler.
  broken :
      (x : Error)
      → (body_request host body v).0 ≡ err x
      → is_body_error x ≡ false
      → result ≡ (err x, v)
      → Posted host service engine body v result
  -- The engine raises: so does the handler, and no request is stored since the validation.
  crashed :
      (r : HitlRequest) (x : Error)
      → (body_request host body v).0 ≡ ok r
      → result.0 ≡ err x
      → result.1.hitl ≡ (judged engine r v).1.hitl
      → Posted host service engine body v result
  -- The validators refuse the request: a 400, and nothing changes since the validation.
  not_accepted :
      (r : HitlRequest) (e : String) (es : List String) (a : JsonResponse)
      → (body_request host body v).0 ≡ ok r
      → (judged engine r v).0 ≡ ok (e ∷ es)
      → result ≡ (ok a, (judged engine r v).1)
      → a.status_code ≡ 400
      → Posted host service engine body v result
  -- A retry: a 201 with the request that has the key, or a 400 if its status is an error; nothing
  -- changes since the validation.
  retried :
      (r : HitlRequest) (e : HitlEvent)
      → (body_request host body v).0 ≡ ok r
      → (get_by_idempotency_key host (key_of r) (judged engine r v).1).0 ≡ ok (some e)
      → result ≡ (ok (respond_json host service 201 (repetition e)), (judged engine r v).1)
      → Posted host service engine body v result
  -- A new request: a 201 with its id, under which it is shown as pending right then.
  posted :
      (r : HitlRequest) (e : HitlEvent)
      → (body_request host body v).0 ≡ ok r
      → IsFresh r (judged engine r v).1.now e
      → result.0 ≡ ok (respond_json host service 201 (acceptance e))
      → Shows host service e.event_id result.1 (respond (some e.event_id) pending)
      → Posted host service engine body v result

pub body_request_reads : (host : Host) (body : Value) (w : World) → (body_request host body w).1 ≡ w
unfolding body_request
body_request_reads host body w = ground arith

-- What `check` answers on a read that is pending and unresolved.
get_request-Shows :
    (host : Host) (service : Service) (engine : HitlEngine) (e : HitlEvent) (u : World)
    → service.get_engine u ≡ (ok engine, u)
    → (get_event host e.event_id u).0 ≡ ok (some e)
    → e.status ≡ pending
    → e.resolved_at ≡ none
    → Shows host service e.event_id u (respond (some e.event_id) pending)
unfolding get_request check
get_request-Shows host service engine e u built read waits unresolved req let_in path =
    rw (let_in, built, path)
      (rw (read, get_event_reads host e.event_id u, waits, unresolved) (rw path refl))

module _ (host : Host) (service : Service) (engine : HitlEngine) (body : Value) (v : World)
    (r : HitlRequest) (parsed : (body_request host body v).0 ≡ ok r) where
  -- The rest of the handler, on the answer of the engine.
  abbrev posting : Exec HitlResponse → Result JsonResponse × World
  posting m = (do result ← m; pure (respond_json host service 201 result)) v

  Creation-Posted :
      ((u : World) → service.get_engine u ≡ (ok engine, u))
      → (m : Exec HitlResponse) → Creation host r (judged engine r v).1 (m v)
      → Posted host service engine body v (posting m)
  Creation-Posted built m (unmade x s q same) = crashed r x parsed (rw q refl) (rw q same)
  Creation-Posted built m (unowned e s wrong q same) =
      crashed r external parsed (rw q refl) (rw q same)
  Creation-Posted built m (unstored e asked bad q same) =
      crashed r external parsed (rw q refl) (rw q same)
  Creation-Posted built m (key_taken e asked clash q same) =
      crashed r unique_violation parsed (rw q refl) (rw q same)
  Creation-Posted built m (made e relay asked free q read by_key) =
      posted r e parsed asked (rw q refl) (
        rw q (
          get_request-Shows host service engine (record (stored e) { relay_url = relay }) _
            (built (m v).1) read asked.is_waiting refl))

  Answer-Posted :
      ((u : World) → service.get_engine u ≡ (ok engine, u))
      → (m : Exec HitlResponse)
      → Answer host r
          (judged engine r v).0
          (get_by_idempotency_key host (key_of r) (judged engine r v).1).0
          (judged engine r v).1
          (m v)
      → Posted host service engine body v (posting m)
  unfolding respond_json
  Answer-Posted built m (unjudged x s q) = crashed r x parsed (rw q refl) (rw q refl)
  Answer-Posted built m (invalid e es s q) =
      not_accepted r e es (respond_json host service 201 (refusal (e ∷ es))) parsed s (rw q refl)
        refl
  Answer-Posted built m (unsearched x s keyed f q) = crashed r x parsed (rw q refl) (rw q refl)
  Answer-Posted built m (repeated e s keyed f q) = retried r e parsed f (rw q refl)
  Answer-Posted built m (fresh s f creation) = Creation-Posted built m creation

-- For an engine that is built, whose plugins and relay client leave the requests alone, a request
-- that is let in with a body that is JSON ends in one of the six ways: in a 201 exactly if the
-- request is stored then or was before, and a fetch right after it shows a new one as pending.
pub create_request-Posted :
    (host : Host) (service : Service) (engine : HitlEngine) (tame : IsTame engine)
    (req : WebRequest) (body : Value) (w : World)
    → ((u : World) → service.get_engine u ≡ (ok engine, u))
    → unauthorized service req ≡ false
    → req.body ≡ some body
    → Posted host service engine body w (create_request host service req w)
unfolding create_request create_from
create_request-Posted host service engine tame req body w built let_in read =
    elim (Result-cases (body_request host body w).0) [
      | inl (x, wrong) ↦ elim (Bool-cases (is_body_error x)) [
        | inl mild ↦
            malformed x (error_response 400 (concat ("invalid_body: " ∷ service.exc_text x ∷ [])))
              wrong mild
              (rw (let_in, built w, read, create_from, wrong, mild, body_request_reads host body w)
                refl)
              refl
        | inr grave ↦ broken x wrong grave (
            rw (let_in, built w, read, create_from, wrong, grave, body_request_reads host body w)
              refl)
      ]
      | inr (r, parsed) ↦
          rw (let_in, built w, read, create_from, parsed, body_request_reads host body w)
            (Answer-Posted host service engine body w r parsed built (request host engine r)
              (request-Answer host engine tame r w))
    ]
