-- ===== src/Mcp/Rest.antt =====
-- mcp/rest.py: the routes.
use nodus_hitl_hub.Base.{
  Bool, Option, String, [], concat, false, if◌then◌else◌, is_full, none, not, some, true, ℕ, ◌==◌,
  ◌∷◌,
}
use nodus_hitl_hub.Base.Int.{pos, ℤ}
use nodus_hitl_hub.Base.Number.{parse_int}
use nodus_hitl_hub.Engine.Defs.{HitlEngine, approve, check, reject, request}
use nodus_hitl_hub.Hooks.Defs.{action_type}
use nodus_hitl_hub.Host.{Host}
use nodus_hitl_hub.Json.{Value, bool, end, field, float, get, int, lookup, obj, or_value, str}
use nodus_hitl_hub.Mcp.Dump.{dump_response}
use nodus_hitl_hub.Models.Hitl.{HitlRequest, HitlResponse, is_error}
use nodus_hitl_hub.World.Exec.{
  Error, Exec, Result, attribute_error, err, key_error, lift, ok, pure, type_error, value_error,
  ◌>>=◌,
}

-- What the handlers use beside the request: the token of the environment, the engine of bootstrap.py,
-- pydantic's text of a time, and the text of an exception.
pub record Service : Type 0 where
  pub service_token : String
  pub get_engine : Exec HitlEngine
  pub json_time : ℕ → String
  pub exc_text : Error → String

-- A request: the header `authorization`, or "" without it; the id in the path; and the body, `none`
-- where it is no JSON.
pub record WebRequest : Type 0 where
  pub authorization : String
  pub path_id : String
  pub body : Option Value

pub record JsonResponse : Type 0 where
  pub status_code : ℕ
  pub content : Value

-- `_unauthorized`
unfoldable pub unauthorized : Service → WebRequest → Bool
unauthorized service req =
    if is_full service.service_token
    then not (req.authorization == concat ("Bearer " ∷ service.service_token ∷ []))
    else false

-- `JSONResponse({"error": text}, status_code=code)`
abbrev pub error_response : ℕ → String → JsonResponse
error_response code text = record {
  status_code = code;
  content = obj (field "error" (str text) end);
}

-- `body[key]`
abbrev pub subscript : String → Value → Result Value
subscript key (obj d) = elim (lookup key d) [ none ↦ err key_error | some v ↦ ok v ]
subscript key _ = err type_error

-- `body.get(key)`
abbrev pub get_attr : String → Value → Result Value
get_attr key (obj d) = ok (get key d)
get_attr key _ = err attribute_error

-- `v is True`
abbrev pub is_true : Value → Bool
is_true (bool b) = b
is_true _ = false

abbrev pub or_error : {A : Type 0} → Option A → Error → Result A
or_error none e = err e
or_error (some a) e = ok a

-- `except (KeyError, TypeError, ValueError)`
abbrev pub is_body_error : Error → Bool
is_body_error key_error = true
is_body_error type_error = true
is_body_error value_error = true
is_body_error _ = false

module _ (host : Host) where
  -- `int(v)`
  unfoldable pub py_int : Value → Result ℤ
  unfolding parse_int
  py_int (int z) = ok z
  py_int (bool b) = ok (pos (if b then 1 else 0))
  py_int (float _ text) = host.float_int text
  py_int (str s) = or_error (parse_int s) value_error
  py_int _ = err type_error

  -- The request that a body describes, built in the order of the arguments; pydantic checks them
  -- last.
  unfoldable pub body_request : Value → Exec HitlRequest
  unfolding py_int
  body_request body = do
    action_type ← lift (subscript "action_type" body)
    action_description ← lift (subscript "action_description" body)
    details ← lift (get_attr "action_details" body)
    user_id ← lift (subscript "user_id" body)
    tenant_id ← lift (get_attr "tenant_id" body)
    given ← lift (get_attr "timeout_seconds" body)
    timeout_seconds ← lift (py_int (or_value given (int (pos 300))))
    metadata ← lift (get_attr "metadata" body)
    action_details ← lift (host.dict_field (or_value details (obj end)))
    metadata_dict ← lift (host.dict_field (or_value metadata (obj end)))
    pure (record {
      action_type = host.py_str action_type;
      action_description = host.py_str action_description;
      action_details = action_details;
      user_id = host.py_str user_id;
      tenant_id = host.py_str (or_value tenant_id (str "default"));
      timeout_seconds = timeout_seconds;
      metadata = metadata_dict;
    })

  -- `/health`
  unfoldable pub health : Service → Exec JsonResponse
  health service w =
      let (built, w') = service.get_engine w in
      (
        ok (elim built [
          | ok _ ↦ record { status_code = 200; content = obj (field "status" (str "ok") end) }
          | err e ↦ record {
            status_code = 503;
            content =
                obj (field "status" (str "error") (field "detail" (str (service.exc_text e)) end));
          }
        ]),
        w',
      )

  -- The answer of an engine as a response, with the code of a success.
  unfoldable pub respond_json : Service → ℕ → HitlResponse → JsonResponse
  unfolding dump_response
  respond_json service code result = record {
    status_code = if is_error result.status then 400 else code;
    content = obj (dump_response service.json_time result);
  }

  -- The handler of `POST /hitl/requests` on a body.
  unfoldable pub create_from : Service → HitlEngine → Value → Exec JsonResponse
  create_from service engine body w =
      let (parsed, w') = body_request body w in
      elim parsed [
        | err e ↦
            if is_body_error e
            then (ok (error_response 400 (concat ("invalid_body: " ∷ service.exc_text e ∷ []))), w')
            else (err e, w')
        | ok req ↦ (do result ← request host engine req; pure (respond_json service 201 result)) w'
      ]

  unfoldable pub create_request : Service → WebRequest → Exec JsonResponse
  create_request service req =
      if unauthorized service req then pure (error_response 401 "unauthorized") else (do
        engine ← service.get_engine
        (elim req.body [
          | none ↦ pure (error_response 400 "invalid_json")
          | some body ↦ create_from service engine body
        ]))

  unfoldable pub get_request : Service → WebRequest → Exec JsonResponse
  unfolding dump_response
  get_request service req =
      if unauthorized service req then pure (error_response 401 "unauthorized") else (do
        engine ← service.get_engine
        result ← check host req.path_id
        pure (record { status_code = 200; content = obj (dump_response service.json_time result) }))

  -- The handler of `POST …/resolve` on a body: only JSON's `true` approves.
  unfoldable pub resolve_with : Service → HitlEngine → String → Value → Exec JsonResponse
  resolve_with service engine id body = do
    said ← lift (get_attr "approved" body)
    response ← lift (get_attr "response" body)
    reason ← lift (get_attr "reason" body)
    result ←
        (if is_true said then approve host engine id response else reject host engine id reason)
    pure (respond_json service 200 result)

  unfoldable pub resolve_request : Service → WebRequest → Exec JsonResponse
  resolve_request service req =
      if unauthorized service req then pure (error_response 401 "unauthorized") else (do
        engine ← service.get_engine
        (elim req.body [
          | none ↦ pure (error_response 400 "invalid_json")
          | some body ↦ resolve_with service engine req.path_id body
        ]))

-- The routes of `register_rest_routes`.
pub data Route : Type 0 where
  health_route create_route get_route resolve_route : Route

unfoldable pub serve : Host → Service → Route → WebRequest → Exec JsonResponse
serve host service health_route req = health host service
serve host service create_route req = create_request host service req
serve host service get_route req = get_request host service req
serve host service resolve_route req = resolve_request host service req
