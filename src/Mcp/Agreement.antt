-- ===== src/Mcp/Agreement.antt =====
-- The two ways to make a request, `POST /hitl/requests` and the tool `hitl_request_confirmation`.
use nodus_hitl_hub.Base.{
  Bool-cases, Option, String, ap, false, if◌then◌else◌, inl, inr, is_full, none, refl, some, ◌≡◌,
}
use nodus_hitl_hub.Base.Int.{is_zero, pos, ℤ}
use nodus_hitl_hub.Engine.Defs.{HitlEngine, request}
use nodus_hitl_hub.Host.{Host}
use nodus_hitl_hub.Json.{Fields, Value, end, field, int, null, obj, or_empty, or_value, str}
use nodus_hitl_hub.Mcp.Dump.{dump_response}
use nodus_hitl_hub.Mcp.Rest.{
  JsonResponse, Service, WebRequest, body_request, create_from, create_request, py_int,
  respond_json, unauthorized,
}
use nodus_hitl_hub.Mcp.Tools.{Factories, hitl_request_confirmation}
use nodus_hitl_hub.Models.Hitl.{HitlRequest}
use nodus_hitl_hub.World.{World}
use nodus_hitl_hub.World.Exec.{Exec, Result, Result-cases, err, ok, pure, ◌>>=◌}

-- A `dict | None` as a value.
abbrev opt_obj : Option Fields → Value
opt_obj none = null
opt_obj (some d) = obj d

-- The arguments of the tool.
pub record Arguments : Type 0 where
  pub action_type : String
  pub action_description : String
  pub user_id : String
  pub action_details : Option Fields
  pub tenant_id : String
  pub timeout_seconds : ℤ
  pub metadata : Option Fields

abbrev pub call : Host → Factories → Arguments → Exec Fields
call host factories args =
    hitl_request_confirmation host factories args.action_type args.action_description args.user_id
      args.action_details args.tenant_id args.timeout_seconds args.metadata

-- The arguments as the body of a `POST`.
abbrev pub body_of : Arguments → Value
body_of args = obj (
    field "action_type" (str args.action_type) (
      field "action_description" (str args.action_description) (
        field "user_id" (str args.user_id) (
          field "action_details" (opt_obj args.action_details) (
            field "tenant_id" (str args.tenant_id) (
              field "timeout_seconds" (int args.timeout_seconds)
                (field "metadata" (opt_obj args.metadata) end)))))))

-- The arguments with the defaults that the route puts in the place of an empty text and of 0.
abbrev pub with_defaults : Arguments → Arguments
with_defaults args = record args {
  tenant_id = if is_full args.tenant_id then args.tenant_id else "default";
  timeout_seconds = if is_zero args.timeout_seconds then pos 300 else args.timeout_seconds;
}

-- The request that the tool makes.
abbrev asked : Arguments → HitlRequest
asked args = record {
  action_type = args.action_type;
  action_description = args.action_description;
  action_details = or_empty args.action_details;
  user_id = args.user_id;
  tenant_id = args.tenant_id;
  timeout_seconds = args.timeout_seconds;
  metadata = or_empty args.metadata;
}

-- The JSON of a response, and of what the tool returns.
abbrev pub content_of : Result JsonResponse → Result Value
content_of (ok response) = ok response.content
content_of (err x) = err x

abbrev pub tool_content : Result Fields → Result Value
tool_content (ok d) = ok (obj d)
tool_content (err x) = err x

opt_obj-or_empty :
    (host : Host) (d : Option Fields)
    → host.dict_field (or_value (opt_obj d) (obj end)) ≡ ok (or_empty d)
opt_obj-or_empty host none = host.dict_field-obj end
opt_obj-or_empty host (some end) = host.dict_field-obj end
opt_obj-or_empty host (some (field k v d)) = host.dict_field-obj (field k v d)

int_or_default :
    (host : Host) (z : ℤ)
    → py_int host (or_value (int z) (int (pos 300))) ≡ ok (if is_zero z then pos 300 else z)
unfolding py_int
int_or_default host z = elim (Bool-cases (is_zero z)) [
  | inl none_given ↦ rw none_given refl
  | inr other ↦ rw other refl
]

str_or_default :
    (host : Host) (s : String)
    → host.py_str (or_value (str s) (str "default")) ≡ (if is_full s then s else "default")
str_or_default host s = elim (Bool-cases (is_full s)) [
  | inl full ↦ rw full (host.py_str-str s)
  | inr empty ↦ rw empty (host.py_str-str "default")
]

body_request-body_of :
    (host : Host) (args : Arguments) (w : World)
    → body_request host (body_of args) w ≡ (ok (asked (with_defaults args)), w)
unfolding body_request
body_request-body_of host args w =
    rw
      (
        int_or_default host args.timeout_seconds,
        opt_obj-or_empty host args.action_details,
        opt_obj-or_empty host args.metadata,
        str_or_default host args.tenant_id,
        host.py_str-str args.action_type,
        host.py_str-str args.action_description,
        host.py_str-str args.user_id,
      )
      refl

-- What a caller sees of the route and of the tool, and what they leave.
abbrev pub seen_of : Result JsonResponse × World → Result Value × World
seen_of (answer, w) = (content_of answer, w)

abbrev pub tool_seen : Result Fields × World → Result Value × World
tool_seen (answer, w) = (tool_content answer, w)

create_from-seen :
    (host : Host) (service : Service) (engine : HitlEngine) (args : Arguments) (w : World)
    → seen_of (create_from host service engine (body_of args) w)
      ≡ tool_seen (
          (do
            result ← request host engine (asked (with_defaults args))
            pure (dump_response service.json_time result))
            w)
unfolding create_from respond_json dump_response
create_from-seen host service engine args w =
    let parsed = body_request-body_of host args w in
    let read = ap (λ (x : Result HitlRequest × World). x.0) parsed in
    let kept = ap (λ (x : Result HitlRequest × World). x.1) parsed in
    elim (Result-cases (request host engine (asked (with_defaults args)) w).0) [
      | inl (x, s) ↦ rw (create_from, read, kept, s) refl
      | inr (answer, s) ↦ rw (create_from, read, kept, s) refl
    ]

-- With the engine and the text of times that the tool has, a request that is let in and has the
-- arguments of the tool as its body gets what the tool returns for them, or raises what it raises,
-- and leaves what it leaves, with "default" in the place of an empty tenant and 300 in that of 0.
pub create_request-hitl_request_confirmation :
    (host : Host) (service : Service) (factories : Factories)
    → factories.hitl_engine_factory ≡ service.get_engine
    → factories.json_time ≡ service.json_time
    → (args : Arguments) (req : WebRequest) (w : World) → unauthorized service req ≡ false
    → req.body ≡ some (body_of args)
    → seen_of (create_request host service req w)
      ≡ tool_seen (call host factories (with_defaults args) w)
unfolding create_request hitl_request_confirmation
create_request-hitl_request_confirmation host service factories engines times args req w let_in
      read =
    elim (Result-cases (service.get_engine w).0) [
      | inl (x, s) ↦ rw (let_in, engines, s) refl
      | inr (engine, s) ↦
          rw (let_in, engines, s, read, times)
            (create_from-seen host service engine args (service.get_engine w).1)
    ]
