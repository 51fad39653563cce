-- ===== src/Mcp/Shapes.antt =====
-- The answers of the routes, by their codes and contents.
use nodus_hitl_hub.Base.{
  Bool, Bool-cases, List, Option-cases, String, [], any, arith, concat, if◌then◌else◌, inl, inr,
  nat_eq, refl, subst, true, ℕ, ◌||◌, ◌∷◌, ◌≡◌,
}
use nodus_hitl_hub.Engine.Defs.{HitlEngine, approve, check, reject, request}
use nodus_hitl_hub.Engine.Kept.{bind-ok}
use nodus_hitl_hub.Host.{Host}
use nodus_hitl_hub.Json.{Fields, Value, contains, end, field, obj, str}
use nodus_hitl_hub.Mcp.Dump.{dump_response}
use nodus_hitl_hub.Mcp.Rest.{
  JsonResponse, Route, Service, WebRequest, body_request, create_from, create_request, create_route,
  error_response, get_attr, get_request, get_route, health, health_route, is_body_error, is_true,
  resolve_request, resolve_route, resolve_with, respond_json, serve, unauthorized,
}
use nodus_hitl_hub.Models.Hitl.{HitlResponse, is_error}
use nodus_hitl_hub.World.{World}
use nodus_hitl_hub.World.Exec.{Exec, Result, Result-cases, lift, ok, pure, ◌>>=◌}

-- The codes of a route.
abbrev pub codes_of : Route → List ℕ
codes_of health_route = 200 ∷ 503 ∷ []
codes_of create_route = 201 ∷ 400 ∷ 401 ∷ []
codes_of get_route = 200 ∷ 401 ∷ []
codes_of resolve_route = 200 ∷ 400 ∷ 401 ∷ []

abbrev pub has_code : List ℕ → ℕ → Bool
has_code codes code = any (nat_eq code) codes

-- An answer has one of the codes, and is a JSON object, under `status` or `error` of which a client
-- finds what became of the request.
pub record IsShaped (codes : List ℕ) (a : JsonResponse) : Type 0 where
  pub fields : Fields
  pub as_object : a.content ≡ obj fields
  pub coded : has_code codes a.status_code ≡ true
  pub told : (contains "status" fields || contains "error" fields) ≡ true

module _ (codes : List ℕ) where
  error_response-IsShaped :
      (code : ℕ) (text : String)
      → has_code codes code ≡ true
      → (a : JsonResponse) → Path (Result JsonResponse) (ok (error_response code text)) (ok a)
      → IsShaped codes a
  error_response-IsShaped code text allowed a h =
      let same : error_response code text ≡ a = ground (arith, h) in
      subst (IsShaped codes) same (record {
        fields = field "error" (str text) end;
        as_object = refl;
        coded = allowed;
        told = refl;
      })

  respond_json-IsShaped :
      (host : Host) (service : Service) (code : ℕ) (r : HitlResponse)
      → has_code codes code ≡ true
      → has_code codes 400 ≡ true
      → IsShaped codes (respond_json host service code r)
  unfolding respond_json dump_response
  respond_json-IsShaped host service code r fine bad = record {
    fields = dump_response service.json_time r;
    as_object = refl;
    coded = elim (Bool-cases (is_error r.status)) [ inl e ↦ rw e bad | inr n ↦ rw n fine ];
    told = refl;
  }

  -- What ends with the answer of the engine.
  responds-IsShaped :
      (host : Host) (service : Service) (code : ℕ) (m : Exec HitlResponse) (w : World)
      (a : JsonResponse)
      → has_code codes code ≡ true
      → has_code codes 400 ≡ true
      → ((m >>= λ result. pure (respond_json host service code result)) w).0 ≡ ok a
      → IsShaped codes a
  responds-IsShaped host service code m w a fine bad h =
      let (r, ran, gave) = bind-ok m (λ result. pure (respond_json host service code result)) w h in
      let same : respond_json host service code r ≡ a = ground (arith, gave) in
      subst (IsShaped codes) same (respond_json-IsShaped host service code r fine bad)

module _ (host : Host) (service : Service) (w : World) (a : JsonResponse) where
  health-IsShaped : (health host service w).0 ≡ ok a → IsShaped (codes_of health_route) a
  unfolding health
  health-IsShaped h = elim (Result-cases (service.get_engine w).0) [
    | inl (x, e) ↦
        let same : record {
          status_code = 503;
          content =
              obj (field "status" (str "error") (field "detail" (str (service.exc_text x)) end));
        }
            ≡ a =
          ground (arith, h, e) in
        subst (IsShaped (codes_of health_route)) same
          (record { fields = _; as_object = refl; coded = refl; told = refl })
    | inr (built, e) ↦
        let same : record { status_code = 200; content = obj (field "status" (str "ok") end) } ≡ a =
          ground (arith, h, e) in
        subst (IsShaped (codes_of health_route)) same
          (record { fields = _; as_object = refl; coded = refl; told = refl })
  ]

  create_from-IsShaped :
      (engine : HitlEngine) (body : Value) (v : World)
      → (create_from host service engine body v).0 ≡ ok a
      → IsShaped (codes_of create_route) a
  unfolding create_from
  create_from-IsShaped engine body v h = elim (Result-cases (body_request host body v).0) [
    | inl (x, e) ↦ elim (Bool-cases (is_body_error x)) [
      | inl mild ↦
          error_response-IsShaped (codes_of create_route) 400
            (concat ("invalid_body: " ∷ service.exc_text x ∷ [])) refl a
            (ground (arith, h, e, mild))
      | inr grave ↦ ground (arith, h, e, grave)
    ]
    | inr (r, e) ↦
        responds-IsShaped (codes_of create_route) host service 201 (request host engine r)
          (body_request host body v).1 a refl refl (rw (create_from, e) at h)
  ]

  create_request-IsShaped :
      (req : WebRequest)
      → (create_request host service req w).0 ≡ ok a
      → IsShaped (codes_of create_route) a
  unfolding create_request
  create_request-IsShaped req h = elim (Bool-cases (unauthorized service req)) [
    | inl out ↦
        error_response-IsShaped (codes_of create_route) 401 "unauthorized" refl a (rw out at h)
    | inr into ↦
        let (engine, built, answer) = bind-ok service.get_engine _ w (rw into at h) in
        elim (Option-cases req.body) [
          | inl no_json ↦
              error_response-IsShaped (codes_of create_route) 400 "invalid_json" refl a
                (rw no_json at answer)
          | inr (body, given) ↦
              create_from-IsShaped engine body (service.get_engine w).1 (rw given at answer)
        ]
  ]

  get_request-IsShaped :
      (req : WebRequest)
      → (get_request host service req w).0 ≡ ok a
      → IsShaped (codes_of get_route) a
  unfolding get_request dump_response
  get_request-IsShaped req h = elim (Bool-cases (unauthorized service req)) [
    | inl out ↦ error_response-IsShaped (codes_of get_route) 401 "unauthorized" refl a (rw out at h)
    | inr into ↦
        let (engine, built, answer) = bind-ok service.get_engine _ w (rw into at h) in
        let (r, ran, gave) = bind-ok (check host req.path_id) _ (service.get_engine w).1 answer in
        let same : record { status_code = 200; content = obj (dump_response service.json_time r) }
            ≡ a =
          ground (arith, gave) in
        subst (IsShaped (codes_of get_route)) same (record {
          fields = dump_response service.json_time r;
          as_object = refl;
          coded = refl;
          told = refl;
        })
  ]

  resolve_with-IsShaped :
      (engine : HitlEngine) (id : String) (body : Value) (v : World)
      → (resolve_with host service engine id body v).0 ≡ ok a
      → IsShaped (codes_of resolve_route) a
  unfolding resolve_with
  resolve_with-IsShaped engine id body v h =
      let (said, s, h1) = bind-ok (lift (get_attr "approved" body)) _ v h in
      let (response, r, h2) = bind-ok (lift (get_attr "response" body)) _ v h1 in
      let (reason, n, h3) = bind-ok (lift (get_attr "reason" body)) _ v h2 in
      responds-IsShaped (codes_of resolve_route) host service 200
        (if is_true said then approve host engine id response else reject host engine id reason) v a
        refl refl h3

  resolve_request-IsShaped :
      (req : WebRequest)
      → (resolve_request host service req w).0 ≡ ok a
      → IsShaped (codes_of resolve_route) a
  unfolding resolve_request
  resolve_request-IsShaped req h = elim (Bool-cases (unauthorized service req)) [
    | inl out ↦
        error_response-IsShaped (codes_of resolve_route) 401 "unauthorized" refl a (rw out at h)
    | inr into ↦
        let (engine, built, answer) = bind-ok service.get_engine _ w (rw into at h) in
        elim (Option-cases req.body) [
          | inl no_json ↦
              error_response-IsShaped (codes_of resolve_route) 400 "invalid_json" refl a
                (rw no_json at answer)
          | inr (body, given) ↦
              resolve_with-IsShaped engine req.path_id body (service.get_engine w).1
                (rw given at answer)
        ]
  ]

  -- Whatever comes to a route, an answer has one of the codes of the route, and is a JSON object with a
  -- status or an error in it.
  pub serve-IsShaped :
      (route : Route) (req : WebRequest)
      → (serve host service route req w).0 ≡ ok a
      → IsShaped (codes_of route) a
  unfolding serve
  serve-IsShaped health_route req h = health-IsShaped h
  serve-IsShaped create_route req h = create_request-IsShaped req h
  serve-IsShaped get_route req h = get_request-IsShaped req h
  serve-IsShaped resolve_route req h = resolve_request-IsShaped req h
