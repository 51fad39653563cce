-- ===== src/Mcp/Guard.antt =====
-- The token of the routes: who is let through, and what a refused request does.
use nodus_hitl_hub.Base.{
  Bool, Bool-cases, Option, Option-cases, String, [], ap, arith, concat, eq_iff, false, inl, inr,
  none, refl, some, true, ◌↔◌, ◌∷◌, ◌≡◌, ◌≢◌,
}
use nodus_hitl_hub.Engine.Defs.{HitlEngine}
use nodus_hitl_hub.Host.{Host}
use nodus_hitl_hub.Json.{Value}
use nodus_hitl_hub.Mcp.Rest.{
  JsonResponse, Route, Service, WebRequest, create_from, create_request, create_route,
  error_response, get_request, get_route, health, health_route, resolve_request, resolve_route,
  resolve_with, respond_json, serve, unauthorized,
}
use nodus_hitl_hub.World.{World}
use nodus_hitl_hub.World.Exec.{Exec, Result, Result-cases, err, ok, pure, ◌>>=◌}

-- A request is refused: a token is set, and the header is not exactly the token's.
abbrev pub IsRefused : Service → WebRequest → Type 0
IsRefused service req =
    (service.service_token ≢ "")
    × (req.authorization ≢ concat ("Bearer " ∷ service.service_token ∷ []))

pub unauthorized_iff :
    (service : Service) (req : WebRequest)
    → (unauthorized service req ≡ true) ↔ IsRefused service req
unfolding unauthorized
unauthorized_iff service req = ground (
  arith,
  eq_iff service.service_token "",
  eq_iff req.authorization (concat ("Bearer " ∷ service.service_token ∷ [])),
)

-- A response with the code 401.
abbrev pub Is401 : Result JsonResponse → Type 0
Is401 r = (a : JsonResponse) × (r ≡ ok a) × (a.status_code ≡ 401)

abbrev pub guarded : Route → Bool
guarded health_route = false
guarded _ = true

module _ (host : Host) (service : Service) (a : JsonResponse) where
  create_from-code :
      (engine : HitlEngine) (body : Value) (w : World)
      → (create_from host service engine body w).0 ≡ ok a
      → a.status_code ≢ 401
  unfolding create_from respond_json
  create_from-code engine body w h = ground (arith, h)

  resolve_with-code :
      (engine : HitlEngine) (id : String) (body : Value) (w : World)
      → (resolve_with host service engine id body w).0 ≡ ok a
      → a.status_code ≢ 401
  unfolding resolve_with respond_json
  resolve_with-code engine id body w h = ground (arith, h)

  -- The two handlers that read a body: an engine that cannot be built raises.
  served-code :
      (handle : HitlEngine → Value → Exec JsonResponse)
      → ((engine : HitlEngine) (body : Value) (w : World)
          → (handle engine body w).0 ≡ ok a
          → a.status_code ≢ 401)
      → (body : Option Value) (w : World)
      → ((service.get_engine >>= λ engine. elim body [
        | none ↦ pure (error_response 400 "invalid_json")
        | some v ↦ handle engine v
      ])
          w).0
        ≡ ok a
      → a.status_code ≢ 401
  served-code handle codes body w h = elim (Result-cases (service.get_engine w).0) [
    | inl (e, unbuilt) ↦ let none_built : err e ≡ ok a = rw unbuilt at h in cc
    | inr (engine, built) ↦ elim (Option-cases body) [
      | inl unread ↦
          let answer : ok (error_response 400 "invalid_json") ≡ ok a = rw (built, unread) at h in
          ground (arith, answer)
      | inr (v, read) ↦ codes engine v (service.get_engine w).1 (rw (built, read) at h)
    ]
  ]

  serve-code :
      (route : Route) (req : WebRequest) (w : World)
      → unauthorized service req ≡ false
      → (serve host service route req w).0 ≡ ok a
      → a.status_code ≢ 401
  unfolding serve health create_request get_request resolve_request
  serve-code health_route req w let_in h = ground (arith, h)
  serve-code get_route req w let_in h = ground (arith, h, let_in)
  serve-code create_route req w let_in h =
      served-code (create_from host service) create_from-code req.body w (rw let_in at h)
  serve-code resolve_route req w let_in h =
      served-code (λ engine. resolve_with host service engine req.path_id)
        (λ engine. resolve_with-code engine req.path_id) req.body w (rw let_in at h)

serve-refused :
    (host : Host) (service : Service) (route : Route) (req : WebRequest) (w : World)
    → guarded route ≡ true
    → unauthorized service req ≡ true
    → serve host service route req w ≡ (ok (error_response 401 "unauthorized"), w)
unfolding serve create_request get_request resolve_request
serve-refused host service health_route req w g u = cc
serve-refused host service create_route req w g u = rw u refl
serve-refused host service get_route req w g u = rw u refl
serve-refused host service resolve_route req w g u = rw u refl

-- For the routes but the probe: the answer is a 401 exactly when the request is refused, a token being
-- set and the header not exactly the token's; then nothing is read or changed, and no engine is built.
pub serve-Is401 :
    (host : Host) (service : Service) (route : Route) (req : WebRequest) (w : World)
    → guarded route ≡ true
    → (Is401 (serve host service route req w).0 ↔ IsRefused service req)
      × (IsRefused service req
          → serve host service route req w ≡ (ok (error_response 401 "unauthorized"), w))
serve-Is401 host service route req w g =
    let refuse = λ (r : IsRefused service req).
      serve-refused host service route req w g ((unauthorized_iff service req).1 r) in
    (
      (
        λ (a, h, code). elim (Bool-cases (unauthorized service req)) [
          | inl refused_one ↦ (unauthorized_iff service req).0 refused_one
          | inr let_in ↦ elim (serve-code host service a route req w let_in h code) [ ]
        ],
        λ r. (
          error_response 401 "unauthorized",
          ap (λ (x : Result JsonResponse × World). x.0) (refuse r),
          refl,
        ),
      ),
      refuse,
    )
