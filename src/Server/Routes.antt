-- ===== src/Server/Routes.antt =====
-- What the routes and the tools do to the requests, as steps of the engine.
use nodus_hitl_hub.Base.{
  Bool-cases, List, Option, Option-cases, String, inl, inr, refl, suc, zero, ℕ, ◌≡◌,
}
use nodus_hitl_hub.Base.Int.{ℤ}
use nodus_hitl_hub.Engine.Defs.{HitlEngine, approve, check, reject, request}
use nodus_hitl_hub.Engine.Final.{Steps, approves, rejects, requests, stay, step}
use nodus_hitl_hub.Engine.Steps.{Steps-append, Steps-eq, pure-Steps}
use nodus_hitl_hub.Engine.Wait.{wait, wait_loop}
use nodus_hitl_hub.Engine.Waiting.{
  Verdict, absent, decided, goes_on, lapsed, late, raised, stops, wait_loop-Round,
}
use nodus_hitl_hub.Host.{Host}
use nodus_hitl_hub.Json.{Value, arr, bool, float, get, int, null, obj, str}
use nodus_hitl_hub.Mcp.Creations.{body_request_reads}
use nodus_hitl_hub.Mcp.Rest.{
  Route, Service, WebRequest, body_request, create_from, create_request, create_route, get_request,
  get_route, health, health_route, is_body_error, is_true, resolve_request, resolve_route,
  resolve_with, respond_json, serve, unauthorized,
}
use nodus_hitl_hub.Mcp.Tools.{Factories}
use nodus_hitl_hub.Models.Event.{add_seconds}
use nodus_hitl_hub.Models.Hitl.{HitlResponse}
use nodus_hitl_hub.Notify.Channels.{ChannelAdapter}
use nodus_hitl_hub.Notify.Keeping.{AdaptersLeave}
use nodus_hitl_hub.Repository.{get_event}
use nodus_hitl_hub.Repository.Updates.{get_event_reads}
use nodus_hitl_hub.World.{World}
use nodus_hitl_hub.World.Exec.{Result, Result-cases, ok}

-- The process has built the engine and the adapters, and its calls get them.
pub record IsServing (service : Service) (factories : Factories) (engine : HitlEngine)
    (adapters : List ChannelAdapter) : Type 0 where
  pub to_routes : (w : World) → service.get_engine w ≡ (ok engine, w)
  pub to_tools : (w : World) → factories.hitl_engine_factory w ≡ (ok engine, w)
  pub to_notices : (w : World) → factories.notify_engine_factory w ≡ (ok adapters, w)
  pub leave_requests : AdaptersLeave (λ u. u.hitl) adapters

pub check-Steps :
    (host : Host) (engine : HitlEngine) (id : String) (w : World)
    → Steps host engine w (check host id w).1
unfolding check
check-Steps host engine id w =
    pure-Steps host engine (get_event host id) _ w
      (Steps-eq host engine stay (get_event_reads host id w))

module _ (host : Host) (service : Service) (engine : HitlEngine)
    (built : (w : World) → service.get_engine w ≡ (ok engine, w)) where
  health-Steps : (w : World) → Steps host engine w (health host service w).1
  unfolding health
  health-Steps w = rw (built w) stay

  create_from-Steps :
      (body : Value) (w : World) → Steps host engine w (create_from host service engine body w).1
  unfolding create_from
  create_from-Steps body w = elim (Result-cases (body_request host body w).0) [
    | inl (x, wrong) ↦ elim (Bool-cases (is_body_error x)) [
      | inl mild ↦ rw (create_from, wrong, mild, body_request_reads host body w) stay
      | inr grave ↦ rw (create_from, wrong, grave, body_request_reads host body w) stay
    ]
    | inr (r, parsed) ↦
        rw (create_from, parsed, body_request_reads host body w)
          (pure-Steps host engine (request host engine r) (respond_json host service 201) w
            (step (requests r) stay))
  ]

  create_request-Steps :
      (req : WebRequest) (w : World) → Steps host engine w (create_request host service req w).1
  unfolding create_request
  create_request-Steps req w = elim (Bool-cases (unauthorized service req)) [
    | inl kept_out ↦ rw kept_out stay
    | inr let_in ↦ elim (Option-cases req.body) [
      | inl no_json ↦ rw (let_in, built w, no_json) stay
      | inr (body, given) ↦ rw (let_in, built w, given) (create_from-Steps body w)
    ]
  ]

  get_request-Steps :
      (req : WebRequest) (w : World) → Steps host engine w (get_request host service req w).1
  unfolding get_request
  get_request-Steps req w = elim (Bool-cases (unauthorized service req)) [
    | inl kept_out ↦ rw kept_out stay
    | inr let_in ↦
        rw (let_in, built w)
          (pure-Steps host engine (check host req.path_id) _ w
            (check-Steps host engine req.path_id w))
  ]

  resolve_with-Steps :
      (id : String) (body : Value) (w : World)
      → Steps host engine w (resolve_with host service engine id body w).1
  unfolding resolve_with
  resolve_with-Steps id (obj d) w = elim (Bool-cases (is_true (get "approved" d))) [
    | inl said ↦ rw said (
        pure-Steps host engine (approve host engine id (get "response" d))
          (respond_json host service 200) w (step (approves id (get "response" d)) stay))
    | inr unsaid ↦ rw unsaid (
        pure-Steps host engine (reject host engine id (get "reason" d))
          (respond_json host service 200) w (step (rejects id (get "reason" d)) stay))
  ]
  resolve_with-Steps id (arr xs) w = stay
  resolve_with-Steps id (str s) w = stay
  resolve_with-Steps id (bool b) w = stay
  resolve_with-Steps id (float z s) w = stay
  resolve_with-Steps id (int z) w = stay
  resolve_with-Steps id null w = stay

  resolve_request-Steps :
      (req : WebRequest) (w : World) → Steps host engine w (resolve_request host service req w).1
  unfolding resolve_request
  resolve_request-Steps req w = elim (Bool-cases (unauthorized service req)) [
    | inl kept_out ↦ rw kept_out stay
    | inr let_in ↦ elim (Option-cases req.body) [
      | inl no_json ↦ rw (let_in, built w, no_json) stay
      | inr (body, given) ↦ rw (let_in, built w, given) (resolve_with-Steps req.path_id body w)
    ]
  ]

  -- A request over HTTP is at most one call of the engine.
  pub serve-Steps :
      (route : Route) (req : WebRequest) (w : World)
      → Steps host engine w (serve host service route req w).1
  unfolding serve
  serve-Steps health_route req w = health-Steps w
  serve-Steps create_route req w = create_request-Steps req w
  serve-Steps get_route req w = get_request-Steps req w
  serve-Steps resolve_route req w = resolve_request-Steps req w

-- A wait leaves the world in which it ends.
Verdict-still :
    (host : Host) (id : String) (max_wait : ℤ) (deadline : ℕ) (v : World)
    (result : Result (Option HitlResponse) × World)
    → Verdict host id max_wait deadline v result
    → result.1 ≡ v
Verdict-still host id max_wait deadline v result (raised x go r q) = rw q refl
Verdict-still host id max_wait deadline v result (absent go r q) = rw q refl
Verdict-still host id max_wait deadline v result (decided e go r d q) = rw q refl
Verdict-still host id max_wait deadline v result (lapsed e go r d q) = rw q refl
Verdict-still host id max_wait deadline v result (late over q) = rw q refl

module _ (host : Host) (engine : HitlEngine) (sleep : World → World)
    (others : (w : World) → Steps host engine w (sleep w)) (id : String) (max_wait : ℤ) where
  wait_loop-Steps :
      (fuel deadline : ℕ) (w : World)
      → Steps host engine w (wait_loop host sleep id max_wait fuel deadline w).1
  unfolding wait_loop
  wait_loop-Steps zero deadline w = stay
  wait_loop-Steps (suc fuel) deadline w =
      elim (wait_loop-Round host sleep id max_wait fuel deadline w) [
        | goes_on e go r u j q ↦
            rw q (Steps-append host engine (others w) (wait_loop-Steps fuel deadline (sleep w)))
        | stops verdict ↦
            Steps-eq host engine stay (Verdict-still host id max_wait deadline w _ verdict)
      ]

  -- A wait does to the requests what the other tasks do during its sleeps.
  pub wait-Steps :
      (fuel : ℕ) (w : World) → Steps host engine w (wait host sleep id max_wait fuel w).1
  unfolding wait
  wait-Steps fuel w = elim (Result-cases (add_seconds w.now max_wait)) [
    | inl (x, overflow) ↦ rw overflow stay
    | inr (deadline, s) ↦ rw s (wait_loop-Steps fuel deadline w)
  ]
