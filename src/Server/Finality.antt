-- ===== src/Server/Finality.antt =====
-- The whole process: what comes over HTTP, through the tools and from the relay, one after the other.
use nodus_hitl_hub.Base.{
  All, Bool-cases, List, String, [], inl, inr, refl, some, sym, true, ℕ, ◌+◌, ◌∙◌, ◌∷◌, ◌≡◌, ◌≢◌,
}
use nodus_hitl_hub.Engine.Defs.{HitlEngine, check}
use nodus_hitl_hub.Engine.Final.{IsQuiet, Steps, Steps-final, expires_stale, stay, step}
use nodus_hitl_hub.Engine.Kept.{bind-reads}
use nodus_hitl_hub.Engine.Listener.{on_relay_event-Steps}
use nodus_hitl_hub.Engine.Resolution.{NostrEvent, on_relay_event}
use nodus_hitl_hub.Engine.Steps.{Steps-append, leaving}
use nodus_hitl_hub.Hooks.Expiry.{expire_round}
use nodus_hitl_hub.Host.{Host}
use nodus_hitl_hub.Mcp.Rest.{Service, WebRequest, get_request, get_route, serve, unauthorized}
use nodus_hitl_hub.Mcp.Tools.{Factories, hitl_check_status}
use nodus_hitl_hub.Models.Event.{HitlEvent}
use nodus_hitl_hub.Models.Hitl.{pending}
use nodus_hitl_hub.Notify.Channels.{ChannelAdapter}
use nodus_hitl_hub.Repository.{expire_stale, get_event}
use nodus_hitl_hub.Server.{Entry, check_tool, dict_reply, http_route, serve_app, web_reply}
use nodus_hitl_hub.Server.Routes.{IsServing}
use nodus_hitl_hub.Server.Tools.{SleepSteps, serve_app-Steps}
use nodus_hitl_hub.World.{World}
use nodus_hitl_hub.World.Exec.{Exec, Result-cases, ok, pure, ◌>>=◌}

-- What the process meets: an entry, an event of the relay, a round of the expiry loop, and the passing
-- of time.
pub data Happening : Type 0 where
  comes : Entry → Happening
  relays : NostrEvent → Happening
  expires_due : Happening
  passes : ℕ → Happening

module _ (host : Host) (service : Service) (factories : Factories) (engine : HitlEngine) where
  unfoldable pub happen : Happening → World → World
  happen (comes entry) w = (serve_app host service factories entry w).1
  happen (relays event) w = (on_relay_event host engine event w).1
  happen expires_due w = (expire_round true w).1
  happen (passes time) w = record w { now = w.now + time }

  unfoldable pub run_process : List Happening → World → World
  unfolding happen
  run_process [] w = w
  run_process (h ∷ hs) w = run_process hs (happen h w)

  -- What a request is read as, and what a fetch over HTTP and the tool that checks get, is the same in
  -- two worlds.
  pub record Stays (id : String) (w v : World) : Type 0 where
    pub read : (get_event host id v).0 ≡ (get_event host id w).0
    pub fetched :
        (look : WebRequest)
        → (serve_app host service factories
            (http_route get_route (record look { path_id = id }))
            v).0
          ≡ (serve_app host service factories
              (http_route get_route (record look { path_id = id }))
              w).0
    pub checked :
        (serve_app host service factories (check_tool id) v).0
        ≡ (serve_app host service factories (check_tool id) w).0

abbrev pub SleepsStep : Host → HitlEngine → Happening → Type 0
SleepsStep host engine (comes entry) = SleepSteps host engine entry
SleepsStep host engine _ = Unit

-- A chain whose first part gives the same ends the same.
pure-same :
    {A B : Type 0} (m : Exec A) (g : A → B) (v w : World)
    → (m v).0 ≡ (m w).0
    → ((m >>= λ a. pure (g a)) v).0 ≡ ((m >>= λ a. pure (g a)) w).0
pure-same m g v w same = elim (Result-cases (m w).0) [
  | inl (x, e) ↦
      rw (bind-reads m (λ a. pure (g a)) w e, bind-reads m (λ a. pure (g a)) v (same ∙ e)) refl
  | inr (a, e) ↦
      rw (bind-reads m (λ a. pure (g a)) w e, bind-reads m (λ a. pure (g a)) v (same ∙ e)) refl
]

module _ (host : Host) (service : Service) (factories : Factories) (engine : HitlEngine)
    (adapters : List ChannelAdapter) (ready : IsServing service factories engine adapters) where
  happen-Steps :
      (h : Happening) (w : World)
      → SleepsStep host engine h
      → Steps host engine w (happen host service factories engine h w)
  unfolding happen expire_round expire_stale
  happen-Steps (comes entry) w k =
      serve_app-Steps host service factories engine adapters ready entry w k
  happen-Steps (relays event) w k = on_relay_event-Steps host engine event w
  happen-Steps expires_due w k = step expires_stale stay
  happen-Steps (passes time) w k = leaving host engine refl

  run_process-Steps :
      (hs : List Happening) (w : World)
      → All (SleepsStep host engine) hs
      → Steps host engine w (run_process host service factories engine hs w)
  unfolding run_process
  run_process-Steps [] w k = stay
  run_process-Steps (h ∷ hs) w k =
      Steps-append host engine (happen-Steps h w k.0)
        (run_process-Steps hs (happen host service factories engine h w) k.1)

  module _ (v w : World) where
    check-same :
        (id : String)
        → (get_event host id v).0 ≡ (get_event host id w).0
        → (check host id v).0 ≡ (check host id w).0
    unfolding check
    check-same id same = pure-same (get_event host id) _ v w same

    get_request-same :
        (look : WebRequest)
        → (get_event host look.path_id v).0 ≡ (get_event host look.path_id w).0
        → (get_request host service look v).0 ≡ (get_request host service look w).0
    unfolding get_request
    get_request-same look same = elim (Bool-cases (unauthorized service look)) [
      | inl kept_out ↦ rw kept_out refl
      | inr let_in ↦
          rw (let_in, ready.to_routes v, ready.to_routes w)
            (pure-same (check host look.path_id) _ v w (check-same look.path_id same))
    ]

    check_tool-same :
        (id : String)
        → (get_event host id v).0 ≡ (get_event host id w).0
        → (hitl_check_status host factories id v).0 ≡ (hitl_check_status host factories id w).0
    unfolding hitl_check_status
    check_tool-same id same =
        rw (ready.to_tools v, ready.to_tools w)
          (pure-same (check host id) _ v w (check-same id same))

    same-Stays :
        (id : String)
        → (get_event host id v).0 ≡ (get_event host id w).0
        → Stays host service factories engine id w v
    unfolding serve_app serve
    same-Stays id same = record {
      read = same;
      fetched = λ look.
          pure-same (get_request host service (record look { path_id = id })) web_reply v w
            (get_request-same (record look { path_id = id }) same);
      checked =
          pure-same (hitl_check_status host factories id) dict_reply v w (check_tool-same id same);
    }

  -- For a process that has built an engine that leaves the requests alone beside its own writes: a
  -- request that is read with any status but pending is read the same, and a fetch over HTTP and the
  -- tool that checks get the same of it, after whatever comes over HTTP, through the tools and from the
  -- relay, expires and waits, one after the other, if the tasks that run while the tool that waits
  -- sleeps change the requests by the engine alone.
  pub run_process-Stays :
      (quiet : IsQuiet engine) (id : String) (e : HitlEvent) (hs : List Happening) (w : World)
      → All (SleepsStep host engine) hs
      → (get_event host id w).0 ≡ ok (some e)
      → e.status ≢ pending
      → Stays host service factories engine id w (run_process host service factories engine hs w)
  run_process-Stays quiet id e hs w k final closed =
      same-Stays _ w id
        (Steps-final host engine quiet id e closed (run_process-Steps hs w k) final ∙ sym final)
