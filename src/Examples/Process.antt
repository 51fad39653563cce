-- ===== src/Examples/Process.antt =====
-- The process that bootstrap.py builds, from its entries.
use nodus_hitl_hub.Base.{List, [], arith, none, refl, some, ◌+◌, ◌∷◌}
use nodus_hitl_hub.Base.Int.{pos}
use nodus_hitl_hub.Bootstrap.{assemble}
use nodus_hitl_hub.Bootstrap.Wiring.{hub_plugins-leave}
use nodus_hitl_hub.Bridge.Session.{new_bridge}
use nodus_hitl_hub.Engine.Defs.{HitlEngine}
use nodus_hitl_hub.Engine.Final.{IsQuiet}
use nodus_hitl_hub.Engine.Steps.{leaving}
use nodus_hitl_hub.Examples.Data.{mail_payload, strict_host}
use nodus_hitl_hub.Examples.Resolved.{closed_event, closed_event_read, closed_hub, owner_says_yes}
use nodus_hitl_hub.Examples.Served.{trusting, yes_request}
use nodus_hitl_hub.Examples.Started.{hub, offline, send_delete, send_post}
use nodus_hitl_hub.Mcp.Rest.{Service, resolve_route}
use nodus_hitl_hub.Mcp.Tools.{Factories}
use nodus_hitl_hub.Models.Time.{isoformat}
use nodus_hitl_hub.Notify.Keeping.{AdaptersLeave}
use nodus_hitl_hub.Repository.Updates.{stored}
use nodus_hitl_hub.Server.{http_route, request_tool, send_tool, wait_tool}
use nodus_hitl_hub.Server.Finality.{
  Happening, Stays, comes, expires_due, passes, relays, run_process, run_process-Stays,
}
use nodus_hitl_hub.World.{World}
use nodus_hitl_hub.World.Exec.{external, pure, raise}

abbrev hub_engine : HitlEngine
hub_engine = assemble hub offline

abbrev hub_service : Service
hub_service = record trusting { get_engine = pure hub_engine }

abbrev hub_tools : Factories
hub_tools = record {
  hitl_engine_factory = pure hub_engine;
  notify_engine_factory = pure hub.adapters;
  json_time = isoformat;
}

abbrev dozing : World → World
dozing w = record w { now = w.now + 2000000 }

-- A request that is resolved, and then what the process may meet.
abbrev late_day : List Happening
late_day =
    comes (http_route resolve_route yes_request)
    ∷ relays owner_says_yes
    ∷ passes 600000000
    ∷ expires_due
    ∷ comes (request_tool "send_email" "Send a mail" "7" (some mail_payload) "acme" (pos 300) none)
    ∷ comes (wait_tool dozing 3 "hitl_1" (pos 3))
    ∷ comes (send_tool "7" "Frost" "Tonight" "urgent" none none "acme")
    ∷ []

hub-leaves : IsQuiet hub_engine × AdaptersLeave (λ w. w.hitl) hub.adapters
unfolding new_bridge
hub-leaves =
    hub_plugins-leave strict_host (some send_delete) send_post "http://m"
      (λ url headers body. raise external) (λ key. none) offline (λ key w. refl)
      (λ url body w. refl) (λ url headers body w. refl) tt

run_process-Stays_example :
    Stays strict_host hub_service hub_tools hub_engine "hitl_1" closed_hub
      (run_process strict_host hub_service hub_tools hub_engine late_day closed_hub)
run_process-Stays_example =
    run_process-Stays strict_host hub_service hub_tools hub_engine hub.adapters
      (record {
        to_routes = λ w. refl;
        to_tools = λ w. refl;
        to_notices = λ w. refl;
        leave_requests = hub-leaves.1;
      })
      hub-leaves.0 "hitl_1" (stored closed_event) late_day closed_hub
      (tt, (tt, (tt, (tt, (tt, ((λ w. leaving strict_host hub_engine refl), (tt, tt)))))))
      closed_event_read (λ p. ground (arith, p))
