-- ===== src/Bootstrap/Wiring.antt =====
-- The engine that the process builds: the hub's own plugins around the bridge.
use nodus_hitl_hub.Base.{All, List, Option, String, refl, some}
use nodus_hitl_hub.Bootstrap.{Plugins, assemble}
use nodus_hitl_hub.Bridge.{NostrBridge}
use nodus_hitl_hub.Bridge.Session.{start_resolution_listener}
use nodus_hitl_hub.Channels.Defs.{Post, hub_adapters}
use nodus_hitl_hub.Channels.Keeping.{hub_adapters-leave}
use nodus_hitl_hub.Engine.Final.{IsQuiet}
use nodus_hitl_hub.Engine.Kept.{ClientKeeps, Keeps}
use nodus_hitl_hub.Hooks.Defs.{hub_hooks}
use nodus_hitl_hub.Hooks.Keeping.{CacheKeeps, PostKeeps, hub_hooks-keep}
use nodus_hitl_hub.Host.{Host}
use nodus_hitl_hub.Json.{Fields, Value}
use nodus_hitl_hub.Notifiers.{hub_notifiers}
use nodus_hitl_hub.Notify.Keeping.{AdaptersLeave}
use nodus_hitl_hub.Validators.Defs.{Validator}
use nodus_hitl_hub.Validators.Plugins.{discovered}
use nodus_hitl_hub.World.Exec.{Done, Exec}

-- What the discovery finds.
abbrev pub hub_plugins :
    Host
    → Option (String → Exec Done)
    → (String → Value → Exec Done)
    → String
    → Post
    → (String → Option String)
    → Plugins
hub_plugins host redis post variable push getenv = record {
  validators = discovered;
  hooks = hub_hooks host redis post variable;
  notifiers = hub_notifiers;
  adapters = hub_adapters push getenv;
}

-- The validators of the hub look at the request alone.
pub discovered-Keeps :
    All
      (λ (v : Validator). (action : String) (payload : Fields) → Keeps (v.validate action payload))
      discovered
discovered-Keeps = (
  λ a p w. refl,
  (λ a p w. refl, (λ a p w. refl, (λ a p w. refl, (λ a p w. refl, (λ a p w. refl, tt))))),
)

assemble-IsQuiet :
    (host : Host) (redis : Option (String → Exec Done)) (post : String → Value → Exec Done)
    (variable : String) (push : Post) (getenv : String → Option String) (bridge : NostrBridge)
    → CacheKeeps redis
    → PostKeeps post
    → ClientKeeps (some bridge)
    → IsQuiet (assemble (hub_plugins host redis post variable push getenv) bridge)
unfolding assemble start_resolution_listener
assemble-IsQuiet host redis post variable push getenv bridge c p k =
    let (created, at_approved, at_rejected) = hub_hooks-keep host redis post variable c p in
    record {
      validating = discovered-Keeps;
      creating = record { hooks = created; plugins = (λ e w. refl, (λ e w. refl, tt)); client = k };
      resolving = record { at_approval = at_approved; at_rejection = at_rejected };
    }

-- Where the cache, the HTTP clients and the relay client leave the requests alone, the engine that the
-- process builds does so beside its own writes, and so do its adapters, which is what the theorems on
-- the engine and on the process ask for.
pub hub_plugins-leave :
    (host : Host) (redis : Option (String → Exec Done)) (post : String → Value → Exec Done)
    (variable : String) (push : Post) (getenv : String → Option String) (bridge : NostrBridge)
    → CacheKeeps redis
    → PostKeeps post
    → ((url : String) (headers : List (String × String)) (body : Value)
        → Keeps (push url headers body))
    → ClientKeeps (some bridge)
    → IsQuiet (assemble (hub_plugins host redis post variable push getenv) bridge)
      × AdaptersLeave (λ w. w.hitl) (hub_plugins host redis post variable push getenv).adapters
hub_plugins-leave host redis post variable push getenv bridge c p q k = (
  assemble-IsQuiet host redis post variable push getenv bridge c p k,
  hub_adapters-leave (λ w. w.hitl) push q getenv,
)
