-- ===== src/Lifecycle/Defs.antt =====
-- core/lifecycle.py and core/dispatcher.py.
use nodus_hitl_hub.Base.{List, String, [], ◌++◌, ◌∷◌}
use nodus_hitl_hub.Models.Event.{HitlEvent}
use nodus_hitl_hub.World.Exec.{Done, Exec, attempt, for_each}

-- `LifecycleHook`, by its methods.
pub record Hook : Type 0 where
  pub name : String
  pub on_created : HitlEvent → Exec Done
  pub on_approved : HitlEvent → Exec Done
  pub on_rejected : HitlEvent → Exec Done
  pub on_expired : HitlEvent → Exec Done

-- `LifecycleManager.register`
unfoldable pub register_hook : Hook → List Hook → List Hook
register_hook hook hooks = hooks ++ hook ∷ []

-- `LifecycleManager.on_created` and its siblings
unfoldable pub on_created : List Hook → HitlEvent → Exec Done
unfolding for_each
on_created hooks event = for_each (λ (hook : Hook). attempt (hook.on_created event)) hooks

unfoldable pub on_approved : List Hook → HitlEvent → Exec Done
unfolding for_each
on_approved hooks event = for_each (λ (hook : Hook). attempt (hook.on_approved event)) hooks

unfoldable pub on_rejected : List Hook → HitlEvent → Exec Done
unfolding for_each
on_rejected hooks event = for_each (λ (hook : Hook). attempt (hook.on_rejected event)) hooks

unfoldable pub on_expired : List Hook → HitlEvent → Exec Done
unfolding for_each
on_expired hooks event = for_each (λ (hook : Hook). attempt (hook.on_expired event)) hooks

-- `NotificationPlugin`
pub record NotificationPlugin : Type 0 where
  pub name : String
  pub notify : HitlEvent → Exec Done

-- `DispatcherRegistry.register`
unfoldable pub register_plugin :
    NotificationPlugin → List NotificationPlugin → List NotificationPlugin
register_plugin plugin plugins = plugins ++ plugin ∷ []

-- `DispatcherRegistry.notify_all`
unfoldable pub notify_all : List NotificationPlugin → HitlEvent → Exec Done
unfolding for_each
notify_all plugins event =
    for_each (λ (plugin : NotificationPlugin). attempt (plugin.notify event)) plugins
