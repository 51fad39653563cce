-- ===== src/Notify/Channels.antt =====
-- core/channels.py: the registry of the channel adapters, a dict from names.
use nodus_hitl_hub.Base.{
  Bool, List, Option, String, [], arith, eq_iff, find, if◌then◌else◌, map, some, ◌==◌, ◌∷◌, ◌≡◌,
}
use nodus_hitl_hub.Models.Notify.{NotifyRequest}
use nodus_hitl_hub.World.Exec.{Exec, Result, err, ok}

-- `ChannelAdapter`
pub record ChannelAdapter : Type 0 where
  pub name : String
  pub send : NotifyRequest → Exec Bool

-- `ChannelRegistry.register`: a name that is there keeps its place.
unfoldable pub register_adapter : ChannelAdapter → List ChannelAdapter → List ChannelAdapter
register_adapter adapter [] = adapter ∷ []
register_adapter adapter (a ∷ adapters) =
    let rest = register_adapter adapter adapters in
    if a.name == adapter.name then adapter ∷ adapters else a ∷ rest

-- `ChannelRegistry._discover`, of the constructors of the adapter classes in the order of their
-- modules: the first that raises ends it, and the registry keeps what it has.
unfoldable pub discover_adapters :
    List (Result ChannelAdapter) → List ChannelAdapter → List ChannelAdapter
unfolding register_adapter
discover_adapters [] registry = registry
discover_adapters (err x ∷ instances) registry = registry
discover_adapters (ok adapter ∷ instances) registry =
    discover_adapters instances (register_adapter adapter registry)

-- `ChannelRegistry.get`
unfoldable pub get_adapter : String → List ChannelAdapter → Option ChannelAdapter
get_adapter name adapters = find (λ a. a.name == name) adapters

-- `ChannelRegistry.names`
unfoldable pub adapter_names : List ChannelAdapter → List String
adapter_names adapters = map (λ a. a.name) adapters

-- A registered adapter is found under its name, and the other names are as before.
pub get_adapter-register_adapter :
    (adapter : ChannelAdapter) (name : String) (adapters : List ChannelAdapter)
    → get_adapter name (register_adapter adapter adapters)
      ≡ (if adapter.name == name then some adapter else get_adapter name adapters)
unfolding get_adapter register_adapter
get_adapter-register_adapter adapter name [] = ground arith
get_adapter-register_adapter adapter name (a ∷ adapters) = ground (
  arith,
  eq_iff a.name adapter.name,
  eq_iff a.name name,
  eq_iff adapter.name name,
  get_adapter-register_adapter adapter name adapters,
)
