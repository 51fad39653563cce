-- ===== src/Bridge/Session.antt =====
-- core/nostr_bridge.py: the life of the bridge, `__init__`, `start`, `stop` and
-- `start_resolution_listener`. A method gives the object as it is afterwards beside its result, since
-- what it set before a raise stays set.
use nodus_hitl_hub.Base.{Option, String, false, if◌then◌else◌, none, or_text, some, true}
use nodus_hitl_hub.Bridge.{Client, NostrBridge, enabled}
use nodus_hitl_hub.World.Exec.{Done, Exec, Result, attempt, err, ok, pure, ◌>>◌}

-- What `start` calls of nostr-sdk: the public key of a secret one, and a client that is connected to
-- a relay.
pub record Sdk : Type 0 where
  pub parse_keys : String → Result String
  pub connect : String → String → Exec Client

-- `NostrBridge(relay_url, nsec)` with the variables RELAY_URL and HITL_HUB_NSEC of the environment
unfoldable pub new_bridge : Option String → Option String → String → String → NostrBridge
new_bridge relay_url nsec env_relay_url env_nsec = record {
  relay_url = or_text relay_url env_relay_url;
  nsec = or_text nsec env_nsec;
  client = none;
  pubkey_hex = none;
  listening = false;
}

module _ (sdk : Sdk) where
  -- The client is exposed only once it is connected.
  unfoldable pub connected : NostrBridge → Result Client → NostrBridge × Result Done
  connected bridge (err e) = (bridge, err e)
  connected bridge (ok client) = (record bridge { client = some client }, ok tt)

  unfoldable pub start_keyed : NostrBridge → Result String → Exec (NostrBridge × Result Done)
  unfolding connected
  start_keyed bridge (err e) w = (ok (bridge, err e), w)
  start_keyed bridge (ok pubkey) w =
      let keyed = record bridge { pubkey_hex = some pubkey } in
      let (r, w') = sdk.connect bridge.nsec bridge.relay_url w in (ok (connected keyed r), w')

  unfoldable pub start_bridge : NostrBridge → Exec (NostrBridge × Result Done)
  unfolding start_keyed
  start_bridge bridge =
      if enabled bridge
      then start_keyed bridge (sdk.parse_keys bridge.nsec)
      else pure (bridge, ok tt)

-- The listener runs only with a client.
unfoldable pub start_resolution_listener : NostrBridge → NostrBridge
start_resolution_listener bridge = record bridge {
  listening = elim bridge.client [ none ↦ bridge.listening | some client ↦ true ];
}

-- A failure of the disconnection is dropped.
unfoldable pub stop_bridge : NostrBridge → Exec NostrBridge
stop_bridge bridge =
    let quiet = record bridge { listening = false } in
    elim bridge.client [
      | none ↦ pure quiet
      | some client ↦ do attempt client.disconnect; pure (record quiet { client = none })
    ]
