-- ===== src/Notify/Defs.antt =====
-- core/notify_engine.py: `NotifyEngine.send` and its parts, and `ack`.
use Prim.Native.String
use nodus_hitl_hub.Base.{
  Bool, List, Option, String, [], concat, false, if◌then◌else◌, is_given, is_one_of, none, not,
  some, true, ℕ, ◌%◌, ◌&&◌, ◌++◌, ◌/◌, ◌==◌, ◌||◌, ◌∷◌,
}
use nodus_hitl_hub.Base.Int.{int_eq, int_ltb, pos, ℤ}
use nodus_hitl_hub.Host.{Host}
use nodus_hitl_hub.Json.{opt_str, set}
use nodus_hitl_hub.Models.Notify.{
  NotifyPriority, NotifyRequest, NotifyResult, critical, info, priority_gte, priority_value,
}
use nodus_hitl_hub.Notify.Channels.{ChannelAdapter, get_adapter}
use nodus_hitl_hub.Notify.Store.{NotificationPreference, get_preferences, insert_log, mark_acked}
use nodus_hitl_hub.World.{LogRow}
use nodus_hitl_hub.World.Exec.{Exec, gets, next_serial, pure, recover, ◌>>=◌, ◌>>◌}

abbrev pub address_channels : List String
address_channels = "email" ∷ "whatsapp" ∷ "voice" ∷ []

abbrev pub log_only_channels : List String
log_only_channels = "inapp" ∷ []

-- `bool(pref.enabled)`
abbrev pub is_on : Option Bool → Bool
is_on none = false
is_on (some b) = b

abbrev pub is_info : NotifyPriority → Bool
is_info info = true
is_info _ = false

abbrev pub is_critical : NotifyPriority → Bool
is_critical critical = true
is_critical _ = false

-- `_passes_quiet_hours` on the bounds
unfoldable pub outside_quiet : ℤ → ℤ → ℕ → Bool
outside_quiet start_hour end_hour hour =
    if int_eq start_hour end_hour
    then false
    else if int_ltb start_hour end_hour
    then not (not (int_ltb (pos hour) start_hour) && int_ltb (pos hour) end_hour)
    else not (not (int_ltb (pos hour) start_hour) || int_ltb (pos hour) end_hour)

unfoldable pub passes_quiet_hours : NotificationPreference → NotifyPriority → ℕ → Bool
passes_quiet_hours pref priority hour =
    if is_critical priority then true else elim pref.quiet_hours_start [
      | none ↦ true
      | some s ↦ elim pref.quiet_hours_end [ none ↦ true | some e ↦ outside_quiet s e hour ]
    ]

-- `_channels_from_preferences`, with preferences
unfoldable pub wanted_channels : NotifyPriority → List NotificationPreference → List String
wanted_channels priority [] = []
wanted_channels priority (pref ∷ prefs) =
    let rest = wanted_channels priority prefs in
    if is_on pref.enabled && priority_gte priority pref.min_priority
    then pref.channel ∷ rest
    else rest

unfoldable pub channels_from_preferences :
    NotifyPriority → List NotificationPreference → List String
channels_from_preferences priority [] = if is_info priority then [] else "webpush" ∷ []
channels_from_preferences priority (pref ∷ prefs) = wanted_channels priority (pref ∷ prefs)

-- `{p.channel: p for p in preferences}.get(channel)`: the last one counts.
unfoldable pub pref_of : String → List NotificationPreference → Option NotificationPreference
pref_of channel [] = none
pref_of channel (p ∷ prefs) =
    let rest = pref_of channel prefs in
    elim rest [ some q ↦ some q | none ↦ if p.channel == channel then some p else none ]

-- The guards of the loop: the request to send over a channel, or `none` to skip it.
unfoldable pub addressed : String → Option String → NotifyRequest → Option NotifyRequest
addressed channel address req =
    if is_one_of channel address_channels
    then (if is_given address
        then some (record req { metadata = set "address" (opt_str address) req.metadata })
        else none)
    else some req

unfoldable pub prepare :
    Option NotificationPreference → String → ℕ → NotifyRequest → Option NotifyRequest
prepare none channel hour req = addressed channel none req
prepare (some pref) channel hour req =
    if not (is_on pref.enabled)
    then none
    else if not (passes_quiet_hours pref req.priority hour)
    then none
    else addressed channel pref.address req

-- The three lists of the loop.
pub record Tally : Type 0 where
  pub attempted : List String
  pub succeeded : List String
  pub failed : List String

-- The outcome of a prepared channel: in-app notifications live in the log alone.
unfoldable pub deliver : List ChannelAdapter → String → NotifyRequest → Exec Bool
deliver adapters channel req =
    if is_one_of channel log_only_channels then pure true else elim (get_adapter channel adapters) [
      | none ↦ pure false
      | some adapter ↦ recover (adapter.send req) false
    ]

abbrev pub tallied : String → Bool → Tally → Tally
tallied channel delivered t = record {
  attempted = t.attempted ++ channel ∷ [];
  succeeded = if delivered then t.succeeded ++ channel ∷ [] else t.succeeded;
  failed = if delivered then t.failed else t.failed ++ channel ∷ [];
}

-- The loop over the channels.
unfoldable pub send_all :
    List ChannelAdapter
    → List NotificationPreference
    → ℕ
    → NotifyRequest
    → List String
    → Tally
    → Exec Tally
send_all adapters prefs hour req [] t = pure t
send_all adapters prefs hour req (channel ∷ channels) t =
    elim (prepare (pref_of channel prefs) channel hour req) [
      | none ↦ send_all adapters prefs hour req channels t
      | some sendable ↦ do
        delivered ← deliver adapters channel sendable
        send_all adapters prefs hour req channels (tallied channel delivered t)
    ]

-- `datetime.now(timezone.utc).hour`
abbrev pub hour_of : ℕ → ℕ
hour_of now = now / 3600000000 % 24

-- `req.channels`, or the channels of the preferences
abbrev pub targets : NotifyRequest → List NotificationPreference → List String
targets req prefs = elim req.channels [
  | some channels ↦ channels
  | none ↦ channels_from_preferences req.priority prefs
]

abbrev pub no_tally : Tally
no_tally = record { attempted = []; succeeded = []; failed = [] }

-- The row that `send` logs.
abbrev pub log_of : String → NotifyRequest → Tally → LogRow
log_of id req t = record {
  notification_id = id;
  user_id = req.user_id;
  tenant_id = some req.tenant_id;
  title = some req.title;
  body = some req.body;
  priority = some (priority_value req.priority);
  url = req.url;
  channels_attempted = t.attempted;
  channels_succeeded = t.succeeded;
  created_at = 0;
  acked_at = none;
}

abbrev pub result_of : String → Tally → NotifyResult
result_of id t = record {
  notification_id = id;
  channels_attempted = t.attempted;
  channels_succeeded = t.succeeded;
  channels_failed = t.failed;
}

module _ (host : Host) where
  -- `NotifyEngine.send`
  unfoldable pub send_notification : List ChannelAdapter → NotifyRequest → Exec NotifyResult
  send_notification adapters req = do
    n ← next_serial
    let id = concat ("notify_" ∷ String.slice (host.uuid_hex n) 0 16 ∷ [])
    prefs ← get_preferences req.user_id req.tenant_id
    hour ← gets (λ w. hour_of w.now)
    tally ← send_all adapters prefs hour req (targets req prefs) no_tally
    insert_log (log_of id req tally)
    pure (result_of id tally)

-- `NotifyEngine.ack`
unfoldable pub ack : String → Exec Bool
ack notification_id = mark_acked notification_id
