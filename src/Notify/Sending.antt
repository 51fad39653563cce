-- ===== src/Notify/Sending.antt =====
-- What `send` logs and returns.
use Prim.Native.String
use nodus_hitl_hub.Base.{
  All, List, String, [], any, concat, false, is_text, map, none, refl, select, true, ℕ, ◌&&◌, ◌++◌,
  ◌==◌, ◌∷◌, ◌≡◌,
}
use nodus_hitl_hub.Host.{Host}
use nodus_hitl_hub.Models.Notify.{NotifyRequest, NotifyResult}
use nodus_hitl_hub.Notify.Attempts.{IsSplit, may_send}
use nodus_hitl_hub.Notify.Channels.{ChannelAdapter}
use nodus_hitl_hub.Notify.Defs.{Tally, hour_of, log_of, result_of, targets}
use nodus_hitl_hub.Notify.Store.{NotificationPreference, get_preferences, insert_log, row_to_pref}
use nodus_hitl_hub.World.{LogRow, World}
use nodus_hitl_hub.World.Exec.{Result, err, ok, unique_violation}

-- An adapter leaves the log alone.
abbrev pub KeepsLog : ChannelAdapter → Type 0
KeepsLog a = (r : NotifyRequest) (w : World) → (a.send r w).1.notification_log ≡ w.notification_log

abbrev pub AdaptersKeep : List ChannelAdapter → Type 0
AdaptersKeep adapters = All KeepsLog adapters

abbrev pub notification_id : Host → World → String
notification_id host w = concat ("notify_" ∷ String.slice (host.uuid_hex w.serial) 0 16 ∷ [])

-- The preferences as `get_preferences` reads them.
abbrev pub preferences_of : NotifyRequest → World → List NotificationPreference
preferences_of req w =
    map row_to_pref
      (select (λ r. r.user_id == req.user_id && is_text r.tenant_id req.tenant_id) w.preferences)

-- How a call of `send` ends.
pub data Sent (host : Host) (req : NotifyRequest) (w : World) (result : Result NotifyResult × World)
    : Type 0 where
  -- The random id is taken: the call raises after the deliveries, and nothing is logged.
  id_taken :
      any (λ r. r.notification_id == notification_id host w) w.notification_log ≡ true
      → result.0 ≡ err unique_violation
      → result.1.notification_log ≡ w.notification_log
      → Sent host req w result
  -- The result and one new row of the log name the same channels: the ones attempted are the
  -- targets that the guards let through, in order, and each succeeded or failed.
  recorded :
      (t : Tally) (time : ℕ)
      → t.attempted
        ≡ select
            (may_send (preferences_of req w) (hour_of w.now) req)
            (targets req (preferences_of req w))
      → IsSplit t.attempted t.succeeded t.failed
      → result.0 ≡ ok (result_of (notification_id host w) t)
      → result.1.notification_log
        ≡ w.notification_log
          ++ record (log_of (notification_id host w) req t) { created_at = time } ∷ []
      → Sent host req w result

-- The queries before the loop.
pub get_preferences-eq :
    (req : NotifyRequest) (w : World)
    → get_preferences req.user_id req.tenant_id w ≡ (ok (preferences_of req w), w)
unfolding get_preferences
get_preferences-eq req w = refl

pub insert_log-free :
    (row : LogRow) (w : World)
    → any (λ r. r.notification_id == row.notification_id) w.notification_log ≡ false
    → insert_log row w ≡ (
      ok tt,
      record w {
        notification_log =
            w.notification_log ++ record row { created_at = w.now; acked_at = none } ∷ [];
      },
    )
unfolding insert_log
insert_log-free row w free = rw free refl
