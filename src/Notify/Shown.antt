-- ===== src/Notify/Shown.antt =====
-- `send`, and then `history` and `ack`.
use nodus_hitl_hub.Base.{List, none, some, suc, true, ℕ, ◌∷◌, ◌≡◌}
use nodus_hitl_hub.Base.Int.{pos}
use nodus_hitl_hub.Host.{Host}
use nodus_hitl_hub.Json.{Fields}
use nodus_hitl_hub.Models.Notify.{NotifyRequest, NotifyResult, priority_value}
use nodus_hitl_hub.Notify.Defs.{ack}
use nodus_hitl_hub.Notify.History.{NotificationLogRow, history, history_entry}
use nodus_hitl_hub.Notify.Sending.{notification_id}
use nodus_hitl_hub.World.{LogRow, World}
use nodus_hitl_hub.World.Exec.{Result, ok}

-- What a history shows of a notification that was just sent.
abbrev pub entry_of : NotifyRequest → NotifyResult → ℕ → NotificationLogRow
entry_of req answer now = record {
  notification_id = answer.notification_id;
  user_id = req.user_id;
  tenant_id = some req.tenant_id;
  title = some req.title;
  body = some req.body;
  priority = priority_value req.priority;
  url = req.url;
  channels_attempted = answer.channels_attempted;
  channels_succeeded = answer.channels_succeeded;
  created_at = now;
  acked_at = none;
}

-- How a notification shows after it was sent, `n` being the number of earlier ones asked for.
pub record IsShown (req : NotifyRequest) (n : ℕ) (w : World) (result : Result NotifyResult × World)
    : Type 0 where
  pub answer : NotifyResult
  pub earlier : List Fields
  pub answered : result.0 ≡ ok answer
  pub was : (history req.user_id (pos n) w).0 ≡ ok earlier
  pub is_first :
      (history req.user_id (pos (suc n)) result.1).0
      ≡ ok (history_entry (entry_of req answer w.now) ∷ earlier)
  pub unacked : (ack answer.notification_id result.1).0 ≡ ok true

-- The adapters leave the log and the clock alone.
abbrev pub log_and_clock : World → List LogRow × ℕ
log_and_clock w = (w.notification_log, w.now)
