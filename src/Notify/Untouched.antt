-- ===== src/Notify/Untouched.antt =====
-- core/notify_engine.py: notifications leave the requests alone.
use nodus_hitl_hub.Base.{Bool-cases, List, String, any, inl, inr, refl, suc, ◌==◌}
use nodus_hitl_hub.Base.Int.{ℤ}
use nodus_hitl_hub.Engine.Kept.{Keeps, bind-Keeps}
use nodus_hitl_hub.Host.{Host}
use nodus_hitl_hub.Models.Notify.{NotifyRequest}
use nodus_hitl_hub.Notify.Channels.{ChannelAdapter}
use nodus_hitl_hub.Notify.Defs.{ack, hour_of, no_tally, send_all, send_notification}
use nodus_hitl_hub.Notify.History.{history, limit_param, list_history}
use nodus_hitl_hub.Notify.Keeping.{AdaptersLeave, send_all-keeps}
use nodus_hitl_hub.Notify.Store.{get_preferences, insert_log, mark_acked}
use nodus_hitl_hub.World.{LogRow}
use nodus_hitl_hub.World.Exec.{Result-cases}

insert_log-Keeps : (row : LogRow) → Keeps (insert_log row)
unfolding insert_log
insert_log-Keeps row w =
    elim (Bool-cases (any (λ r. r.notification_id == row.notification_id) w.notification_log)) [
      | inl taken ↦ rw taken refl
      | inr free ↦ rw free refl
    ]

-- Where the adapters leave the requests alone, so does a notification.
pub send_notification-Keeps :
    (host : Host) (adapters : List ChannelAdapter) (req : NotifyRequest)
    → AdaptersLeave (λ w. w.hitl) adapters
    → Keeps (send_notification host adapters req)
unfolding send_notification get_preferences
send_notification-Keeps host adapters req keep w =
    bind-Keeps (send_all adapters _ (hour_of w.now) req _ no_tally) _
      (send_all-keeps (λ w. w.hitl) adapters keep _ (hour_of w.now) req _ no_tally)
      (λ tally. bind-Keeps (insert_log _) _ (insert_log-Keeps _) (λ _ v. refl))
      (record w { serial = suc w.serial })

pub ack-Keeps : (id : String) → Keeps (ack id)
unfolding ack mark_acked
ack-Keeps id w = refl

pub history-Keeps : (user : String) (limit : ℤ) → Keeps (history user limit)
unfolding history list_history
history-Keeps user limit w = elim (Result-cases (limit_param limit)) [
  | inl (x, wrong) ↦ rw wrong refl
  | inr (n, fine) ↦ rw fine refl
]
