-- ===== src/Notify/Store.antt =====
-- core/notify_repository.py: the queries on `notification_log` and `notification_preferences`,
-- without `list_history`.
use nodus_hitl_hub.Base.{
  Bool, List, Option, String, [], any, count_if, false, if◌then◌else◌, is_text, map, nat_eq, none,
  or_text, select, some, true, ℕ, ◌%◌, ◌&&◌, ◌++◌, ◌==◌, ◌∷◌,
}
use nodus_hitl_hub.Base.Int.{ℤ}
use nodus_hitl_hub.World.{LogRow, PrefRow}
use nodus_hitl_hub.World.Exec.{Done, Exec, gets, modify, pure, raise, unique_violation, ◌>>=◌, ◌>>◌}

-- `NotificationPreference`
pub record NotificationPreference : Type 0 where
  pub user_id : String
  pub tenant_id : Option String
  pub channel : String
  pub enabled : Option Bool
  pub address : Option String
  pub min_priority : String
  pub quiet_hours_start : Option ℤ
  pub quiet_hours_end : Option ℤ

-- `_row_to_pref`
abbrev pub row_to_pref : PrefRow → NotificationPreference
row_to_pref row = record {
  user_id = row.user_id;
  tenant_id = row.tenant_id;
  channel = row.channel;
  enabled = row.enabled;
  address = row.address;
  min_priority = or_text row.min_priority "normal";
  quiet_hours_start = row.quiet_hours_start;
  quiet_hours_end = row.quiet_hours_end;
}

unfoldable pub get_preferences : String → String → Exec (List NotificationPreference)
get_preferences user_id tenant_id = gets (λ w.
    map row_to_pref
      (select (λ r. r.user_id == user_id && is_text r.tenant_id tenant_id) w.preferences))

-- The columns that a statement leaves out get their defaults.
unfoldable pub insert_log : LogRow → Exec Done
insert_log row = do
  taken ← gets (λ w. any (λ r. r.notification_id == row.notification_id) w.notification_log)
  (if taken
      then raise unique_violation
      else modify (λ w. record w {
        notification_log =
            w.notification_log ++ record row { created_at = w.now; acked_at = none } ∷ [];
      }))

-- `WHERE notification_id = id AND acked_at IS NULL`
abbrev pub is_unacked : String → LogRow → Bool
is_unacked id r = r.notification_id == id && elim r.acked_at [ none ↦ true | some _ ↦ false ]

abbrev pub ack_row : String → ℕ → LogRow → LogRow
ack_row id now r = if is_unacked id r then record r { acked_at = some now } else r

-- `result.endswith("1")` of the command tag, `UPDATE n`
abbrev pub ends_with_one : ℕ → Bool
ends_with_one n = nat_eq (n % 10) 1

unfoldable pub mark_acked : String → Exec Bool
mark_acked notification_id = do
  n ← gets (λ w. count_if (is_unacked notification_id) w.notification_log)
  modify
      (λ w. record w { notification_log = map (ack_row notification_id w.now) w.notification_log })
  pure (ends_with_one n)
