-- ===== src/Notify/History.antt =====
-- core/notify_repository.py: `list_history`, and core/notify_engine.py: `history`.
use nodus_hitl_hub.Base.{
  List, Option, String, [], if◌then◌else◌, leb, map, none, or_text, select, some, take, ℕ, ◌==◌,
  ◌∷◌,
}
use nodus_hitl_hub.Base.Int.{negsuc, pos, ℤ}
use nodus_hitl_hub.Base.Sorting.{newest_first}
use nodus_hitl_hub.Json.{Fields, Items, Value, arr, cons, end, field, nil, null, opt_str, str}
use nodus_hitl_hub.Models.Time.{isoformat}
use nodus_hitl_hub.World.{LogRow}
use nodus_hitl_hub.World.Exec.{Exec, Result, err, external, gets, lift, ok, pure, ◌>>=◌}

-- `NotificationLogRow`
pub record NotificationLogRow : Type 0 where
  pub notification_id : String
  pub user_id : String
  pub tenant_id : Option String
  pub title : Option String
  pub body : Option String
  pub priority : String
  pub url : Option String
  pub channels_attempted : List String
  pub channels_succeeded : List String
  pub created_at : ℕ
  pub acked_at : Option ℕ

-- `_row_to_log`
abbrev pub row_to_log : LogRow → NotificationLogRow
row_to_log row = record {
  notification_id = row.notification_id;
  user_id = row.user_id;
  tenant_id = row.tenant_id;
  title = row.title;
  body = row.body;
  priority = or_text row.priority "normal";
  url = row.url;
  channels_attempted = row.channels_attempted;
  channels_succeeded = row.channels_succeeded;
  created_at = row.created_at;
  acked_at = row.acked_at;
}

-- The largest argument of LIMIT, a bigint.
abbrev pub max_limit : ℕ
max_limit = 9223372036854775807

-- The argument of LIMIT, with the errors of asyncpg and the database.
abbrev pub limit_param : ℤ → Result ℕ
limit_param (pos n) = if leb n max_limit then ok n else err external
limit_param (negsuc n) = err external

-- `WHERE user_id = $1 ORDER BY created_at DESC LIMIT $2`
unfoldable pub history_rows : String → ℕ → List LogRow → List LogRow
history_rows user_id n rows =
    take n (newest_first (λ r. r.created_at) (select (λ r. r.user_id == user_id) rows))

unfoldable pub list_history : String → ℤ → Exec (List NotificationLogRow)
list_history user_id limit = do
  n ← lift (limit_param limit)
  rows ← gets (λ w. history_rows user_id n w.notification_log)
  pure (map row_to_log rows)

-- A list of texts as a value.
abbrev pub texts : List String → Items
texts [] = nil
texts (s ∷ ss) = cons (str s) (texts ss)

-- `t.isoformat() if t else None`
abbrev pub opt_time : Option ℕ → Value
unfolding isoformat
opt_time none = null
opt_time (some t) = str (isoformat t)

-- The dict of a row.
unfoldable pub history_entry : NotificationLogRow → Fields
history_entry r = field "notification_id" (str r.notification_id) (
    field "user_id" (str r.user_id) (
      field "tenant_id" (opt_str r.tenant_id) (
        field "title" (opt_str r.title) (
          field "body" (opt_str r.body) (
            field "priority" (str r.priority) (
              field "url" (opt_str r.url) (
                field "channels_attempted" (arr (texts r.channels_attempted)) (
                  field "channels_succeeded" (arr (texts r.channels_succeeded)) (
                    field "created_at" (str (isoformat r.created_at))
                      (field "acked_at" (opt_time r.acked_at) end))))))))))

-- `NotifyEngine.history`
unfoldable pub history : String → ℤ → Exec (List Fields)
history user_id limit = do rows ← list_history user_id limit; pure (map history_entry rows)
