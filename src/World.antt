-- ===== src/World.antt =====
-- The state that the hub reads and writes: the clock, the database of db/migrations, the source of
-- random ids, and what has gone out. A coroutine that reads and writes it and may raise is an
-- action of `Exec`.
pub mod Exec
pub mod Tasks
use nodus_hitl_hub.Base.{ℕ, String, Bool, Option, List}
use nodus_hitl_hub.Base.Int.{ℤ}
use nodus_hitl_hub.Json.{Value}

-- A row of `nostr_hitl`, as migrations 001 and 002 leave the table. A NULL is `none`; times are
-- microseconds. A JSONB column is the value that was printed into it.
pub record HitlRow : Type 0 where
  pub event_id : String
  pub kind : ℕ
  pub pubkey : Option String
  pub session_id : Option String
  pub reference_id : Option String
  pub dw_pubkey : Option String
  pub owner_pubkey : Option String
  pub user_id : Option String
  pub content : Option String
  pub hint : Option String
  pub action : Option String
  pub payload : Option Value
  pub tags : Option Value
  pub status : String
  pub created_at : ℕ
  pub resolved_at : Option ℕ
  pub expires_at : Option ℕ
  pub sig : Option String
  pub verified : Option Bool
  pub relay_url : Option String
  pub tenant_id : Option String
  pub idempotency_key : Option String

-- A row of `users`, a table of another service.
pub record UserRow : Type 0 where
  pub id : ℤ
  pub nostr_pubkey : Option String

-- A row of `notification_log`.
pub record LogRow : Type 0 where
  pub notification_id : String
  pub user_id : String
  pub tenant_id : Option String
  pub title : Option String
  pub body : Option String
  pub priority : Option String
  pub url : Option String
  pub channels_attempted : List String
  pub channels_succeeded : List String
  pub created_at : ℕ
  pub acked_at : Option ℕ

-- A row of `notification_preferences`.
pub record PrefRow : Type 0 where
  pub user_id : String
  pub tenant_id : Option String
  pub channel : String
  pub enabled : Option Bool
  pub address : Option String
  pub min_priority : Option String
  pub quiet_hours_start : Option ℤ
  pub quiet_hours_end : Option ℤ

-- An event for the relay: kind, content and tags.
pub record InboxItem : Type 0 where
  pub kind : ℕ
  pub content : String
  pub tags : List (List String)

-- What leaves the process, newest first in `World.sent`.
pub data Outgoing : Type 0 where
  inbox_item : InboxItem → Outgoing
  http_post : String → List (String × String) → Value → Outgoing
  cache_delete : String → Outgoing
  audit_line : String → Outgoing

pub record World : Type 0 where
  pub now : ℕ
  pub hitl : List HitlRow
  pub users : List UserRow
  -- the numbers that the id column of `users`, a table of another service, holds
  pub id_fits : ℤ → Bool
  pub notification_log : List LogRow
  pub preferences : List PrefRow
  pub serial : ℕ
  pub sent : List Outgoing
