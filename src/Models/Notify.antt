-- ===== src/Models/Notify.antt =====
-- models/notify.py
use nodus_hitl_hub.Base.{ℕ, String, Option, List, ◌==◌, leb, Bool, if◌then◌else◌}
use nodus_hitl_hub.Json.{Fields}

pub data NotifyPriority : Type 0 where
  info normal urgent critical : NotifyPriority

abbrev pub priority_value : NotifyPriority → String
priority_value info = "info"
priority_value normal = "normal"
priority_value urgent = "urgent"
priority_value critical = "critical"

-- `PRIORITY_ORDER.get(text, 1)`
abbrev pub priority_order : String → ℕ
priority_order text =
    if text == "info"
    then 0
    else if text == "normal"
    then 1
    else if text == "urgent"
    then 2
    else if text == "critical"
    then 3
    else 1

-- A priority is at or above a minimum, which is any text.
unfoldable pub priority_gte : NotifyPriority → String → Bool
priority_gte actual minimum = leb (priority_order minimum) (priority_order (priority_value actual))

pub record NotifyRequest : Type 0 where
  pub user_id : String
  pub title : String
  pub body : String
  pub priority : NotifyPriority
  pub url : Option String
  pub tenant_id : String
  pub channels : Option (List String)
  pub metadata : Fields

pub record NotifyResult : Type 0 where
  pub notification_id : String
  pub channels_attempted : List String
  pub channels_succeeded : List String
  pub channels_failed : List String
