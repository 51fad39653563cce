-- ===== src/Models/Hitl.antt =====
-- models/hitl.py
use nodus_hitl_hub.Base.{
  Bool, Option, String, false, if◌then◌else◌, none, refl, some, true, ℕ, ◌==◌, ◌≡◌,
}
use nodus_hitl_hub.Base.Int.{ℤ}
use nodus_hitl_hub.Json.{Fields}

pub data HitlStatus : Type 0 where
  pending approved rejected expired timeout error : HitlStatus

-- `status.value`
abbrev pub status_value : HitlStatus → String
status_value pending = "pending"
status_value approved = "approved"
status_value rejected = "rejected"
status_value expired = "expired"
status_value timeout = "timeout"
status_value error = "error"

-- `HITLStatus(text)`, `none` for the `ValueError`
abbrev pub status_of : String → Option HitlStatus
status_of text =
    if text == "pending"
    then some pending
    else if text == "approved"
    then some approved
    else if text == "rejected"
    then some rejected
    else if text == "expired"
    then some expired
    else if text == "timeout"
    then some timeout
    else if text == "error"
    then some error
    else none

-- `f"{status}"`: since Python 3.11 a `str` enum prints its class and member.
abbrev pub status_text : HitlStatus → String
status_text pending = "HITLStatus.PENDING"
status_text approved = "HITLStatus.APPROVED"
status_text rejected = "HITLStatus.REJECTED"
status_text expired = "HITLStatus.EXPIRED"
status_text timeout = "HITLStatus.TIMEOUT"
status_text error = "HITLStatus.ERROR"

abbrev pub is_pending : HitlStatus → Bool
is_pending pending = true
is_pending _ = false

-- `status in (HITLStatus.APPROVED, HITLStatus.REJECTED)`
abbrev pub is_decided : HitlStatus → Bool
is_decided approved = true
is_decided rejected = true
is_decided _ = false

-- `status == HITLStatus.ERROR`
abbrev pub is_error : HitlStatus → Bool
is_error error = true
is_error _ = false

pub record HitlRequest : Type 0 where
  pub action_type : String
  pub action_description : String
  pub action_details : Fields
  pub user_id : String
  pub tenant_id : String
  pub timeout_seconds : ℤ
  pub metadata : Fields

pub record HitlResponse : Type 0 where
  pub confirmation_id : Option String
  pub status : HitlStatus
  pub expires_at : Option ℕ
  pub response : Option Fields
  pub confirmed_at : Option ℕ
  pub error : Option String

-- A response with the id and the status given and every other field at its default.
abbrev pub respond : Option String → HitlStatus → HitlResponse
respond id status = record {
  confirmation_id = id;
  status = status;
  expires_at = none;
  response = none;
  confirmed_at = none;
  error = none;
}

abbrev pub respond_error : Option String → HitlStatus → String → HitlResponse
respond_error id status text = record (respond id status) { error = some text }

pub status_of-value : (s : HitlStatus) → status_of (status_value s) ≡ some s
status_of-value pending = refl
status_of-value approved = refl
status_of-value rejected = refl
status_of-value expired = refl
status_of-value timeout = refl
status_of-value error = refl
