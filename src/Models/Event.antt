-- ===== src/Models/Event.antt =====
-- models/events.py
use Prim.Native.String
use nodus_hitl_hub.Base.{
  ℕ, suc, ◌+◌, ◌-◌, ◌*◌, String, Bool, false, Option, none, some, [], ◌∷◌, leb, concat,
  if◌then◌else◌,
}
use nodus_hitl_hub.Base.Int.{ℤ, pos, negsuc}
use nodus_hitl_hub.Json.{str, arr, Items, nil, Fields, or_value, get, get_or}
use nodus_hitl_hub.Host.{Host}
use nodus_hitl_hub.World.Exec.{
  Result, ok, err, overflow_error, Exec, pure, gets, lift, next_serial, ◌>>=◌,
}
use nodus_hitl_hub.Models.Hitl.{HitlStatus, pending, HitlRequest}

pub record HitlEvent : Type 0 where
  pub event_id : String
  pub kind : ℕ
  pub pubkey : String
  pub session_id : Option String
  pub reference_id : Option String
  pub dw_pubkey : Option String
  pub owner_pubkey : Option String
  pub user_id : String
  pub content : Option String
  pub hint : Option String
  pub action : Option String
  pub payload : Fields
  pub tags : Items
  pub status : HitlStatus
  pub created_at : ℕ
  pub resolved_at : Option ℕ
  pub expires_at : Option ℕ
  pub sig : Option String
  pub verified : Bool
  pub relay_url : Option String
  pub tenant_id : Option String
  pub idempotency_key : Option String

-- `datetime.max`, in microseconds since `datetime.min`
abbrev pub max_time : ℕ
max_time = 315537897599999999

abbrev second : ℕ
second = 1000000

-- `time + timedelta(seconds=n)`, with the `OverflowError` for a date out of range
unfoldable pub add_seconds : ℕ → ℤ → Result ℕ
add_seconds time (pos n) =
    if leb (time + n * second) max_time then ok (time + n * second) else err overflow_error
add_seconds time (negsuc n) =
    if leb (suc n * second) time then ok (time - suc n * second) else err overflow_error

module _ (host : Host) where
  -- `f"hitl_{uuid.uuid4().hex[:12]}"`
  unfoldable pub new_event_id : Exec String
  new_event_id = do
    n ← next_serial
    pure (concat ("hitl_" ∷ String.slice (host.uuid_hex n) 0 12 ∷ []))

  unfoldable pub from_request : HitlRequest → Exec HitlEvent
  unfolding new_event_id
  from_request req = do
    event_id ← new_event_id
    now ← gets (λ w. w.now)
    let session = or_value (get "session_id" req.metadata) (str (concat ("hitl-" ∷ event_id ∷ [])))
    let worker = or_value (get "dw_pubkey" req.metadata) (str "hitl-hub")
    expires_at ← lift (add_seconds now req.timeout_seconds)
    session_id ← lift (host.optional_str session)
    dw_pubkey ← lift (host.optional_str worker)
    owner_pubkey ← lift (host.optional_str (get "owner_pubkey" req.metadata))
    tags ← lift (host.list_field (get_or "tags" (arr nil) req.metadata))
    idempotency_key ← lift (host.optional_str (get "idempotency_key" req.metadata))
    pure (record {
      event_id = event_id;
      kind = 10020;
      pubkey = "hitl-hub";
      session_id = session_id;
      reference_id = none;
      dw_pubkey = dw_pubkey;
      owner_pubkey = owner_pubkey;
      user_id = req.user_id;
      content = none;
      hint = some req.action_description;
      action = some req.action_type;
      payload = req.action_details;
      tags = tags;
      status = pending;
      created_at = now;
      resolved_at = none;
      expires_at = some expires_at;
      sig = none;
      verified = false;
      relay_url = none;
      tenant_id = some req.tenant_id;
      idempotency_key = idempotency_key;
    })
