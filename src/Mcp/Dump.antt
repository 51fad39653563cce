-- ===== src/Mcp/Dump.antt =====
-- `model_dump(mode="json")` of the models: a dict of the fields in their order, with the values that
-- JSON has. `json_time` is pydantic's text of the times of one model, which are all with an offset
-- or all without.
use nodus_hitl_hub.Base.{Option, String, none, some, ℕ}
use nodus_hitl_hub.Base.Int.{pos}
use nodus_hitl_hub.Json.{Fields, Value, arr, bool, end, field, int, null, obj, opt_str, str}
use nodus_hitl_hub.Models.Event.{HitlEvent}
use nodus_hitl_hub.Models.Hitl.{HitlResponse, status_value}
use nodus_hitl_hub.Models.Notify.{NotifyResult}
use nodus_hitl_hub.Notify.History.{texts}

abbrev pub time_value : (ℕ → String) → Option ℕ → Value
time_value json_time none = null
time_value json_time (some t) = str (json_time t)

-- An `Optional[dict]` as a value.
abbrev pub opt_dict : Option Fields → Value
opt_dict none = null
opt_dict (some d) = obj d

-- `HITLResponse`
unfoldable pub dump_response : (ℕ → String) → HitlResponse → Fields
dump_response json_time r = field "confirmation_id" (opt_str r.confirmation_id) (
    field "status" (str (status_value r.status)) (
      field "expires_at" (time_value json_time r.expires_at) (
        field "response" (opt_dict r.response) (
          field "confirmed_at" (time_value json_time r.confirmed_at)
            (field "error" (opt_str r.error) end)))))

-- `HITLEvent`
unfoldable pub dump_event : (ℕ → String) → HitlEvent → Fields
dump_event json_time e = field "event_id" (str e.event_id) (
    field "kind" (int (pos e.kind)) (
      field "pubkey" (str e.pubkey) (
        field "session_id" (opt_str e.session_id) (
          field "reference_id" (opt_str e.reference_id) (
            field "dw_pubkey" (opt_str e.dw_pubkey) (
              field "owner_pubkey" (opt_str e.owner_pubkey) (
                field "user_id" (str e.user_id) (
                  field "content" (opt_str e.content) (
                    field "hint" (opt_str e.hint) (
                      field "action" (opt_str e.action) (
                        field "payload" (obj e.payload) (
                          field "tags" (arr e.tags) (
                            field "status" (str (status_value e.status)) (
                              field "created_at" (str (json_time e.created_at)) (
                                field "resolved_at" (time_value json_time e.resolved_at) (
                                  field "expires_at" (time_value json_time e.expires_at) (
                                    field "sig" (opt_str e.sig) (
                                      field "verified" (bool e.verified) (
                                        field "relay_url" (opt_str e.relay_url) (
                                          field "tenant_id" (opt_str e.tenant_id) (
                                            field "idempotency_key" (opt_str e.idempotency_key)
                                              end)))))))))))))))))))))

-- `NotifyResult`
unfoldable pub dump_result : NotifyResult → Fields
dump_result r = field "notification_id" (str r.notification_id) (
    field "channels_attempted" (arr (texts r.channels_attempted)) (
      field "channels_succeeded" (arr (texts r.channels_succeeded))
        (field "channels_failed" (arr (texts r.channels_failed)) end)))
