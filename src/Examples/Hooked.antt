-- ===== src/Examples/Hooked.antt =====
-- The hooks with a cache and an HTTP client that only send.
use nodus_hitl_hub.Base.{String, [], concat, false, refl, some, true, ◌∷◌, ◌≡◌}
use nodus_hitl_hub.Base.Strip.{strip_slashes}
use nodus_hitl_hub.Engine.Defs.{HitlEngine, finish_approve, finish_reject}
use nodus_hitl_hub.Examples.Data.{mail_engine, mail_event, mail_hub, strict_host}
use nodus_hitl_hub.Hooks.Conflicts.{IsReported, finish-IsReported, reporting}
use nodus_hitl_hub.Hooks.Defs.{audit_text, conflict_url}
use nodus_hitl_hub.Hooks.Reasons.{auditing, finish_reject-audit}
use nodus_hitl_hub.Json.{Value, end, field, str}
use nodus_hitl_hub.Json.Cast.{castable}
use nodus_hitl_hub.Lifecycle.Defs.{on_approved, on_rejected}
use nodus_hitl_hub.Models.Event.{HitlEvent}
use nodus_hitl_hub.Models.Hitl.{approved, rejected, respond}
use nodus_hitl_hub.Repository.{update_status}
use nodus_hitl_hub.World.{audit_line, http_post}
use nodus_hitl_hub.World.Exec.{Done, Exec, ok, send}

abbrev conflict_event : HitlEvent
conflict_event = record mail_event {
  action = some "modelbook_conflict";
  payload = field "proposal_id" (str "p1") end;
}

posted_to :
    conflict_url "http://memorium/" conflict_event
    ≡ some "http://memorium/modelbook/proposals/resolve-conflict"
unfolding conflict_url strip_slashes
posted_to = refl

abbrev send_report : String → Value → Exec Done
send_report url body = send (http_post url [] body)

abbrev reporting_engine : HitlEngine
reporting_engine = reporting mail_engine send_report "http://memorium"

approval_answered :
    (finish_approve reporting_engine "hitl_1" (str "go") conflict_event mail_hub).0
    ≡ ok (respond (some "hitl_1") approved)
unfolding finish_approve update_status castable on_approved
approval_answered = refl

rejection_answered :
    (finish_reject reporting_engine "hitl_1" (str "no") conflict_event mail_hub).0
    ≡ ok (respond (some "hitl_1") rejected)
unfolding finish_reject update_status castable on_rejected
rejection_answered = refl

finish-IsReported_example :
    IsReported send_report "http://memorium" true conflict_event mail_hub
      (finish_approve reporting_engine "hitl_1" (str "go") conflict_event mail_hub)
    × IsReported send_report "http://memorium" false conflict_event mail_hub
        (finish_reject reporting_engine "hitl_1" (str "no") conflict_event mail_hub)
finish-IsReported_example =
    finish-IsReported mail_engine send_report "http://memorium" "hitl_1" conflict_event mail_hub
      (str "go") (str "no") (respond (some "hitl_1") approved) (respond (some "hitl_1") rejected)
      approval_answered rejection_answered

audited :
    (finish_reject
      (auditing strict_host mail_engine)
      "hitl_1"
      (str "too late")
      mail_event
      mail_hub).0
    ≡ ok (respond (some "hitl_1") rejected)
unfolding finish_reject update_status castable on_rejected
audited = refl

finish_reject-audit_example :
    (finish_reject
      (auditing strict_host mail_engine)
      "hitl_1"
      (str "too late")
      mail_event
      mail_hub).1.sent
    ≡ audit_line (concat (audit_text "rejected" mail_event ∷ " reason=" ∷ "unknown" ∷ [])) ∷ []
finish_reject-audit_example =
    finish_reject-audit strict_host mail_engine "hitl_1" (str "too late") mail_event mail_hub
      (respond (some "hitl_1") rejected) refl audited
