-- ===== src/Examples/Run.antt =====
-- The engine with plugins that raise.
use nodus_hitl_hub.Base.{[], arith, refl, ◌+◌, ◌∷◌, ◌≡◌}
use nodus_hitl_hub.Base.Int.{pos}
use nodus_hitl_hub.Engine.Defs.{approve, create_once, reject, repetition, request}
use nodus_hitl_hub.Engine.Kept.{IsTame}
use nodus_hitl_hub.Engine.Request.{Answer, judged, key_of, request-Answer}
use nodus_hitl_hub.Engine.Resolve.{approved_payload, rejected_payload}
use nodus_hitl_hub.Engine.Retry.{IsAccepted, request_again}
use nodus_hitl_hub.Engine.Wait.{wait}
use nodus_hitl_hub.Engine.Waiting.{SleepsTo, Verdict, wait-ends}
use nodus_hitl_hub.Engine.Written.{Resolution, approve-Resolution, reject-Resolution}
use nodus_hitl_hub.Examples.Data.{
  failing_hook, mail_engine, mail_event, mail_hub, mail_request, strict_host,
}
use nodus_hitl_hub.Json.{str}
use nodus_hitl_hub.Json.Print.{dumps}
use nodus_hitl_hub.Lifecycle.Defs.{on_approved, on_rejected}
use nodus_hitl_hub.Models.Event.{add_seconds}
use nodus_hitl_hub.Models.Hitl.{HitlResponse, approved, rejected}
use nodus_hitl_hub.Repository.{get_by_idempotency_key, optional_event}
use nodus_hitl_hub.Repository.Rows.{row_of_event, row_to_event}
use nodus_hitl_hub.Repository.Updates.{stored}
use nodus_hitl_hub.Validators.Defs.{get_validator, validation_errors}
use nodus_hitl_hub.Validators.Plugins.{validate_email}
use nodus_hitl_hub.World.{World}
use nodus_hitl_hub.World.Exec.{ok}

pub mail_engine-IsTame : IsTame mail_engine
mail_engine-IsTame = record {
  hooks = (λ e w. refl, tt);
  plugins = (λ e w. refl, tt);
  client = λ item w. refl;
}

request-Answer_example :
    Answer strict_host mail_request
      (judged mail_engine mail_request mail_hub).0
      (get_by_idempotency_key strict_host
        (key_of mail_request)
        (judged mail_engine mail_request mail_hub).1).0
      (judged mail_engine mail_request mail_hub).1
      (request strict_host mail_engine mail_request mail_hub)
request-Answer_example =
    request-Answer strict_host mail_engine mail_engine-IsTame mail_request mail_hub

approve-Resolution_example :
    Resolution strict_host approved
      (approved_payload (str "go"))
      (on_approved (failing_hook ∷ []))
      "hitl_1"
      mail_hub
      (approve strict_host mail_engine "hitl_1" (str "go") mail_hub)
approve-Resolution_example = approve-Resolution strict_host mail_engine "hitl_1" (str "go") mail_hub

reject-Resolution_example :
    Resolution strict_host rejected
      (rejected_payload (str "no"))
      (on_rejected (failing_hook ∷ []))
      "hitl_1"
      mail_hub
      (reject strict_host mail_engine "hitl_1" (str "no") mail_hub)
reject-Resolution_example = reject-Resolution strict_host mail_engine "hitl_1" (str "no") mail_hub

-- Two seconds pass in a sleep.
abbrev doze : World → World
doze w = record w { now = w.now + 2000000 }

wait-ends_example :
    (v : World) × SleepsTo strict_host doze "hitl_1" 4500000 mail_hub v
    × Verdict strict_host "hitl_1"
        (pos 3)
        4500000
        v
        (wait strict_host doze "hitl_1" (pos 3) 3000001 mail_hub)
unfolding add_seconds
wait-ends_example =
    wait-ends strict_host doze "hitl_1" (pos 3) (λ w. ground arith) 3000000 4500000 mail_hub refl
      (ground arith)

abbrev mail_answer : HitlResponse
mail_answer = repetition (stored mail_event)

mail_request-IsAccepted : IsAccepted mail_engine mail_request
unfolding validation_errors get_validator validate_email
mail_request-IsAccepted v = refl

mail_request_answered : (request strict_host mail_engine mail_request mail_hub).0 ≡ ok mail_answer
unfolding request create_once validation_errors get_validator validate_email get_by_idempotency_key
    optional_event row_to_event row_of_event dumps
mail_request_answered = refl

request_again_example :
    request strict_host mail_engine mail_request
      (request strict_host mail_engine mail_request mail_hub).1
    ≡ (ok mail_answer, (request strict_host mail_engine mail_request mail_hub).1)
request_again_example =
    request_again strict_host mail_engine mail_engine-IsTame mail_request mail_request "key-1"
      mail_hub mail_answer mail_request-IsAccepted mail_request-IsAccepted refl refl refl
      mail_request_answered
