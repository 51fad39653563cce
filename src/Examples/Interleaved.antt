-- ===== src/Examples/Interleaved.antt =====
-- Calls that interleave.
use nodus_hitl_hub.Base.{List, String, [], inl, refl, some, suc, zero, ℕ, ◌∷◌, ◌≡◌}
use nodus_hitl_hub.Base.Number.{parse_int}
use nodus_hitl_hub.Bridge.{enabled, publish_request}
use nodus_hitl_hub.Engine.Concurrent.{run_turns-IsResolved, run_turns-Later, run_turns-one_id}
use nodus_hitl_hub.Engine.Defs.{resolvable, with_owner}
use nodus_hitl_hub.Engine.Promises.{IsResolved}
use nodus_hitl_hub.Engine.Schedule.{Hub, Turn, calls_at, expires_rows, resumes, run_turns}
use nodus_hitl_hub.Engine.Tasks.{Call, call_approve, call_request, task_of}
use nodus_hitl_hub.Examples.Data.{mail_engine, mail_hub, mail_request, strict_host}
use nodus_hitl_hub.Examples.Resolved.{mail_engine-IsQuiet}
use nodus_hitl_hub.Json.{end, field, str}
use nodus_hitl_hub.Json.Cast.{castable}
use nodus_hitl_hub.Models.Event.{add_seconds, from_request, new_event_id}
use nodus_hitl_hub.Models.Hitl.{HitlRequest, HitlResponse, approved, pending, respond}
use nodus_hitl_hub.Repository.{
  get_by_idempotency_key, get_event, get_user_pubkey, insert, set_reference, update_status,
}
use nodus_hitl_hub.Repository.Keys.{IsKeyed}
use nodus_hitl_hub.Repository.Later.{Later}
use nodus_hitl_hub.Repository.Rows.{row_of_event}
use nodus_hitl_hub.Validators.Defs.{get_validator, validation_errors}
use nodus_hitl_hub.Validators.Plugins.{validate_email}
use nodus_hitl_hub.World.Exec.{err, ok, unique_violation}
use nodus_hitl_hub.World.Tasks.{ends}

-- A request that is not there yet.
abbrev other_request : HitlRequest
other_request = record mail_request { metadata = field "idempotency_key" (str "key-2") end }

-- An approval of a request that is there, and requests with one key.
abbrev shared_calls : ℕ → Call
shared_calls zero = call_approve "hitl_1" (str "go")
shared_calls (suc i) = call_request other_request

abbrev hub_then : List Turn → Hub
hub_then turns = run_turns turns (calls_at strict_host mail_engine shared_calls mail_hub)

-- The first request is stored before the second one is looked for; the approval goes on in between.
abbrev kind_turns : List Turn
kind_turns =
    resumes 1
    ∷ resumes 0
    ∷ resumes 1
    ∷ resumes 1
    ∷ resumes 2
    ∷ resumes 1
    ∷ resumes 1
    ∷ resumes 0
    ∷ resumes 2
    ∷ resumes 0
    ∷ resumes 1
    ∷ resumes 1
    ∷ resumes 1
    ∷ resumes 1
    ∷ expires_rows
    ∷ []

-- The second request is looked for before the first one is stored.
abbrev racing_turns : List Turn
racing_turns =
    resumes 1
    ∷ resumes 2
    ∷ resumes 1
    ∷ resumes 2
    ∷ resumes 1
    ∷ resumes 2
    ∷ resumes 1
    ∷ resumes 2
    ∷ resumes 1
    ∷ resumes 2
    ∷ []

-- The second one is not answered with the request that is there: it ends in an exception.
racing_retry : (hub_then racing_turns).tasks 2 ≡ ends (err unique_violation)
unfolding castable run_turns calls_at task_of validation_errors get_validator validate_email
    get_by_idempotency_key row_of_event from_request new_event_id add_seconds with_owner
    get_user_pubkey parse_int insert
racing_retry = refl

approval_over : (hub_then kind_turns).tasks 0 ≡ ends (ok (respond (some "hitl_1") approved))
unfolding castable run_turns calls_at task_of resolvable get_event validation_errors get_validator
    row_of_event update_status
approval_over = refl

abbrev first_answer : HitlResponse
first_answer = record (respond (some "hitl_5f2c0a0b1c2d") pending) { expires_at = some 301500000 }

first_over : (hub_then kind_turns).tasks 1 ≡ ends (ok first_answer)
unfolding castable run_turns calls_at task_of validation_errors get_validator validate_email
    get_by_idempotency_key row_of_event from_request new_event_id add_seconds with_owner
    get_user_pubkey parse_int insert enabled resolvable get_event update_status publish_request
    set_reference
first_over = refl

second_over : (hub_then kind_turns).tasks 2 ≡ ends (ok first_answer)
unfolding castable run_turns calls_at task_of validation_errors get_validator validate_email
    get_by_idempotency_key row_of_event from_request new_event_id add_seconds with_owner
    get_user_pubkey parse_int insert enabled resolvable get_event update_status
second_over = refl

mail_hub-IsKeyed : IsKeyed mail_hub.hitl
mail_hub-IsKeyed = (tt, tt)

run_turns-Later_example : Later mail_hub (hub_then racing_turns).world
run_turns-Later_example =
    run_turns-Later strict_host mail_engine mail_engine-IsQuiet shared_calls racing_turns mail_hub
      mail_hub-IsKeyed

run_turns-IsResolved_example : IsResolved "hitl_1" (hub_then kind_turns).world
run_turns-IsResolved_example =
    run_turns-IsResolved strict_host mail_engine mail_engine-IsQuiet shared_calls kind_turns
      mail_hub mail_hub-IsKeyed 0 "hitl_1" (str "go") (respond (some "hitl_1") approved) (inl refl)
      approval_over refl

run_turns-one_id_example : Path String "hitl_5f2c0a0b1c2d" "hitl_5f2c0a0b1c2d"
run_turns-one_id_example =
    run_turns-one_id strict_host mail_engine mail_engine-IsQuiet shared_calls kind_turns mail_hub
      mail_hub-IsKeyed 1 2 other_request other_request "key-2" "hitl_5f2c0a0b1c2d"
      "hitl_5f2c0a0b1c2d" first_answer first_answer refl refl refl refl first_over second_over refl
      refl
