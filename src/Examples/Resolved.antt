-- ===== src/Examples/Resolved.antt =====
-- A resolution from the relay, and two that race.
use nodus_hitl_hub.Base.{[], refl, some, ◌∷◌, ◌≡◌}
use nodus_hitl_hub.Bootstrap.Wiring.{discovered-Keeps}
use nodus_hitl_hub.Engine.Authority.{Handled, handle_resolution-Handled}
use nodus_hitl_hub.Engine.Defs.{finish_approve, finish_reject}
use nodus_hitl_hub.Engine.Final.{HasTameHooks, IsQuiet}
use nodus_hitl_hub.Engine.Race.{finish_reject-finish_approve}
use nodus_hitl_hub.Engine.Resolution.{
  NostrEvent, find_resolved, handle_resolution, is_foreign, tag_value,
}
use nodus_hitl_hub.Engine.Resolve.{rejected_payload}
use nodus_hitl_hub.Examples.Data.{
  empty_hub, mail_engine, mail_event, mail_hub, mail_payload, mail_row, strict_host,
}
use nodus_hitl_hub.Examples.Run.{mail_engine-IsTame}
use nodus_hitl_hub.Json.{str}
use nodus_hitl_hub.Json.Cast.{castable}
use nodus_hitl_hub.Json.Print.{dumps}
use nodus_hitl_hub.Models.Event.{HitlEvent}
use nodus_hitl_hub.Models.Hitl.{approved, rejected, respond}
use nodus_hitl_hub.Repository.{get_by_reference, get_event, optional_event}
use nodus_hitl_hub.Repository.Rows.{row_of_event, row_to_event}
use nodus_hitl_hub.Repository.Updates.{row_to_event-row_of_event, stored}
use nodus_hitl_hub.World.{HitlRow, World}
use nodus_hitl_hub.World.Exec.{ok}

abbrev published_row : HitlRow
published_row = record (row_of_event mail_event) { reference_id = some "note1" }

abbrev pub published_hub : World
published_hub = record empty_hub { hitl = published_row ∷ [] }

abbrev pub owner_says_yes : NostrEvent
owner_says_yes = record {
  kind = 10021;
  pubkey = "npub7";
  content = "";
  tags = ("request" ∷ "note1" ∷ []) ∷ ("approved" ∷ "true" ∷ []) ∷ [];
}

handle_resolution-Handled_example :
    Handled strict_host mail_engine owner_says_yes published_hub
      (handle_resolution strict_host mail_engine owner_says_yes published_hub)
handle_resolution-Handled_example =
    handle_resolution-Handled strict_host mail_engine owner_says_yes published_hub

-- The guards let the owner's event through, to the row with the reference.
owner_is_heard :
    (find_resolved strict_host owner_says_yes published_hub).0
    ≡ ok (some (record (stored mail_event) { reference_id = some "note1" }))
unfolding find_resolved get_by_reference optional_event row_to_event row_of_event tag_value
    is_foreign dumps
owner_is_heard = refl

finish_reject-finish_approve_example :
    ((finish_approve mail_engine "hitl_1" (str "go") (stored mail_event) mail_hub).0
      ≡ ok (respond (some "hitl_1") approved))
    × ((finish_reject mail_engine "hitl_1"
          (str "no")
          (stored mail_event)
          (finish_approve mail_engine "hitl_1" (str "go") (stored mail_event) mail_hub).1).0
        ≡ ok (respond (some "hitl_1") rejected))
    × ((get_event strict_host "hitl_1"
          (finish_reject mail_engine "hitl_1"
            (str "no")
            (stored mail_event)
            (finish_approve mail_engine "hitl_1" (str "go") (stored mail_event) mail_hub).1).1).0
        ≡ ok (
            some (record (stored mail_event) {
              status = rejected;
              payload = rejected_payload (str "no") mail_payload;
              resolved_at =
                  some
                    (finish_approve mail_engine "hitl_1"
                      (str "go")
                      (stored mail_event)
                      mail_hub).1.now;
            })))
unfolding row_of_event castable
finish_reject-finish_approve_example =
    finish_reject-finish_approve strict_host mail_engine "hitl_1" (str "go") (str "no")
      (stored mail_event) mail_row mail_hub (λ e w. refl, tt) (λ e w. refl, tt) refl
      (row_to_event-row_of_event strict_host mail_event) refl refl

abbrev pub closed_event : HitlEvent
closed_event = record mail_event { status = approved }

abbrev pub closed_hub : World
closed_hub = record empty_hub { hitl = row_of_event closed_event ∷ [] }

pub mail_engine-HasTameHooks : HasTameHooks mail_engine
mail_engine-HasTameHooks = record {
  at_approval = (λ e w. refl, tt);
  at_rejection = (λ e w. refl, tt);
}

pub mail_engine-IsQuiet : IsQuiet mail_engine
mail_engine-IsQuiet = record {
  validating = discovered-Keeps;
  creating = mail_engine-IsTame;
  resolving = mail_engine-HasTameHooks;
}

pub closed_event_read :
    (get_event strict_host "hitl_1" closed_hub).0 ≡ ok (some (stored closed_event))
unfolding get_event optional_event row_to_event row_of_event dumps
closed_event_read = refl
