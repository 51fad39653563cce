-- ===== src/Examples/Stored.antt =====
-- The repository on one row.
use mathlib.Core.List.{Memᴰ}
use nodus_hitl_hub.Base.{List, String, [], refl, some, ℕ, ◌∷◌, ◌≡◌, ◌≢◌}
use nodus_hitl_hub.Examples.Data.{
  active_hub, active_row, empty_hub, mail_event, mail_payload, mail_row, strict_host,
}
use nodus_hitl_hub.Json.Cast.{castable}
use nodus_hitl_hub.Models.Hitl.{approved}
use nodus_hitl_hub.Repository.{get_event, list_pending, open_rows}
use nodus_hitl_hub.Repository.Inbox.{IsInbox, list_pending-active, open_rows-IsInbox}
use nodus_hitl_hub.Repository.Ledger.{empty_ledger, run_ledger}
use nodus_hitl_hub.Repository.Refinement.{outcomes, run_writes-refines}
use nodus_hitl_hub.Repository.Rows.{row_of_event}
use nodus_hitl_hub.Repository.Updates.{stored}
use nodus_hitl_hub.Repository.Writes.{Write, inserts, run_writes, updates}
use nodus_hitl_hub.World.Exec.{err, ok, unique_violation}

open_rows-IsInbox_example :
    IsInbox 1500000 "7" (mail_row ∷ []) (open_rows 1500000 "7" (mail_row ∷ []))
open_rows-IsInbox_example = open_rows-IsInbox 1500000 "7" (mail_row ∷ [])

list_pending-active_example : (list_pending strict_host "7" active_hub).0 ≢ ok []
unfolding open_rows row_of_event
list_pending-active_example =
    list_pending-active strict_host "7" active_hub active_row [] (Memᴰ.head refl) refl

abbrev two_writes : List (ℕ × Write)
two_writes =
    (5, inserts mail_event)
    ∷ (6, inserts mail_event)
    ∷ (7, updates "hitl_1" approved (some mail_payload))
    ∷ []

run_writes-refines_example :
    (outcomes two_writes empty_hub ≡ (run_ledger two_writes empty_ledger).0)
    × ((id : String)
        → (get_event strict_host id (run_writes two_writes empty_hub)).0
          ≡ ok ((run_ledger two_writes empty_ledger).1.events id))
run_writes-refines_example = run_writes-refines strict_host two_writes empty_hub refl

-- The second insertion is refused, and the update shows.
two_writes-ledger :
    ((run_ledger two_writes empty_ledger).0 ≡ ok tt ∷ err unique_violation ∷ ok tt ∷ [])
    × ((run_ledger two_writes empty_ledger).1.events "hitl_1"
        ≡ some (record (stored mail_event) {
          status = approved;
          payload = mail_payload;
          resolved_at = some 7;
        }))
unfolding castable
two_writes-ledger = (refl, refl)
