-- ===== src/Engine/Reads.antt =====
-- What is read of a row that was appended, and referenced afterwards.
use nodus_hitl_hub.Base.{
  List, String, [], any, ap, eq_refl, false, refl, some, sym, ◌++◌, ◌∙◌, ◌∷◌, ◌≡◌,
}
use nodus_hitl_hub.Engine.Publish.{referenced}
use nodus_hitl_hub.Host.{Host}
use nodus_hitl_hub.Json.{str}
use nodus_hitl_hub.Models.Event.{HitlEvent}
use nodus_hitl_hub.Repository.{
  clashes, find_row, get_by_idempotency_key, get_event, optional_event, update_row,
}
use nodus_hitl_hub.Repository.Keys.{
  find_key, find_key-append, find_key-update_row, find_row-append, find_row-update_row,
}
use nodus_hitl_hub.Repository.Rows.{row_of_event}
use nodus_hitl_hub.Repository.Updates.{row_to_event-row_of_event, stored}
use nodus_hitl_hub.World.{HitlRow, World}
use nodus_hitl_hub.World.Exec.{ok}

-- A read by id depends on the table only.
pub get_event-hitl :
    (host : Host) (id : String) (v : World) (rows : List HitlRow)
    → v.hitl ≡ rows
    → (get_event host id v).0 ≡ optional_event host (find_row id rows)
unfolding get_event
get_event-hitl host id v rows e = ap (λ rows. optional_event host (find_row id rows)) e

-- A read by id, up to the table.
pub get_event_of :
    (host : Host) (id : String) (v w : World)
    → v.hitl ≡ w.hitl
    → (get_event host id v).0 ≡ (get_event host id w).0
get_event_of host id v w e =
    get_event-hitl host id v w.hitl e ∙ sym (get_event-hitl host id w w.hitl refl)

pub get_by_idempotency_key-hitl :
    (host : Host) (k : String) (v : World) (rows : List HitlRow)
    → v.hitl ≡ rows
    → (get_by_idempotency_key host (str k) v).0 ≡ optional_event host (find_key k rows)
unfolding get_by_idempotency_key
get_by_idempotency_key-hitl host k v rows e =
    rw (host.text_param-str k) (ap (λ rows. optional_event host (find_key k rows)) e)

module _ (host : Host) (event : HitlEvent) (rows : List HitlRow)
    (free : any (clashes (row_of_event event)) rows ≡ false) where
  pub appended-read :
      optional_event host (find_row event.event_id (rows ++ row_of_event event ∷ []))
      ≡ ok (some (stored event))
  unfolding optional_event row_of_event
  appended-read =
      rw (find_row-append (row_of_event event) rows free)
        (rw (row_to_event-row_of_event host event) refl)

  pub referenced-read :
      (ref relay : String)
      → optional_event host (
          find_row event.event_id
            (update_row event.event_id (referenced ref relay) (rows ++ row_of_event event ∷ [])))
        ≡ ok (some (record (stored event) { reference_id = some ref; relay_url = some relay }))
  unfolding optional_event row_of_event
  referenced-read ref relay =
      rw
        (find_row-update_row event.event_id event.event_id (referenced ref relay)
          (rows ++ row_of_event event ∷ []) (λ r. (refl, refl)))
        (rw (eq_refl event.event_id, find_row-append (row_of_event event) rows free)
          (rw
            (row_to_event-row_of_event host
              (record event { reference_id = some ref; relay_url = some relay }))
            refl))

  pub appended-key :
      (k : String)
      → event.idempotency_key ≡ some k
      → optional_event host (find_key k (rows ++ row_of_event event ∷ []))
        ≡ ok (some (stored event))
  unfolding optional_event row_of_event
  appended-key k e =
      rw (find_key-append (row_of_event event) k rows e free)
        (rw (row_to_event-row_of_event host event) refl)

  pub referenced-key :
      (ref relay k : String)
      → event.idempotency_key ≡ some k
      → optional_event host (
          find_key k
            (update_row event.event_id (referenced ref relay) (rows ++ row_of_event event ∷ [])))
        ≡ ok (some (record (stored event) { reference_id = some ref; relay_url = some relay }))
  unfolding optional_event row_of_event
  referenced-key ref relay k e =
      rw
        (find_key-update_row event.event_id k (referenced ref relay)
          (rows ++ row_of_event event ∷ []) (λ r. (refl, refl)))
        (rw (find_key-append (row_of_event event) k rows e free, eq_refl event.event_id)
          (rw
            (row_to_event-row_of_event host
              (record event { reference_id = some ref; relay_url = some relay }))
            refl))
