-- ===== src/Engine/Decided.antt =====
-- What is read of a request after a resolution.
use nodus_hitl_hub.Base.{
  Bool-cases, Option-cases, String, ap, arith, eq_refl, inl, inr, none, refl, some, sym, ◌∙◌, ◌≡◌,
}
use nodus_hitl_hub.Engine.Reads.{get_event-hitl}
use nodus_hitl_hub.Host.{Host}
use nodus_hitl_hub.Json.{Fields, obj, truthy}
use nodus_hitl_hub.Models.Event.{HitlEvent}
use nodus_hitl_hub.Models.Hitl.{HitlStatus}
use nodus_hitl_hub.Repository.{
  find_row, get_event, optional_event, resolve_row, resolved_world, update_status,
}
use nodus_hitl_hub.Repository.Keys.{find_row-update_row}
use nodus_hitl_hub.Repository.Rows.{row_to_event}
use nodus_hitl_hub.Repository.Updates.{resolve_row-event, resolve_row-kept}
use nodus_hitl_hub.World.{HitlRow, World}
use nodus_hitl_hub.World.Exec.{and_then-ok, ok}

-- The row behind a read.
pub get_event-row :
    (host : Host) (id : String) (w : World) (e : HitlEvent)
    → (get_event host id w).0 ≡ ok (some e)
    → (r : HitlRow) × (find_row id w.hitl ≡ some r) × (row_to_event host r ≡ ok e)
unfolding optional_event
get_event-row host id w e h = elim (Option-cases (find_row id w.hitl)) [
  | inl no_row ↦
      let h' : ok none ≡ ok (some e) =
        rw no_row at (sym (get_event-hitl host id w w.hitl refl) ∙ h) in
      cc
  | inr (r, found) ↦
      let h' =
        sym (ap (optional_event host) found) ∙ sym (get_event-hitl host id w w.hitl refl) ∙ h in
      let (f, loads, last) = and_then-ok (row_to_event host r) _ h' in
      let event : f ≡ e = ground (arith, last) in (r, found, loads ∙ ap ok event)
]

module _ (host : Host) (id : String) (e : HitlEvent) (status : HitlStatus) (d : Fields) (w : World)
    (read : (get_event host id w).0 ≡ ok (some e)) where
  pub updated-read :
      (f : HitlEvent) (r : HitlRow)
      → find_row id w.hitl ≡ some r
      → row_to_event host (resolve_row status (some d) w.now r) ≡ ok f
      → (get_event host id (resolved_world id status (some d) w)).0 ≡ ok (some f)
  unfolding get_event update_status optional_event
  updated-read f r found loads =
      rw (find_row-update_row id id (resolve_row status (some d) w.now) w.hitl (λ r. (refl, refl)))
        (rw (eq_refl id, found, loads) refl)

  -- After an update the request is read with its status.
  pub update_status-read :
      (f : HitlEvent) × ((get_event host id (resolved_world id status (some d) w)).0 ≡ ok (some f))
      × (f.status ≡ status)
  update_status-read =
      let (r, found, loads) = get_event-row host id w e read in
      elim (Bool-cases (truthy (obj d))) [
        | inl full ↦
            let f : HitlEvent = record e {
              status = status;
              payload = d;
              resolved_at = some w.now;
            } in
            (f, updated-read f r found (resolve_row-event host r e status d w.now loads full), refl)
        | inr blank ↦
            let f : HitlEvent = record e { status = status; resolved_at = some w.now } in
            (f, updated-read f r found (resolve_row-kept host r e status d w.now loads blank), refl)
      ]
