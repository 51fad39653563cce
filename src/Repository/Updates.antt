-- ===== src/Repository/Updates.antt =====
-- What is read back after a write.
use nodus_hitl_hub.Base.{
  Bool-cases, Option, String, [], any, ap, arith, concat, eq_iff, eq_refl, false, inl, inr, none,
  or_text, refl, some, true, ℕ, ◌++◌, ◌∷◌, ◌≡◌, ◌≢◌,
}
use nodus_hitl_hub.Host.{Host}
use nodus_hitl_hub.Json.{Fields, Items, arr, cons, end, field, nil, obj, opt_str, or_value, truthy}
use nodus_hitl_hub.Json.Print.{dumps}
use nodus_hitl_hub.Models.Event.{HitlEvent}
use nodus_hitl_hub.Models.Hitl.{HitlStatus, pending, status_value}
use nodus_hitl_hub.Repository.{
  clashes, find_row, get_event, insert, optional_event, resolve_row, resolved_world, storable,
  update_status,
}
use nodus_hitl_hub.Repository.Keys.{find_row-append, find_row-update_row}
use nodus_hitl_hub.Repository.Rows.{row_of_event, row_to_event, row_to_event-Loads, status_result}
use nodus_hitl_hub.World.{HitlRow, World}
use nodus_hitl_hub.World.Exec.{Done, Result, err, external, ok, unique_violation}

-- An event as it comes back from the database: the columns that `insert` fills in are filled, and
-- a resolution time is not stored.
abbrev pub stored : HitlEvent → HitlEvent
stored e = record e {
  session_id = some (or_text e.session_id (concat ("hitl-" ∷ e.event_id ∷ [])));
  dw_pubkey = some (or_text e.dw_pubkey "hitl-hub");
  content = some (
      or_text e.content
        (dumps true (obj (field "hint" (opt_str e.hint) (field "action" (opt_str e.action) end)))));
  pubkey = or_text (some e.pubkey) "hitl-hub";
  resolved_at = none;
  tenant_id = some (or_text e.tenant_id "default");
}

pub status_result-value : (s : HitlStatus) → status_result (status_value s) ≡ ok s
status_result-value pending = refl
status_result-value _ = refl

or_value-obj : (d : Fields) → or_value (obj d) (obj end) ≡ obj d
or_value-obj end = refl
or_value-obj (field k v d) = refl

or_value-arr : (xs : Items) → or_value (arr xs) (arr nil) ≡ arr xs
or_value-arr nil = refl
or_value-arr (cons x xs) = refl

or_text-blank : (s : String) → or_text (some s) "" ≡ s
or_text-blank s = ground (arith, eq_iff s "")

-- The row that `insert` writes loads as the stored event, whatever the event.
pub row_to_event-row_of_event :
    (host : Host) (e : HitlEvent) → row_to_event host (row_of_event e) ≡ ok (stored e)
unfolding row_to_event row_of_event
row_to_event-row_of_event host e =
    rw
      (
        status_result-value e.status,
        or_value-obj e.payload,
        host.dict_field-obj e.payload,
        or_value-arr e.tags,
        host.list_field-arr e.tags,
        or_text-blank e.user_id,
      )
      refl

-- A refused insert is the unique violation, and leaves the database as it was.
pub insert-refused :
    (e : HitlEvent) (w : World)
    → storable e ≡ true
    → any (clashes (row_of_event e)) w.hitl ≡ true
    → insert e w ≡ (err unique_violation, w)
unfolding insert
insert-refused e w good taken = rw (good, taken) refl

-- An insert whose keys are free appends the row.
pub insert-accepted :
    (e : HitlEvent) (w : World)
    → storable e ≡ true
    → any (clashes (row_of_event e)) w.hitl ≡ false
    → insert e w ≡ (ok tt, record w { hitl = w.hitl ++ row_of_event e ∷ [] })
unfolding insert
insert-accepted e w good free = rw (good, free) refl

-- An insert whose values the JSONB columns refuse raises, and leaves the database as it was.
pub insert-unstorable :
    (e : HitlEvent) (w : World) → storable e ≡ false → insert e w ≡ (err external, w)
unfolding insert
insert-unstorable e w bad = rw bad refl

module _ (host : Host) where
  -- An event that `insert` accepts is read back by its id with the columns filled in: the insert
  -- and the query are a round trip.
  pub get_event-insert :
      (e : HitlEvent) (w : World)
      → (insert e w).0 ≡ ok tt
      → get_event host e.event_id (insert e w).1 ≡ (ok (some (stored e)), (insert e w).1)
  unfolding insert get_event optional_event
  get_event-insert e w h = elim (Bool-cases (storable e)) [
    | inr bad ↦ cc (ap (λ (x : Result Done × World). x.0) (insert-unstorable e w bad))
    | inl good ↦ elim (Bool-cases (any (clashes (row_of_event e)) w.hitl)) [
      | inl taken ↦ cc (ap (λ (x : Result Done × World). x.0) (insert-refused e w good taken))
      | inr free ↦
          rw (good, free, find_row-append (row_of_event e) w.hitl free)
            (rw (row_to_event-row_of_event host e) refl)
    ]
  ]

  pub resolve_row-event :
      (r : HitlRow) (e : HitlEvent) (status : HitlStatus) (d : Fields) (now : ℕ)
      → row_to_event host r ≡ ok e
      → truthy (obj d) ≡ true
      → row_to_event host (resolve_row status (some d) now r)
        ≡ ok (record e { status = status; payload = d; resolved_at = some now })
  unfolding row_to_event
  resolve_row-event r e status d now h full =
      let l = row_to_event-Loads host r e h in
      rw (full, status_result-value status, or_value-obj d, host.dict_field-obj d, l.tags_load)
        (ap
          (λ (x : HitlEvent).
            ok (record x { status = status; payload = d; resolved_at = some now }))
          l.event)

  -- After an update of a row that loads as `e`, the read gives `e` with the status, the payload and
  -- the time of the update, and nothing else changed.
  pub get_event-update_status :
      (id : String) (r : HitlRow) (e : HitlEvent) (status : HitlStatus) (d : Fields) (w : World)
      → find_row id w.hitl ≡ some r
      → row_to_event host r ≡ ok e
      → truthy (obj d) ≡ true
      → (get_event host id (resolved_world id status (some d) w)).0
        ≡ ok (some (record e { status = status; payload = d; resolved_at = some w.now }))
  unfolding get_event update_status optional_event
  get_event-update_status id r e status d w found h full =
      rw (find_row-update_row id id (resolve_row status (some d) w.now) w.hitl (λ r. (refl, refl)))
        (rw (eq_refl id, found, resolve_row-event r e status d w.now h full) refl)

  -- The read of any other id is as before.
  pub get_event-update_status_ne :
      (id j : String) (status : HitlStatus) (response : Option Fields) (w : World)
      → id ≢ j
      → (get_event host j (resolved_world id status response w)).0 ≡ (get_event host j w).0
  unfolding get_event update_status
  get_event-update_status_ne id j status response w h =
      rw (find_row-update_row id j (resolve_row status response w.now) w.hitl (λ r. (refl, refl)))
        (ground (arith, eq_iff id j))

-- An empty payload is not written.
pub resolve_row-kept :
    (host : Host) (r : HitlRow) (e : HitlEvent) (status : HitlStatus) (d : Fields) (now : ℕ)
    → row_to_event host r ≡ ok e
    → truthy (obj d) ≡ false
    → row_to_event host (resolve_row status (some d) now r)
      ≡ ok (record e { status = status; resolved_at = some now })
unfolding row_to_event
resolve_row-kept host r e status d now h blank =
    let l = row_to_event-Loads host r e h in
    rw (blank, status_result-value status, l.payload_loads, l.tags_load)
      (ap (λ (x : HitlEvent). ok (record x { status = status; resolved_at = some now })) l.event)

-- A read changes nothing.
pub get_event_reads : (host : Host) (id : String) (w : World) → (get_event host id w).1 ≡ w
unfolding get_event
get_event_reads host id w = refl
