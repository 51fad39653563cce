-- ===== src/Repository/Shown.antt =====
-- How what a statement does to rows shows in the reads by id and in the keys that are taken.
use mathlib.Core.Option
use nodus_hitl_hub.Base.{
  Bool, Bool-cases, List, Option, String, [], any, ap, arith, eq_iff, false, inl, inr, is_text, ltb,
  map, none, refl, some, subst, sym, ℕ, ◌&&◌, ◌++◌, ◌==◌, ◌||◌, ◌∙◌, ◌∷◌, ◌≡◌,
}
use nodus_hitl_hub.Host.{Host}
use nodus_hitl_hub.Json.{Fields, end, obj, truthy}
use nodus_hitl_hub.Models.Event.{HitlEvent}
use nodus_hitl_hub.Models.Hitl.{HitlStatus, expired, is_pending}
use nodus_hitl_hub.Repository.{
  clashes, coalesce, expire_row, find_row, is_stale, optional_event, resolve_row,
}
use nodus_hitl_hub.Repository.Keys.{KeepsKeys}
use nodus_hitl_hub.Repository.Ledger.{
  expire_event, has_taken, is_overdue, is_some, reference_event, resolve_event,
}
use nodus_hitl_hub.Repository.Rows.{row_to_event, row_to_event-Loads, status_result}
use nodus_hitl_hub.Repository.Updates.{resolve_row-event, resolve_row-kept}
use nodus_hitl_hub.World.{HitlRow}
use nodus_hitl_hub.World.Exec.{and_then-ok, ok}

-- The rows that have an idempotency key.
abbrev pub key_in : List HitlRow → String → Bool
key_in rows k = any (λ r. is_text r.idempotency_key k) rows

module _ (host : Host) where
  -- A change of rows that shows as a change of events.
  abbrev pub Shown : (HitlRow → HitlRow) → (HitlEvent → HitlEvent) → Type 0
  Shown change f =
      (r : HitlRow) (e : HitlEvent)
      → row_to_event host r ≡ ok e
      → row_to_event host (change r) ≡ ok (f e)

  pub optional_event-map :
      (change : HitlRow → HitlRow) (f : HitlEvent → HitlEvent)
      → Shown change f
      → (row : Option HitlRow) (event : Option HitlEvent) → optional_event host row ≡ ok event
      → optional_event host (Option.map change row) ≡ ok (Option.map f event)
  unfolding optional_event
  optional_event-map change f shown none event h = ground (arith, h)
  optional_event-map change f shown (some r) event h =
      let (e, loads, last) = and_then-ok (row_to_event host r) _ h in
      let same : event ≡ some e = ground (arith, last) in rw (same, shown r e loads) refl

pub key_in-map :
    (c : HitlRow → HitlRow) (rows : List HitlRow) (k : String)
    → KeepsKeys c
    → key_in (map c rows) k ≡ key_in rows k
key_in-map c [] k keep = refl
key_in-map c (r ∷ rows) k keep = ground (arith, keep r, key_in-map c rows k keep)

pub key_in-append :
    (rows : List HitlRow) (r : HitlRow) (k : String)
    → key_in (rows ++ r ∷ []) k ≡ (key_in rows k || is_text r.idempotency_key k)
key_in-append [] r k = ground arith
key_in-append (s ∷ rows) r k = ground (arith, key_in-append rows r k)

pub find_row-append_ne :
    (rows : List HitlRow) (r : HitlRow) (j : String)
    → (r.event_id == j) ≡ false
    → find_row j (rows ++ r ∷ []) ≡ find_row j rows
find_row-append_ne [] r j other = ground (arith, other)
find_row-append_ne (s ∷ rows) r j other = ground (arith, find_row-append_ne rows r j other)

-- A row clashes by its id or by its key.
pub any-clashes :
    (row : HitlRow) (rows : List HitlRow)
    → any (clashes row) rows
      ≡ (is_some (find_row row.event_id rows) || has_taken (key_in rows) row.idempotency_key)
any-clashes row [] = ground arith
any-clashes row (r ∷ rows) =
    ground
      (arith, eq_iff row.event_id r.event_id, eq_iff r.event_id row.event_id, any-clashes row rows)

-- The row of a pending event is pending, and no other.
status_pending :
    (text : String) (s : HitlStatus)
    → status_result text ≡ ok s
    → (text == "pending") ≡ is_pending s
status_pending text s h = ground (arith, h)

module _ (host : Host) where
  pub resolve_row-Shown :
      (status : HitlStatus) (response : Option Fields) (now : ℕ)
      → Shown host (resolve_row status response now) (resolve_event status response now)
  resolve_row-Shown status none now r e loads = resolve_row-kept host r e status end now loads refl
  resolve_row-Shown status (some d) now r e loads = elim (Bool-cases (truthy (obj d))) [
    | inl full ↦
        let written : resolve_event status (some d) now e
            ≡ record e { status = status; payload = d; resolved_at = some now } =
          rw full refl in
        resolve_row-event host r e status d now loads full ∙ ap ok (sym written)
    | inr empty ↦
        let written : resolve_event status (some d) now e
            ≡ record e { status = status; resolved_at = some now } =
          rw empty refl in
        resolve_row-kept host r e status d now loads empty ∙ ap ok (sym written)
  ]

  pub reference-Shown :
      (ref : String) (relay : Option String)
      → Shown host
          (λ r. record r { reference_id = some ref; relay_url = coalesce relay r.relay_url })
          (reference_event ref relay)
  unfolding row_to_event
  reference-Shown ref relay r e loads =
      let l = row_to_event-Loads host r e loads in
      rw (l.status_loads, l.payload_loads, l.tags_load)
        (ap (λ x. ok (reference_event ref relay x)) l.event)

  -- An overdue event is one whose row is stale.
  is_overdue-is_stale :
      (now : ℕ) (r : HitlRow) (e : HitlEvent)
      → row_to_event host r ≡ ok e
      → is_overdue now e ≡ is_stale now r
  is_overdue-is_stale now r e loads =
      let l = row_to_event-Loads host r e loads in
      let same = status_pending r.status l.status l.status_loads in
      subst (λ (x : HitlEvent). is_overdue now x ≡ is_stale now r) l.event
        (ap (λ b. b && elim r.expires_at [ none ↦ false | some t ↦ ltb t now ]) (sym same))

  pub expire_row-Shown : (now : ℕ) → Shown host (expire_row now) (expire_event now)
  expire_row-Shown now r e loads = elim (Bool-cases (is_stale now r)) [
    | inl stale ↦
        let overdue = is_overdue-is_stale now r e loads ∙ stale in
        let row : expire_row now r ≡ resolve_row expired none now r = rw stale refl in
        let written : expire_event now e ≡ record e { status = expired; resolved_at = some now } =
          rw overdue refl in
        ap (row_to_event host) row
        ∙ resolve_row-kept host r e expired end now loads refl
        ∙ ap ok (sym written)
    | inr not_stale ↦
        let in_time = is_overdue-is_stale now r e loads ∙ not_stale in
        let row : expire_row now r ≡ r = rw not_stale refl in
        let written : expire_event now e ≡ e = rw in_time refl in
        ap (row_to_event host) row ∙ loads ∙ ap ok (sym written)
  ]
