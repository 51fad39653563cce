-- ===== src/Engine/Race.antt =====
-- Two resolutions of one request, between whose reads and writes there is no lock.
use nodus_hitl_hub.Base.{
  All, Bool-cases, List, String, [], ap, eq_refl, inl, inr, refl, some, true, ℕ, ◌==◌, ◌∙◌, ◌∷◌,
  ◌≡◌,
}
use nodus_hitl_hub.Engine.Defs.{HitlEngine, finish_approve, finish_reject}
use nodus_hitl_hub.Engine.Kept.{Keeps, after_all-hitl}
use nodus_hitl_hub.Engine.Reads.{get_event-hitl}
use nodus_hitl_hub.Engine.Resolve.{
  approved_payload, finish_approve-eq, finish_reject-eq, rejected_payload,
}
use nodus_hitl_hub.Host.{Host}
use nodus_hitl_hub.Json.{Fields, Value, end, field, obj, set, truthy}
use nodus_hitl_hub.Json.Cast.{castable}
use nodus_hitl_hub.Lifecycle.Defs.{Hook, on_approved, on_rejected}
use nodus_hitl_hub.Lifecycle.Isolation.{plugins-IsIsolated}
use nodus_hitl_hub.Mcp.Agreement.{call}
use nodus_hitl_hub.Models.Event.{HitlEvent}
use nodus_hitl_hub.Models.Hitl.{HitlResponse, HitlStatus, approved, rejected, respond}
use nodus_hitl_hub.Repository.{find_row, get_event, optional_event, resolve_row, update_row}
use nodus_hitl_hub.Repository.Keys.{find_row-update_row}
use nodus_hitl_hub.Repository.Rows.{row_to_event}
use nodus_hitl_hub.Repository.Updates.{resolve_row-event}
use nodus_hitl_hub.World.{HitlRow, World}
use nodus_hitl_hub.World.Exec.{Done, Exec, Result, and_then, ok}

-- A call of the hooks on any event leaves the requests alone.
abbrev pub HooksKeep : (Hook → HitlEvent → Exec Done) → List Hook → Type 0
HooksKeep call hooks = All (λ h. (e : HitlEvent) → Keeps (call h e)) hooks

pub at_event :
    (call : Hook → HitlEvent → Exec Done) (e : HitlEvent) (hooks : List Hook)
    → HooksKeep call hooks
    → All (λ h. Keeps (call h e)) hooks
at_event call e [] k = tt
at_event call e (h ∷ hs) k = (k.0 e, at_event call e hs k.1)

pub on_approved-hitl :
    (hooks : List Hook) (e : HitlEvent) (w : World)
    → HooksKeep (λ (h : Hook). h.on_approved) hooks
    → (on_approved hooks e w).1.hitl ≡ w.hitl
on_approved-hitl hooks e w k =
    ap (λ (y : Result Done × World). y.1.hitl) (plugins-IsIsolated hooks [] e w).approved
    ∙ after_all-hitl (λ (h : Hook). h.on_approved e) hooks w
        (at_event (λ (h : Hook). h.on_approved) e hooks k)

pub on_rejected-hitl :
    (hooks : List Hook) (e : HitlEvent) (w : World)
    → HooksKeep (λ (h : Hook). h.on_rejected) hooks
    → (on_rejected hooks e w).1.hitl ≡ w.hitl
on_rejected-hitl hooks e w k =
    ap (λ (y : Result Done × World). y.1.hitl) (plugins-IsIsolated hooks [] e w).rejected
    ∙ after_all-hitl (λ (h : Hook). h.on_rejected e) hooks w
        (at_event (λ (h : Hook). h.on_rejected) e hooks k)

-- Of two updates of a row, the later one with a payload is what is left.
resolve_row_twice :
    (r : HitlRow) (s t : HitlStatus) (d d' : Fields) (now later : ℕ)
    → truthy (obj d') ≡ true
    → resolve_row t (some d') later (resolve_row s (some d) now r) ≡ resolve_row t (some d') later r
resolve_row_twice r s t d d' now later full = rw full refl

pub set-truthy : (key : String) (v : Value) (d : Fields) → truthy (obj (set key v d)) ≡ true
set-truthy key v end = refl
set-truthy key v (field k x d) = elim (Bool-cases (k == key)) [
  | inl same ↦ rw same refl
  | inr other ↦ rw other refl
]

pub find_row-updated :
    (id : String) (s : HitlStatus) (d : Fields) (now : ℕ) (rows : List HitlRow) (r : HitlRow)
    → find_row id rows ≡ some r
    → find_row id (update_row id (resolve_row s (some d) now) rows)
      ≡ some (resolve_row s (some d) now r)
find_row-updated id s d now rows r found =
    rw (find_row-update_row id id (resolve_row s (some d) now) rows (λ r. (refl, refl)))
      (rw (eq_refl id, found) refl)

module _ (engine : HitlEngine) (id : String) (v : Value) (e : HitlEvent) (w : World) where
  finish_approve-hitl :
      castable (obj (approved_payload v e.payload)) ≡ true
      → HooksKeep (λ (h : Hook). h.on_approved) engine.hooks
      → (finish_approve engine id v e w).1.hitl
        ≡ update_row id (resolve_row approved (some (approved_payload v e.payload)) w.now) w.hitl
  finish_approve-hitl good k =
      ap (λ (y : Result HitlResponse × World). y.1.hitl) (finish_approve-eq engine id v w e good)
      ∙ on_approved-hitl engine.hooks _ _ k

  finish_reject-hitl :
      castable (obj (rejected_payload v e.payload)) ≡ true
      → HooksKeep (λ (h : Hook). h.on_rejected) engine.hooks
      → (finish_reject engine id v e w).1.hitl
        ≡ update_row id (resolve_row rejected (some (rejected_payload v e.payload)) w.now) w.hitl
  finish_reject-hitl good k =
      ap (λ (y : Result HitlResponse × World). y.1.hitl) (finish_reject-eq engine id v w e good)
      ∙ on_rejected-hitl engine.hooks _ _ k

-- Where the hooks leave the requests alone and the database takes both payloads, an approval and a rejection that both read the same
-- pending event both succeed when the approval writes first, and what is read afterwards is the
-- event rejected, with the payload of the read and the reason: of the approval nothing is left.
pub finish_reject-finish_approve :
    (host : Host) (engine : HitlEngine) (id : String) (response reason : Value) (e : HitlEvent)
    (r : HitlRow) (w : World)
    → HooksKeep (λ (h : Hook). h.on_approved) engine.hooks
    → HooksKeep (λ (h : Hook). h.on_rejected) engine.hooks
    → find_row id w.hitl ≡ some r
    → row_to_event host r ≡ ok e
    → castable (obj (approved_payload response e.payload)) ≡ true
    → castable (obj (rejected_payload reason e.payload)) ≡ true
    → ((finish_approve engine id response e w).0 ≡ ok (respond (some id) approved))
      × ((finish_reject engine id reason e (finish_approve engine id response e w).1).0
          ≡ ok (respond (some id) rejected))
      × ((get_event host id
            (finish_reject engine id reason e (finish_approve engine id response e w).1).1).0
          ≡ ok (
              some (record e {
                status = rejected;
                payload = rejected_payload reason e.payload;
                resolved_at = some (finish_approve engine id response e w).1.now;
              })))
unfolding optional_event
finish_reject-finish_approve host engine id response reason e r w ka kr found loads good fine =
    let v = (finish_approve engine id response e w).1 in
    let p = approved_payload response e.payload in
    let q = rejected_payload reason e.payload in
    let first : find_row id v.hitl ≡ some (resolve_row approved (some p) w.now r) =
      ap (find_row id) (finish_approve-hitl engine id response e w good ka)
      ∙ find_row-updated id approved p w.now w.hitl r found in
    let second =
      find_row-updated id rejected q v.now v.hitl (resolve_row approved (some p) w.now r) first in
    let full = set-truthy "resolution" (obj (field "reason" reason end)) e.payload in
    (
      ap (λ (y : Result HitlResponse × World). y.0) (finish_approve-eq engine id response w e good),
      ap (λ (y : Result HitlResponse × World). y.0) (finish_reject-eq engine id reason v e fine),
      get_event-hitl host id _ _ (finish_reject-hitl engine id reason e v fine kr)
          ∙ ap (optional_event host)
              (second ∙ ap some (resolve_row_twice r approved rejected p q w.now v.now full))
          ∙ ap (λ x. and_then x (λ f. ok (some f)))
              (resolve_row-event host r e rejected q v.now loads full),
    )
