-- ===== src/Engine/Final.antt =====
-- A request that is resolved stays as it is.
use mathlib.Core.Option
use nodus_hitl_hub.Base.{
  Bool-cases, String, ap, arith, eq_iff, false, inl, inr, map, refl, some, subst, sym, ◌==◌, ◌∙◌,
  ◌≡◌, ◌≢◌,
}
use nodus_hitl_hub.Engine.Decided.{get_event-row}
use nodus_hitl_hub.Engine.Defs.{HitlEngine, approve, reject, request}
use nodus_hitl_hub.Engine.Growth.{ValidatorsKeep, request-KeepsReads}
use nodus_hitl_hub.Engine.Kept.{IsTame, Keeps}
use nodus_hitl_hub.Engine.Race.{HooksKeep, on_approved-hitl, on_rejected-hitl}
use nodus_hitl_hub.Engine.Reads.{get_event-hitl, get_event_of}
use nodus_hitl_hub.Engine.Resolve.{
  Outcome, approve-Outcome, approved_payload, done, failed, missing, refused, reject-Outcome,
  rejected_payload, resolved, unwritten,
}
use nodus_hitl_hub.Host.{Host}
use nodus_hitl_hub.Json.{Fields, Value}
use nodus_hitl_hub.Lifecycle.Defs.{Hook, on_approved, on_rejected}
use nodus_hitl_hub.Models.Event.{HitlEvent}
use nodus_hitl_hub.Models.Hitl.{HitlRequest, HitlResponse, HitlStatus, approved, pending, rejected}
use nodus_hitl_hub.Repository.{expire_row, expire_stale, get_event, optional_event}
use nodus_hitl_hub.Repository.Expiry.{find_row-expired}
use nodus_hitl_hub.Repository.Rows.{row_to_event, row_to_event-Loads}
use nodus_hitl_hub.Repository.Updates.{get_event-update_status_ne}
use nodus_hitl_hub.World.{HitlRow, World}
use nodus_hitl_hub.World.Exec.{Done, Exec, Result, and_then, ok}

-- One operation of the engine, an expiry, or what leaves the requests alone, as the passing of time
-- does. The operations run one at a time.
pub data Step (host : Host) (engine : HitlEngine) : World → World → Type 0 where
  approves :
      {w : World} (id : String) (response : Value)
      → Step host engine w (approve host engine id response w).1
  rejects :
      {w : World} (id : String) (reason : Value)
      → Step host engine w (reject host engine id reason w).1
  requests : {w : World} (req : HitlRequest) → Step host engine w (request host engine req w).1
  expires_stale : {w : World} → Step host engine w (expire_stale w).1
  leaves : {w v : World} → v.hitl ≡ w.hitl → Step host engine w v

pub data Steps (host : Host) (engine : HitlEngine) : World → World → Type 0 where
  stay : {w : World} → Steps host engine w w
  step : {u v w : World} → Step host engine u v → Steps host engine v w → Steps host engine u w

-- The hooks of an engine leave the requests alone at a resolution.
pub record HasTameHooks (engine : HitlEngine) : Type 0 where
  pub at_approval : HooksKeep (λ (h : Hook). h.on_approved) engine.hooks
  pub at_rejection : HooksKeep (λ (h : Hook). h.on_rejected) engine.hooks

module _ (host : Host) (id j : String) (status : HitlStatus) (merge : Fields → Fields)
    (hooks : HitlEvent → Exec Done) (w : World) (e : HitlEvent)
    (final : (get_event host id w).0 ≡ ok (some e)) (closed : e.status ≢ pending)
    (keep : (f : HitlEvent) → Keeps (hooks f)) where
  -- A resolution of any request leaves a resolved one as it is.
  Outcome-final :
      (result : Result HitlResponse × World)
      → Outcome status merge hooks j w (get_event host j w).0 result
      → (get_event host id result.1).0 ≡ ok (some e)
  Outcome-final result (failed x r q) = rw q final
  Outcome-final result (missing r q) = rw q final
  Outcome-final result (refused f r n q) = rw q final
  Outcome-final result (unwritten f r p bad q) = rw q final
  Outcome-final result (done f r p good q) = elim (Bool-cases (j == id)) [
    | inl same ↦
        let read : (get_event host id w).0 ≡ ok (some f) =
          subst (λ i. (get_event host i w).0 ≡ ok (some f)) ((eq_iff j id).0 same) r in
        let event : f ≡ e = ground (arith, read, final) in
        elim (closed (ap (λ (x : HitlEvent). x.status) (sym event) ∙ p)) [ ]
    | inr other ↦
        let apart : j ≢ id = λ i. ground (arith, eq_iff j id, i, other) in
        ap (λ (y : Result HitlResponse × World). (get_event host id y.1).0) q
        ∙ get_event_of host id _ _ (keep (resolved status (merge f.payload) f) _)
        ∙ get_event-update_status_ne host j id status (some (merge f.payload)) w apart
        ∙ final
  ]

-- A row that loads as a resolved event is not pending.
loaded_status :
    (host : Host) (r : HitlRow) (e : HitlEvent)
    → row_to_event host r ≡ ok e
    → e.status ≢ pending
    → (r.status == "pending") ≡ false
loaded_status host r e loads closed = elim (Bool-cases (r.status == "pending")) [
  | inr n ↦ n
  | inl y ↦
      let l = row_to_event-Loads host r e loads in
      let waits : ok pending ≡ ok l.status =
        rw ((eq_iff r.status "pending").0 y) at l.status_loads in
      let status : l.status ≡ pending = ground (arith, waits) in
      elim (closed (sym (ap (λ (x : HitlEvent). x.status) l.event) ∙ status)) [ ]
]

pub expire_stale-hitl : (w : World) → (expire_stale w).1.hitl ≡ map (expire_row w.now) w.hitl
unfolding expire_stale
expire_stale-hitl w = refl

expire_stale-final :
    (host : Host) (id : String) (w : World) (e : HitlEvent)
    → (get_event host id w).0 ≡ ok (some e)
    → e.status ≢ pending
    → (get_event host id (expire_stale w).1).0 ≡ ok (some e)
unfolding optional_event
expire_stale-final host id w e final closed =
    let (r, found, loads) = get_event-row host id w e final in
    let kept : expire_row w.now r ≡ r = ground (arith, loaded_status host r e loads closed) in
    get_event-hitl host id _ _ (expire_stale-hitl w)
    ∙ ap (optional_event host)
        (find_row-expired id w.now w.hitl ∙ ap (Option.map (expire_row w.now)) found ∙ ap some kept)
    ∙ ap (λ x. and_then x (λ f. ok (some f))) loads

-- An engine leaves the requests alone beside its own writes.
pub record IsQuiet (engine : HitlEngine) : Type 0 where
  pub validating : ValidatorsKeep engine
  pub creating : IsTame engine
  pub resolving : HasTameHooks engine

module _ (host : Host) (engine : HitlEngine) (quiet : IsQuiet engine) (id : String) (e : HitlEvent)
    (closed : e.status ≢ pending) where
  Step-final :
      {w v : World}
      → Step host engine w v
      → (get_event host id w).0 ≡ ok (some e)
      → (get_event host id v).0 ≡ ok (some e)
  Step-final {w = w} (approves j response) final =
      Outcome-final host id j approved (approved_payload response) (on_approved engine.hooks) w e
        final closed (λ f u. on_approved-hitl engine.hooks f u quiet.resolving.at_approval) _
        (approve-Outcome host engine j response w)
  Step-final {w = w} (rejects j reason) final =
      Outcome-final host id j rejected (rejected_payload reason) (on_rejected engine.hooks) w e
        final closed (λ f u. on_rejected-hitl engine.hooks f u quiet.resolving.at_rejection) _
        (reject-Outcome host engine j reason w)
  Step-final {w = w} (requests req) final =
      request-KeepsReads host engine quiet.creating quiet.validating req w id e final
  Step-final {w = w} expires_stale final = expire_stale-final host id w e final closed
  Step-final {w = w} {v = v} (leaves same) final = get_event_of host id v w same ∙ final

  -- For an engine whose validators, plugins and relay client leave the requests alone, whatever
  -- requests, approvals, rejections and expiries follow, one after the other, and whatever happens
  -- between them that leaves the requests alone, a request that is read with any status but pending
  -- is read the same ever after.
  pub Steps-final :
      {w v : World}
      → Steps host engine w v
      → (get_event host id w).0 ≡ ok (some e)
      → (get_event host id v).0 ≡ ok (some e)
  Steps-final stay final = final
  Steps-final (step s rest) final = Steps-final rest (Step-final s final)
