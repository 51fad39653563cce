-- ===== src/Engine/Presence.antt =====
-- A request that can be read stays readable, whatever the engine does next.
use mathlib.Core.Option
use nodus_hitl_hub.Base.{
  Bool-cases, String, ap, arith, eq_iff, inl, inr, some, subst, ◌==◌, ◌∙◌, ◌≡◌, ◌≢◌,
}
use nodus_hitl_hub.Engine.Decided.{get_event-row, update_status-read}
use nodus_hitl_hub.Engine.Defs.{HitlEngine}
use nodus_hitl_hub.Engine.Final.{
  IsQuiet, Step, Steps, approves, expire_stale-hitl, expires_stale, leaves, rejects, requests, stay,
  step,
}
use nodus_hitl_hub.Engine.Growth.{request-KeepsReads}
use nodus_hitl_hub.Engine.Kept.{Keeps}
use nodus_hitl_hub.Engine.Race.{on_approved-hitl, on_rejected-hitl}
use nodus_hitl_hub.Engine.Reads.{get_event-hitl, get_event_of}
use nodus_hitl_hub.Engine.Resolve.{
  Outcome, approve-Outcome, approved_payload, done, failed, missing, refused, reject-Outcome,
  rejected_payload, resolved, unwritten,
}
use nodus_hitl_hub.Host.{Host}
use nodus_hitl_hub.Json.{Fields}
use nodus_hitl_hub.Lifecycle.Defs.{on_approved, on_rejected}
use nodus_hitl_hub.Models.Event.{HitlEvent}
use nodus_hitl_hub.Models.Hitl.{HitlResponse, HitlStatus, approved, rejected}
use nodus_hitl_hub.Repository.{expire_row, expire_stale, get_event, optional_event, resolved_world}
use nodus_hitl_hub.Repository.Expiry.{find_row-expired}
use nodus_hitl_hub.Repository.Ledger.{expire_event}
use nodus_hitl_hub.Repository.Shown.{expire_row-Shown}
use nodus_hitl_hub.Repository.Updates.{get_event-update_status_ne}
use nodus_hitl_hub.World.{World}
use nodus_hitl_hub.World.Exec.{Done, Exec, Result, and_then, ok}

-- The request is there, and can be read.
abbrev pub IsThere : Host → String → World → Type 0
IsThere host id w = (e : HitlEvent) × ((get_event host id w).0 ≡ ok (some e))

Outcome-IsThere :
    (host : Host) (id j : String) (status : HitlStatus) (merge : Fields → Fields)
    (hooks : HitlEvent → Exec Done) (w : World)
    → ((f : HitlEvent) → Keeps (hooks f))
    → (result : Result HitlResponse × World)
    → Outcome status merge hooks j w (get_event host j w).0 result
    → IsThere host id w
    → IsThere host id result.1
Outcome-IsThere host id j status merge hooks w keep result (failed x r q) (e, read) = (e, rw q read)
Outcome-IsThere host id j status merge hooks w keep result (missing r q) (e, read) = (e, rw q read)
Outcome-IsThere host id j status merge hooks w keep result (refused f r n q) (e, read) =
    (e, rw q read)
Outcome-IsThere host id j status merge hooks w keep result (unwritten f r p bad q) (e, read) =
    (e, rw q read)
Outcome-IsThere host id j status merge hooks w keep result (done f r p good q) (e, read) =
    let later =
      ap (λ (y : Result HitlResponse × World). (get_event host id y.1).0) q
      ∙ get_event_of host id _ _ (keep (resolved status (merge f.payload) f) _) in
    elim (Bool-cases (j == id)) [
      | inl same ↦
          let me : j ≡ id = (eq_iff j id).0 same in
          let (g, back, _) = update_status-read host j f status (merge f.payload) w r in
          (
            g,
            later
                ∙ subst
                    (λ i.
                      (get_event host i (resolved_world j status (some (merge f.payload)) w)).0
                      ≡ ok (some g))
                    me back,
          )
      | inr other ↦
          let apart : j ≢ id = λ i. ground (arith, eq_iff j id, i, other) in
          (
            e,
            later
                ∙ get_event-update_status_ne host j id status (some (merge f.payload)) w apart
                ∙ read,
          )
    ]

expire_stale-IsThere :
    (host : Host) (id : String) (w : World) → IsThere host id w → IsThere host id (expire_stale w).1
unfolding optional_event
expire_stale-IsThere host id w (e, read) =
    let (r, found, loads) = get_event-row host id w e read in
    (
      expire_event w.now e,
      get_event-hitl host id _ _ (expire_stale-hitl w)
          ∙ ap (optional_event host)
              (find_row-expired id w.now w.hitl ∙ ap (Option.map (expire_row w.now)) found)
          ∙ ap (λ x. and_then x (λ f. ok (some f))) (expire_row-Shown host w.now r e loads),
    )

module _ (host : Host) (engine : HitlEngine) (quiet : IsQuiet engine) (id : String) where
  Step-IsThere : {w v : World} → Step host engine w v → IsThere host id w → IsThere host id v
  Step-IsThere {w = w} (approves j response) there =
      Outcome-IsThere host id j approved (approved_payload response) (on_approved engine.hooks) w
        (λ f u. on_approved-hitl engine.hooks f u quiet.resolving.at_approval) _
        (approve-Outcome host engine j response w) there
  Step-IsThere {w = w} (rejects j reason) there =
      Outcome-IsThere host id j rejected (rejected_payload reason) (on_rejected engine.hooks) w
        (λ f u. on_rejected-hitl engine.hooks f u quiet.resolving.at_rejection) _
        (reject-Outcome host engine j reason w) there
  Step-IsThere {w = w} (requests req) (e, read) =
      (e, request-KeepsReads host engine quiet.creating quiet.validating req w id e read)
  Step-IsThere {w = w} expires_stale there = expire_stale-IsThere host id w there
  Step-IsThere {w = w} {v = v} (leaves same) (e, read) = (e, get_event_of host id v w same ∙ read)

  pub Steps-IsThere : {w v : World} → Steps host engine w v → IsThere host id w → IsThere host id v
  Steps-IsThere stay there = there
  Steps-IsThere (step s rest) there = Steps-IsThere rest (Step-IsThere s there)
