-- ===== src/Hooks/Conflicts.antt =====
-- The call of Memorium at a resolution.
use nodus_hitl_hub.Base.{
  Bool, Bool-cases, Option, String, [], ap, arith, false, inl, inr, none, refl, some, sym, true,
  ◌∙◌, ◌∷◌, ◌≡◌,
}
use nodus_hitl_hub.Engine.Defs.{HitlEngine, finish_approve, finish_reject}
use nodus_hitl_hub.Engine.Resolve.{
  approved_payload, finish_approve-eq, finish_approve-refused, finish_reject-eq,
  finish_reject-refused, rejected_payload, resolved,
}
use nodus_hitl_hub.Hooks.Defs.{conflict_body, conflict_url, modelbook_hook, resolve_conflict}
use nodus_hitl_hub.Json.{Fields, Value, end, field, get, obj, set, truthy}
use nodus_hitl_hub.Json.Cast.{castable}
use nodus_hitl_hub.Json.Laws.{lookup-set}
use nodus_hitl_hub.Lifecycle.Defs.{on_approved, on_rejected}
use nodus_hitl_hub.Models.Event.{HitlEvent}
use nodus_hitl_hub.Models.Hitl.{HitlResponse, HitlStatus, approved, rejected}
use nodus_hitl_hub.Repository.{resolved_world}
use nodus_hitl_hub.World.{World}
use nodus_hitl_hub.World.Exec.{Done, Exec, Result, attempt, err, external, for_each, ok, pure}

-- The engine with the hook that calls Memorium alone.
abbrev pub reporting : HitlEngine → (String → Value → Exec Done) → String → HitlEngine
reporting engine post variable = record engine { hooks = modelbook_hook post variable ∷ [] }

-- The call of Memorium that a resolution makes is the one for the event of the request: nothing but the
-- table of requests changed before.
pub record IsReported (post : String → Value → Exec Done) (variable : String) (verdict : Bool)
    (e : HitlEvent) (w : World) (result : Result HitlResponse × World) : Type 0 where
  pub before : World
  pub only_requests : before ≡ record w { hitl = before.hitl }
  pub called : result.1 ≡ (resolve_conflict post variable e verdict before).1

-- The key of the resolution is none that the hook reads.
conflict_reads :
    (v : Value) (d : Fields)
    → (get "proposal_id" (set "resolution" v d) ≡ get "proposal_id" d)
      × (get "tenant_id" (set "resolution" v d) ≡ get "tenant_id" d)
conflict_reads v d = (
  ground (arith, lookup-set "resolution" "proposal_id" v d),
  ground (arith, lookup-set "resolution" "tenant_id" v d),
)

-- The call of Memorium, or none.
abbrev report : (String → Value → Exec Done) → Option String → Value → Exec Done
report post target body = elim target [ none ↦ pure tt | some url ↦ attempt (post url body) ]

-- What the hook does for an event with a payload in place of its own: as for the event itself.
abbrev SamePost : HitlEvent → HitlStatus → Fields → Type 0
SamePost e status payload =
    (post : String → Value → Exec Done) (variable : String) (verdict : Bool)
    → resolve_conflict post variable (resolved status payload e) verdict
      ≡ resolve_conflict post variable e verdict

same_url :
    (e : HitlEvent) (status : HitlStatus) (v : Value) (variable : String)
    → conflict_url variable (resolved status (set "resolution" v e.payload) e)
      ≡ conflict_url variable e
unfolding conflict_url
same_url e status v variable = rw ((conflict_reads v e.payload).0) refl

same_body :
    (e : HitlEvent) (status : HitlStatus) (v : Value) (verdict : Bool)
    → conflict_body (resolved status (set "resolution" v e.payload) e) verdict
      ≡ conflict_body e verdict
unfolding conflict_body
same_body e status v verdict = let (p, t) = conflict_reads v e.payload in rw (p, t) refl

merged-SamePost :
    (e : HitlEvent) (status : HitlStatus) (v : Value)
    → SamePost e status (set "resolution" v e.payload)
unfolding resolve_conflict
merged-SamePost e status v post variable verdict =
    ap
      (λ body.
        report post (conflict_url variable (resolved status (set "resolution" v e.payload) e)) body)
      (same_body e status v verdict)
    ∙ ap (λ url. report post url (conflict_body e verdict)) (same_url e status v variable)

approved-SamePost :
    (e : HitlEvent) (response : Value) → SamePost e approved (approved_payload response e.payload)
unfolding resolve_conflict conflict_url conflict_body
approved-SamePost e response post variable verdict = elim (Bool-cases (truthy response)) [
  | inl given ↦ rw given (merged-SamePost e approved response post variable verdict)
  | inr not_given ↦ rw not_given refl
]

module _ (engine : HitlEngine) (post : String → Value → Exec Done) (variable : String) (id : String)
    (e : HitlEvent) (w : World) where
  approve-IsReported :
      (response : Value) (a : HitlResponse)
      → (finish_approve (reporting engine post variable) id response e w).0 ≡ ok a
      → IsReported post variable true e w
          (finish_approve (reporting engine post variable) id response e w)
  unfolding on_approved for_each modelbook_hook
  approve-IsReported response a answer =
      elim (Bool-cases (castable (obj (approved_payload response e.payload)))) [
        | inr bad ↦
            let wrong : err external ≡ ok a =
              sym (
                ap (λ (y : Result HitlResponse × World). y.0)
                  (finish_approve-refused (reporting engine post variable) id response w e bad))
              ∙ answer in
            cc
        | inl good ↦
            let v = resolved_world id approved (some (approved_payload response e.payload)) w in
            record {
              before = v;
              only_requests = refl;
              called =
                  ap (λ (y : Result HitlResponse × World). y.1)
                    (finish_approve-eq (reporting engine post variable) id response w e good)
                  ∙ ap (λ (m : Exec Done). (m v).1)
                      (approved-SamePost e response post variable true);
            }
      ]

  reject-IsReported :
      (reason : Value) (a : HitlResponse)
      → (finish_reject (reporting engine post variable) id reason e w).0 ≡ ok a
      → IsReported post variable false e w
          (finish_reject (reporting engine post variable) id reason e w)
  unfolding on_rejected for_each modelbook_hook
  reject-IsReported reason a answer =
      elim (Bool-cases (castable (obj (rejected_payload reason e.payload)))) [
        | inr bad ↦
            let wrong : err external ≡ ok a =
              sym (
                ap (λ (y : Result HitlResponse × World). y.0)
                  (finish_reject-refused (reporting engine post variable) id reason w e bad))
              ∙ answer in
            cc
        | inl good ↦
            let v = resolved_world id rejected (some (rejected_payload reason e.payload)) w in
            record {
              before = v;
              only_requests = refl;
              called =
                  ap (λ (y : Result HitlResponse × World). y.1)
                    (finish_reject-eq (reporting engine post variable) id reason w e good)
                  ∙ ap (λ (m : Exec Done). (m v).1)
                      (merged-SamePost e rejected (obj (field "reason" reason end)) post variable
                        false);
            }
      ]

  -- For an engine with this hook alone, an approval and a rejection of an event that is read as pending,
  -- once they are answered, called Memorium as for the event of the request, its payload included,
  -- whatever the response and the reason: the same post to the same place, or none.
  pub finish-IsReported :
      (response reason : Value) (a b : HitlResponse)
      → (finish_approve (reporting engine post variable) id response e w).0 ≡ ok a
      → (finish_reject (reporting engine post variable) id reason e w).0 ≡ ok b
      → IsReported post variable true e w
          (finish_approve (reporting engine post variable) id response e w)
        × IsReported post variable false e w
            (finish_reject (reporting engine post variable) id reason e w)
  finish-IsReported response reason a b yes_answer no_answer =
      (approve-IsReported response a yes_answer, reject-IsReported reason b no_answer)
