-- ===== src/Hooks/Reasons.antt =====
-- The reason of a rejection in the audit.
use nodus_hitl_hub.Base.{
  Bool-cases, String, [], ap, arith, concat, inl, inr, none, sym, ◌∙◌, ◌∷◌, ◌≡◌,
}
use nodus_hitl_hub.Engine.Defs.{HitlEngine, finish_reject}
use nodus_hitl_hub.Engine.Resolve.{finish_reject-eq, finish_reject-refused, rejected_payload}
use nodus_hitl_hub.Hooks.Defs.{audit_hook, audit_reason, audit_text}
use nodus_hitl_hub.Host.{Host}
use nodus_hitl_hub.Json.{Fields, Value, end, field, lookup, obj, str}
use nodus_hitl_hub.Json.Cast.{castable}
use nodus_hitl_hub.Json.Laws.{lookup-set}
use nodus_hitl_hub.Lifecycle.Defs.{on_rejected}
use nodus_hitl_hub.Models.Event.{HitlEvent}
use nodus_hitl_hub.Models.Hitl.{HitlResponse}
use nodus_hitl_hub.World.{World, audit_line}
use nodus_hitl_hub.World.Exec.{Result, err, external, for_each, ok}

-- The engine with the audit hook alone.
abbrev pub auditing : Host → HitlEngine → HitlEngine
auditing host engine = record engine { hooks = audit_hook host ∷ [] }

rejected_reason :
    (reason : Value) (payload : Fields)
    → lookup "reason" payload ≡ none
    → audit_reason (rejected_payload reason payload) ≡ str "unknown"
unfolding audit_reason
rejected_reason reason payload unsaid =
    ground
      (arith, unsaid, lookup-set "resolution" "reason" (obj (field "reason" reason end)) payload)

-- For an engine with the audit hook alone, and a request whose payload has no reason of its own: a
-- rejection that is answered logs one line, which says that the reason is unknown, whatever reason it was
-- given.
pub finish_reject-audit :
    (host : Host) (engine : HitlEngine) (id : String) (reason : Value) (e : HitlEvent) (w : World)
    (a : HitlResponse)
    → lookup "reason" e.payload ≡ none
    → (finish_reject (auditing host engine) id reason e w).0 ≡ ok a
    → (finish_reject (auditing host engine) id reason e w).1.sent
      ≡ audit_line (concat (audit_text "rejected" e ∷ " reason=" ∷ "unknown" ∷ [])) ∷ w.sent
unfolding on_rejected for_each audit_hook
finish_reject-audit host engine id reason e w a unsaid answer =
    elim (Bool-cases (castable (obj (rejected_payload reason e.payload)))) [
      | inr bad ↦
          let wrong : err external ≡ ok a =
            sym (
              ap (λ (y : Result HitlResponse × World). y.0)
                (finish_reject-refused (auditing host engine) id reason w e bad))
            ∙ answer in
          cc
      | inl good ↦
          ap (λ (y : Result HitlResponse × World). y.1.sent)
            (finish_reject-eq (auditing host engine) id reason w e good)
          ∙ ap
              (λ v.
                audit_line (concat (audit_text "rejected" e ∷ " reason=" ∷ host.py_str v ∷ []))
                ∷ w.sent)
              (rejected_reason reason e.payload unsaid)
          ∙ ap (λ s. audit_line (concat (audit_text "rejected" e ∷ " reason=" ∷ s ∷ [])) ∷ w.sent)
              (host.py_str-str "unknown")
    ]
