-- ===== src/Hooks/Defs.antt =====
-- plugins/hooks: audit.py, cache.py and modelbook.py, and expiry.py, whose hook does nothing at a
-- transition: its loop calls `expire_stale`.
use nodus_hitl_hub.Base.{
  Bool, List, Option, String, [], concat, false, if◌then◌else◌, is_full, is_text, none, or_text,
  some, true, ◌&&◌, ◌∷◌,
}
use nodus_hitl_hub.Base.Strip.{strip_slashes}
use nodus_hitl_hub.Host.{Host}
use nodus_hitl_hub.Json.{
  Fields, Value, bool, end, field, get, get_or, obj, opt_str, or_value, str, truthy,
}
use nodus_hitl_hub.Lifecycle.Defs.{Hook}
use nodus_hitl_hub.Models.Event.{HitlEvent}
use nodus_hitl_hub.World.{audit_line}
use nodus_hitl_hub.World.Exec.{Done, Exec, attempt, pure, send}

-- `%s` of an optional text
abbrev pub shown_text : Option String → String
shown_text none = "None"
shown_text (some s) = s

-- `event.payload.get("reason", "unknown")`
unfoldable pub audit_reason : Fields → Value
audit_reason payload = get_or "reason" (str "unknown") payload

-- The line of a transition, up to the user.
abbrev pub audit_text : String → HitlEvent → String
audit_text verb event = concat (
    "AUDIT | HITL "
    ∷ verb
    ∷ " | id="
    ∷ event.event_id
    ∷ " action="
    ∷ shown_text event.action
    ∷ " user="
    ∷ event.user_id
    ∷ [])

module _ (host : Host) where
  unfoldable pub audit_hook : Hook
  audit_hook = record {
    name = "AuditHook";
    on_created = λ event. send (
        audit_line
          (concat (audit_text "created" event ∷ " tenant=" ∷ shown_text event.tenant_id ∷ [])));
    on_approved = λ event. send (audit_line (audit_text "approved" event));
    on_rejected = λ event. send (
        audit_line (
          concat (
            audit_text "rejected" event
            ∷ " reason="
            ∷ host.py_str (audit_reason event.payload)
            ∷ [])));
    on_expired = λ event. send (audit_line (audit_text "expired" event));
  }

-- cache.py: `_invalidate_inbox` with the `delete` of the cache, if there is one
unfoldable pub invalidate_inbox : Option (String → Exec Done) → String → Exec Done
invalidate_inbox redis user_id = elim redis [
  | none ↦ pure tt
  | some delete ↦
      if is_full user_id then attempt (delete (concat ("inbox:" ∷ user_id ∷ []))) else pure tt
]

unfoldable pub cache_hook : Option (String → Exec Done) → Hook
cache_hook redis = record {
  name = "CacheHook";
  on_created = λ event. invalidate_inbox redis event.user_id;
  on_approved = λ event. invalidate_inbox redis event.user_id;
  on_rejected = λ event. invalidate_inbox redis event.user_id;
  on_expired = λ event. invalidate_inbox redis event.user_id;
}

abbrev pub action_type : String
action_type = "modelbook_conflict"

-- The body of the call of Memorium.
unfoldable pub conflict_body : HitlEvent → Bool → Value
conflict_body event is_approved = obj (
    field "tenant_id"
      (or_value (get "tenant_id" event.payload) (or_value (opt_str event.tenant_id) (str "nodus")))
      (field "proposal_id" (get "proposal_id" event.payload) (
        field "approved" (bool is_approved) (
          field "reviewer" (str (concat ("hitl:" ∷ or_text (some event.user_id) "unknown" ∷ [])))
            end))))

-- The guards of `_resolve`: where to post, or `none`. The argument is the variable MEMORIUM_URL,
-- "" where it is not set.
unfoldable pub conflict_url : String → HitlEvent → Option String
conflict_url variable event =
    let base = strip_slashes variable in
    if is_text event.action action_type && is_full base && truthy (get "proposal_id" event.payload)
    then some (concat (base ∷ "/modelbook/proposals/resolve-conflict" ∷ []))
    else none

-- `ModelBookHook._resolve` with the `post` of the HTTP client. What the answer holds is only
-- logged.
unfoldable pub resolve_conflict :
    (String → Value → Exec Done) → String → HitlEvent → Bool → Exec Done
resolve_conflict post variable event is_approved = elim (conflict_url variable event) [
  | none ↦ pure tt
  | some url ↦ attempt (post url (conflict_body event is_approved))
]

unfoldable pub modelbook_hook : (String → Value → Exec Done) → String → Hook
modelbook_hook post variable = record {
  name = "ModelBookHook";
  on_created = λ event. pure tt;
  on_approved = λ event. resolve_conflict post variable event true;
  on_rejected = λ event. resolve_conflict post variable event false;
  on_expired = λ event. pure tt;
}

abbrev pub expiry_hook : Hook
expiry_hook = record {
  name = "ExpiryHook";
  on_created = λ event. pure tt;
  on_approved = λ event. pure tt;
  on_rejected = λ event. pure tt;
  on_expired = λ event. pure tt;
}

-- The hooks that the lifecycle manager discovers, in the order of their modules.
abbrev pub hub_hooks :
    Host → Option (String → Exec Done) → (String → Value → Exec Done) → String → List Hook
hub_hooks host redis post variable =
    audit_hook host ∷ cache_hook redis ∷ expiry_hook ∷ modelbook_hook post variable ∷ []
