-- ===== src/Hooks/Keeping.antt =====
-- The hub's own hooks leave the requests alone, as the engine relies on.
use nodus_hitl_hub.Base.{
  Bool, Bool-cases, Option, Option-cases, String, [], concat, false, inl, inr, is_full, none, refl,
  some, true, ◌∷◌,
}
use nodus_hitl_hub.Engine.Kept.{Keeps}
use nodus_hitl_hub.Engine.Race.{HooksKeep}
use nodus_hitl_hub.Hooks.Defs.{
  audit_hook, cache_hook, conflict_body, conflict_url, hub_hooks, invalidate_inbox, modelbook_hook,
  resolve_conflict,
}
use nodus_hitl_hub.Host.{Host}
use nodus_hitl_hub.Json.{Value}
use nodus_hitl_hub.Lifecycle.Defs.{Hook}
use nodus_hitl_hub.Models.Event.{HitlEvent}
use nodus_hitl_hub.World.Exec.{Done, Exec}

-- The cache leaves the requests alone.
abbrev pub CacheKeeps : Option (String → Exec Done) → Type 0
CacheKeeps none = Unit
CacheKeeps (some delete) = (key : String) → Keeps (delete key)

-- The HTTP client leaves the requests alone.
abbrev pub PostKeeps : (String → Value → Exec Done) → Type 0
PostKeeps post = (url : String) (body : Value) → Keeps (post url body)

invalidate_inbox-Keeps :
    (redis : Option (String → Exec Done)) (u : String)
    → CacheKeeps redis
    → Keeps (invalidate_inbox redis u)
unfolding invalidate_inbox
invalidate_inbox-Keeps none u k w = refl
invalidate_inbox-Keeps (some delete) u k w = elim (Bool-cases (is_full u)) [
  | inl full ↦ rw full (k (concat ("inbox:" ∷ u ∷ [])) w)
  | inr blank ↦ rw blank refl
]

resolve_conflict-Keeps :
    (post : String → Value → Exec Done) (variable : String) (e : HitlEvent) (verdict : Bool)
    → PostKeeps post
    → Keeps (resolve_conflict post variable e verdict)
unfolding resolve_conflict
resolve_conflict-Keeps post variable e verdict k w = elim (Option-cases (conflict_url variable e)) [
  | inl p ↦ rw (p, resolve_conflict) refl
  | inr (url, p) ↦ rw (p, resolve_conflict) (k url (conflict_body e verdict) w)
]

-- Where the cache and the HTTP client leave the requests alone, the four hooks that the hub
-- discovers do so when a request is created, approved or rejected.
pub hub_hooks-keep :
    (host : Host) (redis : Option (String → Exec Done)) (post : String → Value → Exec Done)
    (variable : String)
    → CacheKeeps redis
    → PostKeeps post
    → HooksKeep (λ (h : Hook). h.on_created) (hub_hooks host redis post variable)
      × HooksKeep (λ (h : Hook). h.on_approved) (hub_hooks host redis post variable)
      × HooksKeep (λ (h : Hook). h.on_rejected) (hub_hooks host redis post variable)
unfolding audit_hook cache_hook modelbook_hook
hub_hooks-keep host redis post variable c p = (
  (λ e w. refl, (λ e. invalidate_inbox-Keeps redis e.user_id c, (λ e w. refl, (λ e w. refl, tt)))),
  (
    λ e w. refl,
    (
      λ e. invalidate_inbox-Keeps redis e.user_id c,
      (λ e w. refl, (λ e. resolve_conflict-Keeps post variable e true p, tt)),
    ),
  ),
  (
    λ e w. refl,
    (
      λ e. invalidate_inbox-Keeps redis e.user_id c,
      (λ e w. refl, (λ e. resolve_conflict-Keeps post variable e false p, tt)),
    ),
  ),
)
