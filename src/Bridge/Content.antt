-- ===== src/Bridge/Content.antt =====
-- What the inbox reads in a published item.
use nodus_hitl_hub.Base.{
  All, Bool-cases, List, String, [], arith, eq_iff, false, inl, inr, none, refl, some, ◌==◌, ◌∷◌,
  ◌≡◌,
}
use nodus_hitl_hub.Bridge.{fill_in, inbox_body}
use nodus_hitl_hub.Host.{Host}
use nodus_hitl_hub.Json.{Fields, Value, end, field, lookup, opt_str, set_default, str}
use nodus_hitl_hub.Json.Laws.{lookup-set, lookup-set_default}
use nodus_hitl_hub.Models.Event.{HitlEvent}

lookup-fill_in :
    (key : String) (v : Value) (payload body : Fields)
    → lookup key body ≡ some v
    → lookup key (fill_in payload body) ≡ some v
lookup-fill_in key v end body h = h
lookup-fill_in key v (field k x payload) body h =
    lookup-fill_in key v payload (set_default k x body) (lookup-set_default k key x v body h)

lookup-fill_in_new :
    (key : String) (v : Value) (payload body : Fields)
    → lookup key body ≡ none
    → lookup key payload ≡ some v
    → lookup key (fill_in payload body) ≡ some v
lookup-fill_in_new key v end body n h = cc
lookup-fill_in_new key v (field k x payload) body n h = elim (Bool-cases (k == key)) [
  | inl e ↦
      let same : x ≡ v = ground arith in
      let k-is : k ≡ key = (eq_iff k key).0 e in
      lookup-fill_in key v payload (set_default k x body) (ground (arith, lookup-set k key x body))
  | inr e ↦
      lookup-fill_in_new key v payload (set_default k x body)
        (ground (arith, lookup-set k key x body)) (ground arith)
]

-- The keys that the hub fills in itself.
abbrev pub reserved : List String
reserved = "intent" ∷ "delivery_page" ∷ "action" ∷ "hint" ∷ "hub_id" ∷ "tenant_id" ∷ "user_id" ∷ []

-- What the inbox relies on in the printed dict of an event.
pub record IsFaithful (host : Host) (event : HitlEvent) : Type 0 where
  pub hub_id : lookup "hub_id" (inbox_body host event) ≡ some (str event.event_id)
  pub user_id : lookup "user_id" (inbox_body host event) ≡ some (str event.user_id)
  pub tenant_id : lookup "tenant_id" (inbox_body host event) ≡ some (opt_str event.tenant_id)
  pub action : lookup "action" (inbox_body host event) ≡ some (opt_str event.action)
  pub hint : lookup "hint" (inbox_body host event) ≡ some (opt_str event.hint)
  pub others :
      (key : String) (v : Value)
      → All (λ name. (name == key) ≡ false) reserved
      → lookup key event.payload ≡ some v
      → lookup key (inbox_body host event) ≡ some v

-- The printed dict names the event, its user, tenant, action and hint whatever the payload holds,
-- and passes on every other entry of the payload: no payload can pass for another event.
pub inbox_body-IsFaithful : (host : Host) (event : HitlEvent) → IsFaithful host event
unfolding inbox_body
inbox_body-IsFaithful host event = record {
  hub_id = lookup-fill_in "hub_id" _ event.payload _ refl;
  user_id = lookup-fill_in "user_id" _ event.payload _ refl;
  tenant_id = lookup-fill_in "tenant_id" _ event.payload _ refl;
  action = lookup-fill_in "action" _ event.payload _ refl;
  hint = lookup-fill_in "hint" _ event.payload _ refl;
  others = λ key v n h. lookup-fill_in_new key v event.payload _ (ground arith) h;
}
