-- ===== src/Engine/Resolution.antt =====
-- core/nostr_bridge.py: `_handle_resolution`, the resolutions that come from the relay.
use nodus_hitl_hub.Base.{
  Bool, List, Option, String, [], false, if◌then◌else◌, is_full, is_given, is_one_of, is_text,
  nat_eq, none, not, or_text, some, ℕ, ◌&&◌, ◌==◌, ◌||◌, ◌∷◌,
}
use nodus_hitl_hub.Engine.Defs.{HitlEngine, approve, reject}
use nodus_hitl_hub.Host.{Host}
use nodus_hitl_hub.Json.{Value, end, field, obj, str}
use nodus_hitl_hub.Models.Event.{HitlEvent}
use nodus_hitl_hub.Models.Hitl.{is_pending}
use nodus_hitl_hub.Repository.{get_by_reference}
use nodus_hitl_hub.World.Exec.{Done, Exec, attempt, pure, ◌>>=◌, ◌>>◌}

-- An event of the relay: the fields that NIP-01 gives its JSON, as far as the hub reads them.
pub record NostrEvent : Type 0 where
  pub kind : ℕ
  pub pubkey : String
  pub content : String
  pub tags : List (List String)

-- `{t[0]: t[1] for t in tags if len(t) >= 2}.get(key)`: the last tag of a key counts.
unfoldable pub tag_value : String → List (List String) → Option String
tag_value key [] = none
tag_value key ((k ∷ v ∷ more) ∷ tags) =
    let rest = tag_value key tags in
    elim rest [ some u ↦ some u | none ↦ if k == key then some v else none ]
tag_value key (_ ∷ tags) = tag_value key tags

abbrev pub is_in : Option String → List String → Bool
is_in none texts = false
is_in (some s) texts = is_one_of s texts

-- `tags.get("approved") in ("true", "1") or content == "approved"`
unfoldable pub says_approved : NostrEvent → Bool
says_approved event =
    is_in (tag_value "approved" event.tags) ("true" ∷ "1" ∷ []) || event.content == "approved"

-- `row.owner_pubkey and resolver_pubkey != row.owner_pubkey`
unfoldable pub is_foreign : NostrEvent → HitlEvent → Bool
is_foreign event row = is_given row.owner_pubkey && not (is_text row.owner_pubkey event.pubkey)

-- What `approve` is given.
abbrev pub nostr_response : NostrEvent → Value
nostr_response event =
    obj (field "resolved_via" (str "nostr") (field "resolver" (str event.pubkey) end))

abbrev pub nostr_reason : Value
nostr_reason = str "rejected via llibreta inbox"

module _ (host : Host) where
  -- The guards: the event of the row to resolve, if any.
  unfoldable pub find_resolved : NostrEvent → Exec (Option HitlEvent)
  find_resolved event =
      let request_id = or_text (tag_value "request" event.tags) "" in
      if nat_eq event.kind 10021 && is_full request_id
      then (do
        found ← get_by_reference host request_id
        pure (elim found [
          | none ↦ none
          | some row ↦
              if is_pending row.status && not (is_foreign event row) then some row else none
        ]))
      else pure none

  unfoldable pub handle_resolution : HitlEngine → NostrEvent → Exec Done
  handle_resolution engine event = do
    found ← find_resolved event
    (elim found [
      | none ↦ pure tt
      | some row ↦
          if says_approved event
          then (do approve host engine row.event_id (nostr_response event); pure tt)
          else (do reject host engine row.event_id nostr_reason; pure tt)
    ])

  -- `ResolutionHandler.handle`: a failure never stops the listener.
  unfoldable pub on_relay_event : HitlEngine → NostrEvent → Exec Done
  on_relay_event engine event = attempt (handle_resolution engine event)
