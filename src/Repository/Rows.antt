-- ===== src/Repository/Rows.antt =====
-- Events to rows and back: the values of `insert` and `_row_to_event`.
use nodus_hitl_hub.Base.{
  Option, String, [], concat, false, none, or_text, refl, some, true, ◌∷◌, ◌≡◌,
}
use nodus_hitl_hub.Host.{Host}
use nodus_hitl_hub.Json.{Fields, Items, Value, arr, end, field, nil, null, obj, opt_str, or_value}
use nodus_hitl_hub.Json.Print.{dumps}
use nodus_hitl_hub.Models.Event.{HitlEvent}
use nodus_hitl_hub.Models.Hitl.{HitlStatus, status_of, status_value}
use nodus_hitl_hub.World.{HitlRow}
use nodus_hitl_hub.World.Exec.{Result, and_then, err, ok, value_error}

-- The row that `insert` writes: the columns that the shared table declares NOT NULL get a value.
unfoldable pub row_of_event : HitlEvent → HitlRow
unfolding dumps
row_of_event e = record {
  event_id = e.event_id;
  kind = e.kind;
  pubkey = some e.pubkey;
  session_id = some (or_text e.session_id (concat ("hitl-" ∷ e.event_id ∷ [])));
  reference_id = e.reference_id;
  dw_pubkey = some (or_text e.dw_pubkey "hitl-hub");
  owner_pubkey = e.owner_pubkey;
  user_id = some e.user_id;
  content = some (
      or_text e.content
        (dumps true (obj (field "hint" (opt_str e.hint) (field "action" (opt_str e.action) end)))));
  hint = e.hint;
  action = e.action;
  payload = some (obj e.payload);
  tags = some (arr e.tags);
  status = status_value e.status;
  created_at = e.created_at;
  resolved_at = none;
  expires_at = e.expires_at;
  sig = e.sig;
  verified = some e.verified;
  relay_url = e.relay_url;
  tenant_id = e.tenant_id;
  idempotency_key = e.idempotency_key;
}

-- A nullable JSONB column, loaded.
abbrev pub opt_value : Option Value → Value
opt_value none = null
opt_value (some v) = v

-- `HITLStatus(text)`
abbrev pub status_result : String → Result HitlStatus
status_result text = elim (status_of text) [ none ↦ err value_error | some s ↦ ok s ]

-- The event of a row with its status, payload and tags loaded.
abbrev pub event_of : HitlRow → HitlStatus → Fields → Items → HitlEvent
event_of r status payload tags = record {
  event_id = r.event_id;
  kind = r.kind;
  pubkey = or_text r.pubkey "hitl-hub";
  session_id = r.session_id;
  reference_id = r.reference_id;
  dw_pubkey = r.dw_pubkey;
  owner_pubkey = r.owner_pubkey;
  user_id = or_text r.user_id "";
  content = r.content;
  hint = r.hint;
  action = r.action;
  payload = payload;
  tags = tags;
  status = status;
  created_at = r.created_at;
  resolved_at = r.resolved_at;
  expires_at = r.expires_at;
  sig = r.sig;
  verified = elim r.verified [ none ↦ false | some b ↦ b ];
  relay_url = r.relay_url;
  tenant_id = some (or_text r.tenant_id "default");
  idempotency_key = r.idempotency_key;
}

-- `_row_to_event`, with the checks that the model makes of the loaded columns.
unfoldable pub row_to_event : Host → HitlRow → Result HitlEvent
row_to_event host r = and_then (status_result r.status) (λ status.
    and_then (host.dict_field (or_value (opt_value r.payload) (obj end))) (λ payload.
      and_then (host.list_field (or_value (opt_value r.tags) (arr nil)))
        (λ tags. ok (event_of r status payload tags))))

-- The columns of a row load.
pub record Loads (host : Host) (r : HitlRow) (e : HitlEvent) : Type 0 where
  pub status : HitlStatus
  pub payload : Fields
  pub tags : Items
  pub status_loads : status_result r.status ≡ ok status
  pub payload_loads : host.dict_field (or_value (opt_value r.payload) (obj end)) ≡ ok payload
  pub tags_load : host.list_field (or_value (opt_value r.tags) (arr nil)) ≡ ok tags
  pub event : event_of r status payload tags ≡ e

load :
    (s : Result HitlStatus) (p : Result Fields) (t : Result Items)
    (f : HitlStatus → Fields → Items → HitlEvent) {e : HitlEvent}
    → and_then s (λ status. and_then p (λ payload. and_then t (λ tags. ok (f status payload tags))))
      ≡ ok e
    → (status : HitlStatus) × (payload : Fields) × (tags : Items) × (s ≡ ok status)
      × (p ≡ ok payload)
      × (t ≡ ok tags)
      × (f status payload tags ≡ e)
load (err x) p t f h = cc
load (ok status) (err x) t f h = cc
load (ok status) (ok payload) (err x) f h = cc
load (ok status) (ok payload) (ok tags) f h = (status, payload, tags, refl, refl, refl, cc)

-- A row that loads as an event does so by its columns.
pub row_to_event-Loads :
    (host : Host) (r : HitlRow) (e : HitlEvent) → row_to_event host r ≡ ok e → Loads host r e
unfolding row_to_event
row_to_event-Loads host r e h =
    let (status, payload, tags, hs, hp, ht, he) = load _ _ _ (event_of r) h in
    record {
      status = status;
      payload = payload;
      tags = tags;
      status_loads = hs;
      payload_loads = hp;
      tags_load = ht;
      event = he;
    }
