-- ===== src/Engine/Publish.antt =====
-- Step 4 of `HITLEngine.request`: the publication, and what a failed one leaves.
use nodus_hitl_hub.Base.{
  Bool-cases, Option, String, ap, inl, inr, is_full, is_given, none, or_text, refl, some, ◌&&◌, ◌≡◌,
}
use nodus_hitl_hub.Bridge.{Client, NostrBridge, enabled, inbox_content, inbox_tags, publish_request}
use nodus_hitl_hub.Engine.Defs.{publish, publish_to}
use nodus_hitl_hub.Engine.Kept.{ClientKeeps, Keeps, bind-Keeps}
use nodus_hitl_hub.Host.{Host}
use nodus_hitl_hub.Models.Event.{HitlEvent}
use nodus_hitl_hub.Repository.{coalesce, set_reference, update_row}
use nodus_hitl_hub.World.{HitlRow, InboxItem, World}
use nodus_hitl_hub.World.Exec.{Exec, Result, Result-cases, continue, ok, pure, recover, ◌>>=◌}

-- What `set_reference` does to its row.
abbrev pub referenced : String → String → HitlRow → HitlRow
referenced ref relay r = record r {
  reference_id = some ref;
  relay_url = coalesce (some relay) r.relay_url;
}

-- How step 4 ends. It never raises.
pub data Published (event : HitlEvent) (w : World) (result : Result HitlEvent × World)
    : Type 0 where
  -- There is no bridge, owner or client, or the publication raised: the event and the requests
  -- are as before.
  unlisted : result.0 ≡ ok event → result.1.hitl ≡ w.hitl → Published event w result
  -- The relay took the event, and its id there is in the event and in its row.
  listed :
      (ref relay : String)
      → result.0 ≡ ok (record event { reference_id = some ref })
      → result.1.hitl ≡ update_row event.event_id (referenced ref relay) w.hitl
      → Published event w result

recover-reads :
    {A B : Type 0} (m : Exec A) (f : A → Exec B) (default_value : B) (w : World) {r : Result A}
    → (m w).0 ≡ r
    → recover (m >>= f) default_value w ≡ recover (λ _. continue r f (m w).1) default_value w
recover-reads m f default_value w e =
    ap (λ r. recover (λ _. continue r f (m w).1) default_value w) e

module _ (host : Host) (event : HitlEvent) (w : World) where
  pub publish_request-Keeps :
      (bridge : NostrBridge) (owner : String)
      → ClientKeeps (some bridge)
      → Keeps (publish_request host bridge event owner)
  unfolding publish_request
  publish_request-Keeps bridge owner k = via bridge.client k
    where
      item : InboxItem
      item = record {
        kind = 10020;
        content = inbox_content host event;
        tags = inbox_tags host event owner;
      }

      via :
          (c : Option Client)
          → (elim c as (λ _. Type 0) [
            | none ↦ Unit
            | some c ↦ (i : InboxItem) → Keeps (c.send_event i)
          ])
          → Keeps (elim c as (λ _. Exec (Option String)) [
            | none ↦ pure none
            | some c ↦ do id ← c.send_event item; pure (some id)
          ])
      via none k v = refl
      via (some c) k v =
          bind-Keeps (c.send_event item) (λ id. pure (some id)) (k item) (λ id v. refl) v

  publish_to-Published :
      (bridge : NostrBridge) (owner : String)
      → ClientKeeps (some bridge)
      → Published event w (publish_to host bridge event owner w)
  unfolding publish_to set_reference
  publish_to-Published bridge owner k =
      elim (Result-cases (publish_request host bridge event owner w).0) [
        | inl (x, s) ↦
            rw (recover-reads (publish_request host bridge event owner) _ event w s)
              (unlisted refl (publish_request-Keeps bridge owner k w))
        | inr (none, s) ↦
            rw (recover-reads (publish_request host bridge event owner) _ event w s)
              (unlisted refl (publish_request-Keeps bridge owner k w))
        | inr (some ref, s) ↦ elim (Bool-cases (is_full ref)) [
          | inl full ↦
              rw (recover-reads (publish_request host bridge event owner) _ event w s, full)
                (listed ref bridge.relay_url refl (
                  ap (update_row event.event_id (referenced ref bridge.relay_url))
                    (publish_request-Keeps bridge owner k w)))
          | inr blank ↦
              rw (recover-reads (publish_request host bridge event owner) _ event w s, blank)
                (unlisted refl (publish_request-Keeps bridge owner k w))
        ]
      ]

  -- For a client that leaves the requests alone, the publication never raises: either the event and
  -- the requests are as before, or the relay's id is in the event and in its row.
  pub publish-Published :
      (bridge : Option NostrBridge)
      → ClientKeeps bridge
      → Published event w (publish host bridge event w)
  unfolding publish
  publish-Published none k = unlisted refl refl
  publish-Published (some bridge) k =
      elim (Bool-cases (enabled bridge && is_given event.owner_pubkey)) [
        | inl go ↦ rw go (publish_to-Published bridge (or_text event.owner_pubkey "") k)
        | inr off ↦ rw off (unlisted refl refl)
      ]
