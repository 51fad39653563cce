-- ===== src/Engine/Promised.antt =====
-- A request keeps its promise: what it answers with an id is stored.
use nodus_hitl_hub.Base.{
  Bool-cases, List, Option, Option-cases, String, [], any, ap, arith, inl, inr, is_given, none,
  or_text, some, subst, sym, ◌&&◌, ◌∙◌, ◌∷◌, ◌≡◌,
}
use nodus_hitl_hub.Bridge.{NostrBridge, enabled, publish_request}
use nodus_hitl_hub.Engine.Defs.{HitlEngine, acceptance, with_owner}
use nodus_hitl_hub.Engine.Final.{IsQuiet}
use nodus_hitl_hub.Engine.Fresh.{
  from_request-IsFresh, from_request-Keeps, with_owner-ok, with_owner-reads,
}
use nodus_hitl_hub.Engine.Kept.{ClientKeeps, hooks-All, plugins-All}
use nodus_hitl_hub.Engine.Promises.{IsStored, IsStored-Later, promise_of-Lasts, stores}
use nodus_hitl_hub.Engine.Publish.{publish_request-Keeps}
use nodus_hitl_hub.Engine.Request.{get_by_idempotency_key_reads, key_of}
use nodus_hitl_hub.Engine.Secured.{Secured, await_each-Secured, await_ok-Secured}
use nodus_hitl_hub.Engine.Tasks.{
  announce_task, call_request, create_task, found_task, judged_task, once_task, publish_task,
  published_task, referenced_task,
}
use nodus_hitl_hub.Host.{Host}
use nodus_hitl_hub.Json.{Value, get, str, truthy}
use nodus_hitl_hub.Lifecycle.Defs.{Hook, NotificationPlugin}
use nodus_hitl_hub.Models.Event.{HitlEvent, from_request}
use nodus_hitl_hub.Models.Hitl.{HitlRequest}
use nodus_hitl_hub.Repository.{
  clashes, find_row, get_by_idempotency_key, insert, optional_event, storable,
}
use nodus_hitl_hub.Repository.Keys.{IsKeyed, find_key, find_row-append}
use nodus_hitl_hub.Repository.Later.{Later-trans, insert-Later, same-Later, set_reference-Later}
use nodus_hitl_hub.Repository.Rows.{row_of_event, row_to_event, row_to_event-Loads}
use nodus_hitl_hub.Repository.Unique.{find_key-find_row, find_key-key}
use nodus_hitl_hub.Repository.Updates.{insert-accepted, insert-refused, insert-unstorable}
use nodus_hitl_hub.World.{HitlRow, World}
use nodus_hitl_hub.World.Exec.{Done, Result, Result-cases, and_then, and_then-ok, err, ok}
use nodus_hitl_hub.World.Tasks.{ends}

-- A loaded event has the id of its row.
loaded_id :
    (host : Host) (r : HitlRow) (e : HitlEvent)
    → row_to_event host r ≡ ok e
    → e.event_id ≡ r.event_id
loaded_id host r e loads =
    let l = row_to_event-Loads host r e loads in sym (ap (λ (x : HitlEvent). x.event_id) l.event)

get_by_idempotency_key-row :
    (host : Host) (key : Value) (w : World) (e : HitlEvent)
    → (get_by_idempotency_key host key w).0 ≡ ok (some e)
    → (t : String) × (r : HitlRow) × (host.text_param key ≡ ok t)
      × (find_key t w.hitl ≡ some r)
      × (row_to_event host r ≡ ok e)
unfolding get_by_idempotency_key optional_event
get_by_idempotency_key-row host key w e h = elim (Result-cases (host.text_param key)) [
  | inl (x, p) ↦ let wrong : err x ≡ ok (some e) = rw p at h in cc
  | inr (t, p) ↦ elim (Option-cases (find_key t w.hitl)) [
    | inl absent_row ↦ let wrong : ok none ≡ ok (some e) = rw (p, absent_row) at h in cc
    | inr (r, found) ↦
        let read : and_then (row_to_event host r) (λ f. ok (some f)) ≡ ok (some e) =
          rw (p, found) at h in
        let (f, loads, last) = and_then-ok (row_to_event host r) _ read in
        let event : f ≡ e = ground (arith, last) in (t, r, p, found, loads ∙ ap ok event)
  ]
]

module _ (host : Host) (engine : HitlEngine) (quiet : IsQuiet engine) where
  -- The rest of a request whose row is stored.
  module _ (req : HitlRequest) where
    answered-stores :
        (e : HitlEvent) (w : World) → IsStored req e.event_id w → stores req (acceptance e) w
    answered-stores e w s id named =
        let same : e.event_id ≡ id = ground (arith, named) in subst (λ i. IsStored req i w) same s

    announce_task-Secured :
        (e : HitlEvent) (w : World)
        → IsStored req e.event_id w
        → Secured (stores req) w (announce_task host engine e)
    announce_task-Secured e w s =
        let lasts = promise_of-Lasts (call_request req) in
        await_each-Secured (stores req) lasts (λ (hook : Hook). hook.on_created e) engine.hooks _ w
          (hooks-All e engine.hooks quiet.creating.hooks)
          (await_each-Secured (stores req) lasts (λ (plugin : NotificationPlugin). plugin.notify e)
            engine.plugins (ends (ok (acceptance e))) w
            (plugins-All e engine.plugins quiet.creating.plugins) (answered-stores e w s))

    referenced_task-Secured :
        (e : HitlEvent) (published : Option String) (r : Result Done) (w : World)
        → IsStored req e.event_id w
        → Secured (stores req) w (referenced_task host engine e published r)
    referenced_task-Secured e published (ok d) w s =
        announce_task-Secured (record e { reference_id = published }) w s
    referenced_task-Secured e published (err x) w s = announce_task-Secured e w s

    published_task-Secured :
        (relay_url : String) (e : HitlEvent) (r : Result (Option String)) (w : World)
        → IsStored req e.event_id w
        → Secured (stores req) w (published_task host engine relay_url e r)
    published_task-Secured relay_url e (err x) w s = announce_task-Secured e w s
    published_task-Secured relay_url e (ok published) w s = elim (Bool-cases (is_given published)) [
      | inr silent ↦ rw silent (announce_task-Secured e w s)
      | inl given ↦ rw given (λ v later keyed.
          let written = set_reference-Later e.event_id (or_text published "") (some relay_url) v in
          (
            written,
            referenced_task-Secured e published _ _
                (IsStored-Later req e.event_id w _ s (Later-trans w v _ later written)),
          ))
    ]

    publish_task-Secured :
        (bridge : Option NostrBridge) (e : HitlEvent) (w : World)
        → ClientKeeps bridge
        → IsStored req e.event_id w
        → Secured (stores req) w (publish_task host engine bridge e)
    publish_task-Secured none e w k s = announce_task-Secured e w s
    publish_task-Secured (some bridge) e w k s =
        elim (Bool-cases (enabled bridge && is_given e.owner_pubkey)) [
          | inr off ↦ rw off (announce_task-Secured e w s)
          | inl on ↦ rw on (λ v later keyed.
              let sent =
                same-Later v (publish_request host bridge e (or_text e.owner_pubkey "") v).1
                  (publish_request-Keeps host e v bridge (or_text e.owner_pubkey "") k v) in
              (
                sent,
                published_task-Secured bridge.relay_url e
                    (publish_request host bridge e (or_text e.owner_pubkey "") v).0 _
                    (IsStored-Later req e.event_id w _ s (Later-trans w v _ later sent)),
              ))
        ]

    inserted-IsStored :
        (e : HitlEvent) (w : World)
        → ((k : String) → key_of req ≡ str k → e.idempotency_key ≡ some k)
        → (insert e w).0 ≡ ok tt
        → IsStored req e.event_id (insert e w).1
    unfolding row_of_event
    inserted-IsStored e w keyed went = elim (Bool-cases (storable e)) [
      | inr bad ↦ cc (ap (λ (x : Result Done × World). x.0) (insert-unstorable e w bad), went)
      | inl good ↦ elim (Bool-cases (any (clashes (row_of_event e)) w.hitl)) [
        | inl taken ↦
            cc (ap (λ (x : Result Done × World). x.0) (insert-refused e w good taken), went)
        | inr free ↦ rw (insert-accepted e w good free) (record {
          row = row_of_event e;
          found = find_row-append (row_of_event e) w.hitl free;
          key = keyed;
        })
      ]
    ]

    create_task-Secured : (w : World) → Secured (stores req) w (create_task host engine req)
    create_task-Secured w =
        await_ok-Secured (stores req) (promise_of-Lasts (call_request req)) (from_request host req)
          _ w (λ v later keyed. same-Later v _ (from_request-Keeps host req v))
          (λ v e later keyed made.
            await_ok-Secured (stores req) (promise_of-Lasts (call_request req))
              (with_owner e req.user_id) _ _
              (λ u after unique.
                same-Later u _ (ap (λ (x : World). x.hitl) (with_owner-reads e req.user_id u)))
              (λ u owned after unique given.
                let (owner, mine) = with_owner-ok e req.user_id u owned given in
                let fresh = from_request-IsFresh host req v made in
                await_ok-Secured (stores req) (promise_of-Lasts (call_request req)) (insert owned) _
                  _ (λ t next still. insert-Later owned t)
                  (λ t d next still stored.
                    publish_task-Secured engine.bridge owned _ quiet.creating.client (
                      inserted-IsStored owned t
                        (λ k p. ap (λ (x : HitlEvent). x.idempotency_key) mine ∙ fresh.key k p)
                        stored))))

    found_task-Secured :
        (existing : Option HitlEvent) (w : World)
        → IsKeyed w.hitl
        → (get_by_idempotency_key host (key_of req) w).0 ≡ ok existing
        → Secured (stores req) w (found_task host engine req existing)
    found_task-Secured none w keyed read = create_task-Secured w
    found_task-Secured (some e) w keyed read =
        let (t, r, text, found, loads) = get_by_idempotency_key-row host (key_of req) w e read in
        let me = loaded_id host r e loads in
        λ id named.
          let same : e.event_id ≡ id = ground (arith, named) in
          record {
            row = r;
            found =
                subst (λ i. find_row i w.hitl ≡ some r) (sym me ∙ same)
                  (find_key-find_row w.hitl t r keyed found);
            key = λ k p.
                let mine : t ≡ k =
                  ground (arith, sym text ∙ ap host.text_param p ∙ host.text_param-str k) in
                find_key-key w.hitl t r found ∙ ap some mine;
          }

    once_task-Secured : (w : World) → Secured (stores req) w (once_task host engine req)
    once_task-Secured w = elim (Bool-cases (truthy (get "idempotency_key" req.metadata))) [
      | inr keyless ↦ rw keyless (create_task-Secured w)
      | inl given ↦ rw given (
          await_ok-Secured (stores req) (promise_of-Lasts (call_request req))
            (get_by_idempotency_key host (key_of req)) (found_task host engine req) w
            (λ v later keyed.
              same-Later v _
                (ap (λ (x : World). x.hitl) (get_by_idempotency_key_reads host (key_of req) v)))
            (λ v existing later keyed read.
              let unchanged = get_by_idempotency_key_reads host (key_of req) v in
              subst (λ u. Secured (stores req) u (found_task host engine req existing))
                (sym unchanged) (found_task-Secured existing v keyed read)))
    ]

    pub judged_task-Secured :
        (errors : List String) (w : World)
        → Secured (stores req) w (judged_task host engine req errors)
    judged_task-Secured [] w = once_task-Secured w
    judged_task-Secured (e ∷ es) w = λ id named. cc
