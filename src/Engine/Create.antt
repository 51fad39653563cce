-- ===== src/Engine/Create.antt =====
-- Steps 3 to 6 of `HITLEngine.request`: what a new request leaves in the database.
use nodus_hitl_hub.Base.{
  Bool-cases, List, Option, String, [], any, ap, false, inl, inr, refl, some, true, ◌++◌, ◌∙◌, ◌∷◌,
  ◌≡◌,
}
use nodus_hitl_hub.Engine.Defs.{HitlEngine, acceptance, announce, create, publish, with_owner}
use nodus_hitl_hub.Engine.Fresh.{
  IsFresh, IsFresh-record, from_request-IsFresh, from_request-Keeps, with_owner-cases,
}
use nodus_hitl_hub.Engine.Kept.{IsTame, bind-reads, notify_all-hitl, on_created-hitl}
use nodus_hitl_hub.Engine.Publish.{Published, listed, publish-Published, referenced, unlisted}
use nodus_hitl_hub.Engine.Reads.{
  appended-key, appended-read, get_by_idempotency_key-hitl, get_event-hitl, referenced-key,
  referenced-read,
}
use nodus_hitl_hub.Host.{Host}
use nodus_hitl_hub.Json.{str}
use nodus_hitl_hub.Lifecycle.Defs.{notify_all, on_created}
use nodus_hitl_hub.Lifecycle.Isolation.{notify_all_ok, on_created_ok}
use nodus_hitl_hub.Models.Event.{HitlEvent, from_request}
use nodus_hitl_hub.Models.Hitl.{HitlRequest, HitlResponse}
use nodus_hitl_hub.Repository.{
  clashes, get_by_idempotency_key, get_event, insert, storable, update_row,
}
use nodus_hitl_hub.Repository.Rows.{row_of_event}
use nodus_hitl_hub.Repository.Updates.{insert-accepted, insert-refused, insert-unstorable, stored}
use nodus_hitl_hub.World.{HitlRow, World}
use nodus_hitl_hub.World.Exec.{
  Error, Result, Result-cases, err, external, ok, unique_violation, ◌>>=◌,
}

module _ (host : Host) (engine : HitlEngine) where
  announce-eq :
      (event e : HitlEvent) (w : World)
      → (publish host engine.bridge event w).0 ≡ ok e
      → announce host engine event w ≡ (
        ok (acceptance e),
        (notify_all engine.plugins e
            (on_created engine.hooks e (publish host engine.bridge event w).1).1).1,
      )
  unfolding announce
  announce-eq event e w s =
      rw
        (
          s,
          on_created_ok engine.hooks e (publish host engine.bridge event w).1,
          notify_all_ok engine.plugins e
              (on_created engine.hooks e (publish host engine.bridge event w).1).1,
        )
        refl

  -- The announcement of an event accepts it, and keeps what the publication made of the requests.
  pub announce-ok :
      (tame : IsTame engine) (event e : HitlEvent) (w : World)
      → (publish host engine.bridge event w).0 ≡ ok e
      → ((announce host engine event w).0 ≡ ok (acceptance e))
        × ((announce host engine event w).1.hitl ≡ (publish host engine.bridge event w).1.hitl)
  announce-ok tame event e w s = (
    ap (λ (y : Result HitlResponse × World). y.0) (announce-eq event e w s),
    ap (λ (y : Result HitlResponse × World). y.1.hitl) (announce-eq event e w s)
        ∙ notify_all-hitl engine tame e
            (on_created engine.hooks e (publish host engine.bridge event w).1).1
        ∙ on_created-hitl engine tame e (publish host engine.bridge event w).1,
  )

-- How the creation of a request ends.
pub data Creation (host : Host) (req : HitlRequest) (w : World)
    (result : Result HitlResponse × World) : Type 0 where
  -- The event could not be made: the call raises, and no request is stored.
  unmade :
      (x : Error)
      → (from_request host req w).0 ≡ err x
      → result.0 ≡ err x
      → result.1.hitl ≡ w.hitl
      → Creation host req w result
  -- The number of the user is none that the users have: the call raises, and no request is stored.
  unowned :
      (e : HitlEvent)
      → (from_request host req w).0 ≡ ok e
      → (with_owner e req.user_id (from_request host req w).1).0 ≡ err external
      → result.0 ≡ err external
      → result.1.hitl ≡ w.hitl
      → Creation host req w result
  -- The database refuses the payload or the tags: the call raises, and no request is stored.
  unstored :
      (e : HitlEvent)
      → IsFresh req w.now e
      → storable e ≡ false
      → result.0 ≡ err external
      → result.1.hitl ≡ w.hitl
      → Creation host req w result
  -- The id or the idempotency key is taken: the call raises, and no request is stored.
  key_taken :
      (e : HitlEvent)
      → IsFresh req w.now e
      → any (clashes (row_of_event e)) w.hitl ≡ true
      → result.0 ≡ err unique_violation
      → result.1.hitl ≡ w.hitl
      → Creation host req w result
  -- The answer is the id of an event that is fresh for the request, and the event that is read
  -- back by that id, or by its idempotency key, is the announced one, but for the relay in its row.
  made :
      (e : HitlEvent) (relay : Option String)
      → IsFresh req w.now e
      → any (clashes (row_of_event e)) w.hitl ≡ false
      → result.0 ≡ ok (acceptance e)
      → (get_event host e.event_id result.1).0 ≡ ok (some (record (stored e) { relay_url = relay }))
      → ((k : String)
          → e.idempotency_key ≡ some k
          → (get_by_idempotency_key host (str k) result.1).0
            ≡ ok (some (record (stored e) { relay_url = relay })))
      → Creation host req w result

-- The reference is no key.
clashes-reference :
    (e : HitlEvent) (ref : String) (rows : List HitlRow)
    → any (clashes (row_of_event e)) rows ≡ false
    → any (clashes (row_of_event (record e { reference_id = some ref }))) rows ≡ false
unfolding row_of_event
clashes-reference e ref rows free = free

module _ (host : Host) (engine : HitlEngine) (tame : IsTame engine) (req : HitlRequest)
    (w : World) where
  announced-Creation :
      (owned : HitlEvent) (v : World)
      → IsFresh req w.now owned
      → any (clashes (row_of_event owned)) w.hitl ≡ false
      → v.hitl ≡ w.hitl ++ row_of_event owned ∷ []
      → Published owned v (publish host engine.bridge owned v)
      → Creation host req w (announce host engine owned v)
  announced-Creation owned v asked free there (unlisted s kept) =
      let (answer, rows) = announce-ok host engine tame owned owned v s in
      made owned owned.relay_url asked free answer
        (get_event-hitl host owned.event_id _ _ (rows ∙ kept ∙ there)
          ∙ appended-read host owned w.hitl free)
        (λ k e.
          get_by_idempotency_key-hitl host k _ _ (rows ∙ kept ∙ there)
          ∙ appended-key host owned w.hitl free k e)
  announced-Creation owned v asked free there (listed ref relay s changed) =
      let (answer, rows) = announce-ok host engine tame owned _ v s in
      made (record owned { reference_id = some ref }) (some relay) (IsFresh-record asked)
        (clashes-reference owned ref w.hitl free) answer
        (get_event-hitl host owned.event_id _ _
            (rows ∙ changed ∙ ap (update_row owned.event_id (referenced ref relay)) there)
          ∙ referenced-read host owned w.hitl free ref relay)
        (λ k e.
          get_by_idempotency_key-hitl host k _ _
            (rows ∙ changed ∙ ap (update_row owned.event_id (referenced ref relay)) there)
          ∙ referenced-key host owned w.hitl free ref relay k e)

  owned-Creation :
      (owned : HitlEvent) (v : World)
      → IsFresh req w.now owned
      → v.hitl ≡ w.hitl
      → Creation host req w ((insert owned >>= λ _. announce host engine owned) v)
  owned-Creation owned v asked same = elim (Bool-cases (storable owned)) [
    | inr bad ↦ rw (insert-unstorable owned v bad) (unstored owned asked bad refl same)
    | inl good ↦ elim (Bool-cases (any (clashes (row_of_event owned)) w.hitl)) [
      | inl clash ↦
          rw (insert-refused owned v good (ap (any (clashes (row_of_event owned))) same ∙ clash))
            (key_taken owned asked clash refl same)
      | inr free ↦
          rw (insert-accepted owned v good (ap (any (clashes (row_of_event owned))) same ∙ free)) (
            announced-Creation owned _ asked free
              (ap (λ rows. rows ++ row_of_event owned ∷ []) same)
              (publish-Published host owned _ engine.bridge tame.client))
    ]
  ]

  -- For an engine whose plugins and relay client leave the requests alone, a creation ends in one
  -- of the five ways, and no failure of a plugin or of the publication is among them.
  pub create-Creation : Creation host req w (create host engine req w)
  unfolding create
  create-Creation = elim (Result-cases (from_request host req w).0) [
    | inl (x, s) ↦
        rw (bind-reads (from_request host req) _ w s)
          (unmade x s refl (from_request-Keeps host req w))
    | inr (e, s) ↦ elim (with_owner-cases e req.user_id (from_request host req w).1) [
      | inr q ↦
          rw (bind-reads (from_request host req) _ w s, q)
            (unowned e s (ap (λ (y : Result HitlEvent × World). y.0) q) refl
              (from_request-Keeps host req w))
      | inl (owner, q) ↦
          rw (bind-reads (from_request host req) _ w s, q)
            (owned-Creation (record e { owner_pubkey = owner }) (from_request host req w).1
              (IsFresh-record (from_request-IsFresh host req w s)) (from_request-Keeps host req w))
    ]
  ]
