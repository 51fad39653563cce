-- ===== src/Engine/Resolving.antt =====
-- A resolution keeps its promise: an answer that is no error is about a request that is resolved.
use nodus_hitl_hub.Base.{
  Bool-cases, Option, String, ap, arith, false, inl, inr, none, refl, some, subst, sym, true, ◌≡◌,
}
use nodus_hitl_hub.Engine.Decided.{get_event-row}
use nodus_hitl_hub.Engine.Defs.{HitlEngine, resolvable}
use nodus_hitl_hub.Engine.Promises.{IsResolved}
use nodus_hitl_hub.Engine.Race.{HooksKeep, at_event, find_row-updated}
use nodus_hitl_hub.Engine.Resolve.{already, resolved}
use nodus_hitl_hub.Engine.Secured.{Lasts, Promise, Secured, await_each-Secured, await_ok-Secured}
use nodus_hitl_hub.Engine.Tasks.{resolve_task}
use nodus_hitl_hub.Host.{Host}
use nodus_hitl_hub.Json.{Fields, obj}
use nodus_hitl_hub.Json.Cast.{castable}
use nodus_hitl_hub.Lifecycle.Defs.{Hook}
use nodus_hitl_hub.Models.Event.{HitlEvent}
use nodus_hitl_hub.Models.Hitl.{
  HitlResponse, HitlStatus, error, is_error, is_pending, respond, respond_error,
}
use nodus_hitl_hub.Repository.{find_row, get_event, resolve_row, resolved_world, update_status}
use nodus_hitl_hub.Repository.Later.{same-Later, status_closed, update_status-Later}
use nodus_hitl_hub.Repository.Updates.{get_event_reads}
use nodus_hitl_hub.World.{HitlRow, World}
use nodus_hitl_hub.World.Exec.{Done, Exec, Result-cases, err, external, ok}
use nodus_hitl_hub.World.Tasks.{Task, await_each, await_ok, ends, unless_raised}

resolvable-reads : (host : Host) (id : String) (w : World) → (resolvable host id w).1 ≡ w
unfolding resolvable
resolvable-reads host id w = elim (Result-cases (get_event host id w).0) [
  | inl (x, r) ↦ rw (r, get_event_reads host id w) refl
  | inr (e, r) ↦ rw (r, get_event_reads host id w) refl
]

-- What the guards let through has a row, and what they turn down is answered with an error.
abbrev Guarded : Host → String → World → Option HitlEvent × HitlResponse → Type 0
Guarded host id w (none, answer) = is_error answer.status ≡ true
Guarded host id w (some e, answer) = (r : HitlRow) × (find_row id w.hitl ≡ some r)

resolvable-Guarded :
    (host : Host) (id : String) (w : World) (found : Option HitlEvent × HitlResponse)
    → (resolvable host id w).0 ≡ ok found
    → Guarded host id w found
unfolding resolvable
resolvable-Guarded host id w found h = elim (Result-cases (get_event host id w).0) [
  | inl (x, r) ↦ let wrong : err x ≡ ok found = rw r at h in cc
  | inr (none, r) ↦
      let answer : (none, respond_error (some id) error "Not found") ≡ found =
        ground (arith, (rw r at h)) in
      subst (Guarded host id w) answer refl
  | inr (some e, r) ↦
      let (row, there, _) = get_event-row host id w e r in
      elim (Bool-cases (is_pending e.status)) [
        | inl waits ↦
            let answer : (some e, respond (some id) e.status) ≡ found =
              ground (arith, (rw (r, waits) at h)) in
            subst (Guarded host id w) answer (row, there)
        | inr over ↦
            let answer : (none, already id e) ≡ found = ground (arith, (rw (r, over) at h)) in
            subst (Guarded host id w) answer refl
      ]
]

-- An update that succeeds wrote its row.
update_status-wrote :
    (id : String) (status : HitlStatus) (d : Fields) (w : World) (u : Done)
    → (update_status id status (some d) w).0 ≡ ok u
    → (update_status id status (some d) w).1 ≡ resolved_world id status (some d) w
unfolding update_status
update_status-wrote id status d w u h = elim (Bool-cases (castable (obj d))) [
  | inl good ↦ rw good refl
  | inr bad ↦ let wrong : err external ≡ ok u = rw bad at h in cc
]

module _ (host : Host) (engine : HitlEngine) (id : String) (status : HitlStatus)
    (final : is_pending status ≡ false) (merge : Fields → Fields)
    (run_hook : Hook → HitlEvent → Exec Done) (keep : HooksKeep run_hook engine.hooks)
    (promise : Promise) (lasts : Lasts promise)
    (said : (w : World) → IsResolved id w → promise (respond (some id) status) w) where
  -- The rest of `approve` or of `reject`.
  abbrev after_update : HitlEvent → Task HitlResponse
  after_update e =
      await_each (λ (hook : Hook). run_hook hook (resolved status (merge e.payload) e)) engine.hooks
        (ends (ok (respond (some id) status)))

  abbrev rest_of : HitlEvent → Task HitlResponse
  rest_of e = await_ok (update_status id status (some (merge e.payload))) (λ _. after_update e)

  updated-IsResolved :
      (d : Fields) (r : HitlRow) (w : World)
      → find_row id w.hitl ≡ some r
      → IsResolved id (resolved_world id status (some d) w)
  updated-IsResolved d r w found = record {
    row = resolve_row status (some d) w.now r;
    found = find_row-updated id status d w.now w.hitl r found;
    closed = status_closed status final;
  }

  rest_of-Secured :
      (e : HitlEvent) (r : HitlRow) (w : World)
      → find_row id w.hitl ≡ some r
      → Secured promise w (rest_of e)
  rest_of-Secured e r w found =
      await_ok-Secured promise lasts (update_status id status (some (merge e.payload))) _ w
        (λ v later keyed. update_status-Later id status (some (merge e.payload)) v final)
        (λ v d later keyed written.
          let (s, there, _) = later.outlives id r found in
          subst (λ u. Secured promise u (unless_raised {B = Done} (λ _. after_update e) (ok d)))
            (sym (update_status-wrote id status (merge e.payload) v d written))
            (await_each-Secured promise lasts
              (λ (hook : Hook). run_hook hook (resolved status (merge e.payload) e)) engine.hooks _
              _ (at_event run_hook (resolved status (merge e.payload) e) engine.hooks keep)
              (said _ (updated-IsResolved (merge e.payload) s v there))))

  -- The guards and the rest.
  pub resolving-Secured :
      ((answer : HitlResponse) (w : World) → is_error answer.status ≡ true → promise answer w)
      → (w : World) → Secured promise w (await_ok (resolvable host id) (resolve_task rest_of))
  resolving-Secured on_refusal w =
      await_ok-Secured promise lasts (resolvable host id) _ w
        (λ v later keyed. same-Later v _ (ap (λ (x : World). x.hitl) (resolvable-reads host id v)))
        (λ v found later keyed read.
          subst (λ u. Secured promise u (resolve_task rest_of found))
            (sym (resolvable-reads host id v))
            (guarded v found (resolvable-Guarded host id v found read)))
    where
      guarded :
          (v : World) (found : Option HitlEvent × HitlResponse)
          → Guarded host id v found
          → Secured promise v (resolve_task rest_of found)
      guarded v (none, answer) g = on_refusal answer v g
      guarded v (some e, answer) (r, there) = rest_of-Secured e r v there
