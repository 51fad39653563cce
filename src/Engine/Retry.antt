-- ===== src/Engine/Retry.antt =====
-- A retry of a request.
use nodus_hitl_hub.Base.{
  List, Option, String, [], ap, is_full, refl, some, subst, sym, true, ◌∙◌, ◌≡◌,
}
use nodus_hitl_hub.Engine.Create.{Creation, key_taken, made, unmade, unowned, unstored}
use nodus_hitl_hub.Engine.Defs.{HitlEngine, acceptance, create_once, repetition, request}
use nodus_hitl_hub.Engine.Kept.{IsTame}
use nodus_hitl_hub.Engine.Request.{
  Answer, fresh, get_by_idempotency_key_reads, invalid, judged, key_of, repeated, request-Answer,
  unjudged, unsearched,
}
use nodus_hitl_hub.Host.{Host}
use nodus_hitl_hub.Json.{str}
use nodus_hitl_hub.Models.Event.{HitlEvent}
use nodus_hitl_hub.Models.Hitl.{HitlRequest, HitlResponse, pending}
use nodus_hitl_hub.Repository.{get_by_idempotency_key}
use nodus_hitl_hub.Repository.Updates.{stored}
use nodus_hitl_hub.World.{World}
use nodus_hitl_hub.World.Exec.{Result, ok}

-- The validator of the request's action finds no error in it, at any time, and changes nothing.
abbrev pub IsAccepted : HitlEngine → HitlRequest → Type 0
IsAccepted engine req = (v : World) → judged engine req v ≡ (ok [], v)

-- A request whose key is there is answered with what is there.
request-repeats :
    (host : Host) (engine : HitlEngine) (req : HitlRequest) (k : String) (e : HitlEvent) (w : World)
    → IsAccepted engine req
    → key_of req ≡ str k
    → is_full k ≡ true
    → (get_by_idempotency_key host (str k) w).0 ≡ ok (some e)
    → request host engine req w ≡ (ok (repetition e), w)
unfolding request create_once
request-repeats host engine req k e w accepts named full found =
    rw (accepts w) (rw (named, full, found, get_by_idempotency_key_reads host (str k) w) refl)

-- The answer to a fresh request is the one that a retry reads off its event.
repetition-acceptance :
    (e : HitlEvent) (url : Option String)
    → e.status ≡ pending
    → repetition (record (stored e) { relay_url = url }) ≡ acceptance e
repetition-acceptance e url p = rw p refl

module _ (host : Host) (engine : HitlEngine) (req again : HitlRequest) (k : String) (w : World)
    (a : HitlResponse) where
  -- The retry in the world that the first request left.
  abbrev RepeatedIn : World → Type 0
  RepeatedIn v = request host engine again v ≡ (ok a, v)

  created-repeats :
      (result : Result HitlResponse × World)
      → IsAccepted engine again
      → key_of req ≡ str k
      → key_of again ≡ str k
      → is_full k ≡ true
      → result.0 ≡ ok a
      → Creation host req w result
      → RepeatedIn result.1
  created-repeats result accepts named named' full h (unmade x _ stopped _) = cc (sym stopped ∙ h)
  created-repeats result accepts named named' full h (unowned e _ _ stopped _) =
      cc (sym stopped ∙ h)
  created-repeats result accepts named named' full h (unstored e _ _ stopped _) =
      cc (sym stopped ∙ h)
  created-repeats result accepts named named' full h (key_taken e _ _ stopped _) =
      cc (sym stopped ∙ h)
  created-repeats result accepts named named' full h (made e url asked free answer _ keyed) =
      request-repeats host engine again k (record (stored e) { relay_url = url }) result.1 accepts
        named' full (keyed k (asked.key k named))
      ∙ ap (λ x. (x, result.1))
          (ap ok (repetition-acceptance e url asked.is_waiting) ∙ sym answer ∙ h)

  answered-repeats :
      (result : Result HitlResponse × World)
      → IsAccepted engine again
      → key_of req ≡ str k
      → key_of again ≡ str k
      → is_full k ≡ true
      → result.0 ≡ ok a
      → Answer host req (ok []) (get_by_idempotency_key host (key_of req) w).0 w result
      → RepeatedIn result.1
  answered-repeats result accepts named named' full h (unjudged x e _) = cc
  answered-repeats result accepts named named' full h (invalid x xs e _) = cc
  answered-repeats result accepts named named' full h (unsearched x _ _ _ q) =
      cc (sym (ap (λ (y : Result HitlResponse × World). y.0) q) ∙ h)
  answered-repeats result accepts named named' full h (repeated e _ _ found q) =
      let there : (get_by_idempotency_key host (str k) w).0 ≡ ok (some e) =
        ap (λ key. (get_by_idempotency_key host key w).0) (sym named) ∙ found in
      let same : ok (repetition e) ≡ ok a =
        sym (ap (λ (y : Result HitlResponse × World). y.0) q) ∙ h in
      subst RepeatedIn (sym (ap (λ (y : Result HitlResponse × World). y.1) q))
        (request-repeats host engine again k e w accepts named' full there ∙ ap (λ x. (x, w)) same)
  answered-repeats result accepts named named' full h (fresh _ _ creation) =
      created-repeats result accepts named named' full h creation

-- For an engine whose plugins and relay client leave the requests alone, a retry, a request with
-- the same idempotency key that the validators accept as they accept the first, gets the answer of
-- the first, whether that created the request or found it, and changes nothing.
pub request_again :
    (host : Host) (engine : HitlEngine) (tame : IsTame engine) (req again : HitlRequest)
    (k : String) (w : World) (a : HitlResponse)
    → IsAccepted engine req
    → IsAccepted engine again
    → key_of req ≡ str k
    → key_of again ≡ str k
    → is_full k ≡ true
    → (request host engine req w).0 ≡ ok a
    → request host engine again (request host engine req w).1
      ≡ (ok a, (request host engine req w).1)
request_again host engine tame req again k w a accepts accepts' named named' full h =
    answered-repeats host engine req again k w a (request host engine req w) accepts' named named'
      full h
      (subst
        (λ (j : Result (List String) × World).
          Answer host req j.0 (get_by_idempotency_key host (key_of req) j.1).0 j.1
            (request host engine req w))
        (accepts w) (request-Answer host engine tame req w))
