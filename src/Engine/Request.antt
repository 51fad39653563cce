-- ===== src/Engine/Request.antt =====
-- `HITLEngine.request` on every branch: the validation, the key of a retry, the creation.
use nodus_hitl_hub.Base.{
  Bool-cases, List, Option, String, [], inl, inr, none, refl, some, true, ◌∷◌, ◌≡◌,
}
use nodus_hitl_hub.Engine.Create.{Creation, create-Creation}
use nodus_hitl_hub.Engine.Defs.{HitlEngine, create_once, refusal, repetition, request}
use nodus_hitl_hub.Engine.Kept.{IsTame, bind-reads}
use nodus_hitl_hub.Host.{Host}
use nodus_hitl_hub.Json.{Value, get, truthy}
use nodus_hitl_hub.Models.Event.{HitlEvent}
use nodus_hitl_hub.Models.Hitl.{HitlRequest, HitlResponse}
use nodus_hitl_hub.Repository.{get_by_idempotency_key}
use nodus_hitl_hub.Validators.Defs.{validation_errors}
use nodus_hitl_hub.World.{World}
use nodus_hitl_hub.World.Exec.{Error, Exec, Result, Result-cases, err, ok}

-- The validation of a request, and the search for its key in the world that the validator leaves.
abbrev pub judged : HitlEngine → HitlRequest → Exec (List String)
judged engine req = validation_errors engine.validators req.action_type req.action_details

abbrev pub key_of : HitlRequest → Value
key_of req = get "idempotency_key" req.metadata

-- How a request is answered, by what the validation and the search gave, and the world `v` after
-- the validation.
pub data Answer (host : Host) (req : HitlRequest) (errors : Result (List String))
    (found : Result (Option HitlEvent)) (v : World) (result : Result HitlResponse × World)
    : Type 0 where
  -- The validator raised: so does the call.
  unjudged :
      (x : Error) → errors ≡ err x → result ≡ (err x, v) → Answer host req errors found v result
  -- The validator found errors: the answer lists them, and nothing else happens.
  invalid :
      (e : String) (es : List String)
      → errors ≡ ok (e ∷ es)
      → result ≡ (ok (refusal (e ∷ es)), v)
      → Answer host req errors found v result
  -- The search for the key raised: so does the call.
  unsearched :
      (x : Error)
      → errors ≡ ok []
      → truthy (key_of req) ≡ true
      → found ≡ err x
      → result ≡ (err x, v)
      → Answer host req errors found v result
  -- A request has the key: the answer is that request as it is now, and nothing else happens.
  repeated :
      (e : HitlEvent)
      → errors ≡ ok []
      → truthy (key_of req) ≡ true
      → found ≡ ok (some e)
      → result ≡ (ok (repetition e), v)
      → Answer host req errors found v result
  -- No error, and no request with the key: the request is created.
  fresh :
      errors ≡ ok []
      → (truthy (key_of req) ≡ true → found ≡ ok none)
      → Creation host req v result
      → Answer host req errors found v result

pub get_by_idempotency_key_reads :
    (host : Host) (key : Value) (w : World) → (get_by_idempotency_key host key w).1 ≡ w
unfolding get_by_idempotency_key
get_by_idempotency_key_reads host key w = elim (Result-cases (host.text_param key)) [
  | inl (x, e) ↦ rw e refl
  | inr (t, e) ↦ rw e refl
]

module _ (host : Host) (engine : HitlEngine) (tame : IsTame engine) (req : HitlRequest) where
  create_once-Answer :
      (errors : Result (List String)) (v : World)
      → errors ≡ ok []
      → Answer host req errors
          (get_by_idempotency_key host (key_of req) v).0
          v
          (create_once host engine req v)
  unfolding create_once
  create_once-Answer errors v s = elim (Bool-cases (truthy (key_of req))) [
    | inr keyless ↦ rw keyless (fresh s (λ h. cc) (create-Creation host engine tame req v))
    | inl keyed ↦ elim (Result-cases (get_by_idempotency_key host (key_of req) v).0) [
      | inl (x, f) ↦
          unsearched x s keyed f
            (rw (keyed, f, get_by_idempotency_key_reads host (key_of req) v) refl)
      | inr (some e, f) ↦
          repeated e s keyed f
            (rw (keyed, f, get_by_idempotency_key_reads host (key_of req) v) refl)
      | inr (none, f) ↦
          fresh s (λ h. f)
            (rw (keyed, f, get_by_idempotency_key_reads host (key_of req) v)
              (create-Creation host engine tame req v))
    ]
  ]

  -- For an engine whose plugins and relay client leave the requests alone, `request` answers in
  -- one of the five ways: errors and retries change nothing beyond what the validator did, and a
  -- request that passes is created.
  pub request-Answer :
      (w : World)
      → Answer host req
          (judged engine req w).0
          (get_by_idempotency_key host (key_of req) (judged engine req w).1).0
          (judged engine req w).1
          (request host engine req w)
  unfolding request
  request-Answer w = elim (Result-cases (judged engine req w).0) [
    | inl (x, s) ↦ unjudged x s (rw s refl)
    | inr (e ∷ es, s) ↦ invalid e es s (rw s refl)
    | inr ([], s) ↦ rw (bind-reads (judged engine req) _ w s) (create_once-Answer _ _ s)
  ]
