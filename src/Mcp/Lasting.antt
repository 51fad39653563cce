-- ===== src/Mcp/Lasting.antt =====
-- What follows a resolution over HTTP.
use nodus_hitl_hub.Base.{
  Bool-cases, String, ap, arith, false, inl, inr, refl, some, sym, true, ℕ, ◌∙◌, ◌≡◌, ◌≢◌,
}
use nodus_hitl_hub.Engine.Defs.{HitlEngine, check}
use nodus_hitl_hub.Engine.Final.{IsQuiet, Steps, Steps-final}
use nodus_hitl_hub.Engine.Wait.{decision}
use nodus_hitl_hub.Host.{Host}
use nodus_hitl_hub.Json.{Fields, Value, get, obj}
use nodus_hitl_hub.Mcp.Decisions.{
  Resolved, decision_of, no_object, not_open, not_storable, resolve_request-Resolved, settled,
  unreadable,
}
use nodus_hitl_hub.Mcp.Dump.{dump_response}
use nodus_hitl_hub.Mcp.Rest.{
  JsonResponse, Service, WebRequest, get_request, is_true, resolve_request, unauthorized,
}
use nodus_hitl_hub.Models.Event.{HitlEvent}
use nodus_hitl_hub.Models.Hitl.{is_decided, pending}
use nodus_hitl_hub.Repository.{get_event}
use nodus_hitl_hub.Repository.Updates.{get_event_reads}
use nodus_hitl_hub.World.{World}
use nodus_hitl_hub.World.Exec.{Result, attribute_error, err, external, ok}

-- How a resolution with a body holds in a later world `u`, by what a fetch `look` of it gets and what
-- another resolution `again` of it does.
pub record Holds (host : Host) (service : Service) (id : String) (body : Value)
    (look again : WebRequest) (u : World) : Type 0 where
  pub said_fields : Fields
  pub event : HitlEvent
  pub said : body ≡ obj said_fields
  pub as_said : event.status ≡ decision_of said_fields
  -- The fetch shows the decision and changes nothing.
  pub shown : get_request host service look u ≡ (
    ok (record {
      status_code = 200;
      content = obj (dump_response service.json_time (decision id event));
    }),
    u,
  )
  -- The other resolution changes nothing, and if it is answered it is refused.
  pub kept : (resolve_request host service again u).1 ≡ u
  pub refused :
      (a : JsonResponse) → (resolve_request host service again u).0 ≡ ok a → a.status_code ≡ 400

decision_of-closed : (d : Fields) → (is_decided (decision_of d) ≡ true) × (decision_of d ≢ pending)
unfolding decision_of
decision_of-closed d = elim (Bool-cases (is_true (get "approved" d))) [
  | inl yes_said ↦ rw yes_said (refl, λ e. cc)
  | inr unsaid ↦ rw unsaid (refl, λ e. cc)
]

codes_differ : ¬ (Path ℕ 400 200)
codes_differ e = ground (arith, e)

-- A 200 says that the request is read with the decision.
Resolved-read :
    (host : Host) (id : String) (body : Value) (v : World) (result : Result JsonResponse × World)
    (a : JsonResponse)
    → Resolved host id body v result
    → result.0 ≡ ok a
    → a.status_code ≡ 200
    → (d : Fields) × (f : HitlEvent) × (body ≡ obj d)
      × ((get_event host id result.1).0 ≡ ok (some f))
      × (f.status ≡ decision_of d)
Resolved-read host id body v result a (no_object n q) fine code =
    let wrong : err attribute_error ≡ ok a =
      sym (ap (λ (y : Result JsonResponse × World). y.0) q) ∙ fine in
    cc
Resolved-read host id body v result a (unreadable x n q) fine code =
    let wrong : err x ≡ ok a = sym (ap (λ (y : Result JsonResponse × World). y.0) q) ∙ fine in cc
Resolved-read host id body v result a (not_open b n q c) fine code =
    let same : ok b ≡ ok a = sym (ap (λ (y : Result JsonResponse × World). y.0) q) ∙ fine in
    let wrong : b.status_code ≡ a.status_code = ground (arith, same) in
    elim (codes_differ (sym c ∙ wrong ∙ code)) [ ]
Resolved-read host id body v result a (not_storable d e same read waits bad q) fine code =
    let wrong : err external ≡ ok a =
      sym (ap (λ (y : Result JsonResponse × World). y.0) q) ∙ fine in
    cc
Resolved-read host id body v result a (settled d e f b same read waits good q c back s) fine code =
    (d, f, same, back, s)

-- A resolution of a request that is not pending changes nothing, and is refused.
Resolved-closed :
    (host : Host) (id : String) (body : Value) (u : World) (result : Result JsonResponse × World)
    (f : HitlEvent)
    → Resolved host id body u result
    → (get_event host id u).0 ≡ ok (some f)
    → f.status ≢ pending
    → (result.1 ≡ u) × ((a : JsonResponse) → result.0 ≡ ok a → a.status_code ≡ 400)
Resolved-closed host id body u result f (no_object n q) read closed = rw q (refl, λ a h. cc)
Resolved-closed host id body u result f (unreadable x n q) read closed = rw q (refl, λ a h. cc)
Resolved-closed host id body u result f (not_open b n q c) read closed =
    rw q (refl, λ a h. ground (arith, h, c))
Resolved-closed host id body u result f (not_storable d e same was waits bad q) read closed =
    rw q (refl, λ a h. cc)
Resolved-closed host id body u result f (settled d e g b same was waits good q c back s) read
      closed =
    let event : e ≡ f = ground (arith, was, read) in
    elim (closed (ap (λ (x : HitlEvent). x.status) (sym event) ∙ waits)) [ ]

-- What a fetch gets of a request that is read with a decision.
get_request-shown :
    (host : Host) (service : Service) (engine : HitlEngine) (id : String) (look : WebRequest)
    (f : HitlEvent) (u : World)
    → service.get_engine u ≡ (ok engine, u)
    → unauthorized service look ≡ false
    → look.path_id ≡ id
    → (get_event host id u).0 ≡ ok (some f)
    → is_decided f.status ≡ true
    → get_request host service look u ≡ (
      ok (record {
        status_code = 200;
        content = obj (dump_response service.json_time (decision id f));
      }),
      u,
    )
unfolding get_request check
get_request-shown host service engine id look f u built let_in path read closed =
    rw (let_in, built, path) (rw (read, get_event_reads host id u, closed) (rw path refl))

module _ (host : Host) (service : Service) (engine : HitlEngine) (quiet : IsQuiet engine)
    (built : (w : World) → service.get_engine w ≡ (ok engine, w)) (id : String) where
  -- For an engine that is built and leaves the requests alone beside its own writes: a resolution
  -- that is let in and gets a 200 holds, whatever requests, approvals, rejections and expiries follow,
  -- one after the other, and whatever happens between them that leaves the requests alone. A fetch
  -- that is let in shows the decision of the body, and another resolution that is let in, with a body
  -- that is JSON, changes nothing and gets no 200.
  pub resolve_request-Holds :
      (req look again : WebRequest) (body other : Value) (w u : World) (a : JsonResponse)
      → unauthorized service req ≡ false
      → unauthorized service look ≡ false
      → unauthorized service again ≡ false
      → req.body ≡ some body
      → again.body ≡ some other
      → req.path_id ≡ id
      → look.path_id ≡ id
      → again.path_id ≡ id
      → (resolve_request host service req w).0 ≡ ok a
      → a.status_code ≡ 200
      → Steps host engine (resolve_request host service req w).1 u
      → Holds host service id body look again u
  resolve_request-Holds req look again body other w u a let_in looks agains given gives here there
        too answer code steps =
      let (d, f, said, back, as_said) =
        Resolved-read host id body w (resolve_request host service req w) a
          (resolve_request-Resolved host service engine quiet.resolving id w req body w let_in given
            here (built w))
          answer code in
      let closed : f.status ≢ pending = λ p. (decision_of-closed d).1 (sym as_said ∙ p) in
      let still = Steps-final host engine quiet id f closed steps back in
      let (kept, refused) =
        Resolved-closed host id other u (resolve_request host service again u) f
          (resolve_request-Resolved host service engine quiet.resolving id u again other u agains
            gives too (built u))
          still closed in
      record {
        said_fields = d;
        event = f;
        said = said;
        as_said = as_said;
        shown =
            get_request-shown host service engine id look f u (built u) looks there still
              (rw as_said (decision_of-closed d).0);
        kept = kept;
        refused = refused;
      }
