-- ===== src/Engine/Answered.antt =====
-- `wait` and the other tasks: a decision that is made in time is the answer.
use nodus_hitl_hub.Base.{
  Option, String, ap, arith, none, refl, some, subst, suc, sym, true, zero, ℕ, ◌<◌, ◌∙◌, ◌≡◌, ◌≢◌,
  ◌≤◌,
}
use nodus_hitl_hub.Base.Int.{ℤ}
use nodus_hitl_hub.Engine.Defs.{HitlEngine}
use nodus_hitl_hub.Engine.Final.{IsQuiet, Steps, Steps-final, stay}
use nodus_hitl_hub.Engine.Presence.{IsThere, Steps-IsThere}
use nodus_hitl_hub.Engine.Steps.{Steps-append}
use nodus_hitl_hub.Engine.Wait.{decision, verdict_on, wait, wait_loop}
use nodus_hitl_hub.Engine.Waiting.{
  Verdict, absent, decided, goes_on, lapsed, late, raised, stops, wait_loop-Round,
}
use nodus_hitl_hub.Host.{Host}
use nodus_hitl_hub.Models.Event.{HitlEvent, add_seconds}
use nodus_hitl_hub.Models.Hitl.{HitlResponse, HitlStatus, expired, is_decided, pending}
use nodus_hitl_hub.Repository.{get_event}
use nodus_hitl_hub.World.{World}
use nodus_hitl_hub.World.Exec.{Result, ok}

verdict_on-decided :
    (id : String) (e : HitlEvent)
    → is_decided e.status ≡ true
    → verdict_on id (some e) ≡ some (decision id e)
unfolding verdict_on
verdict_on-decided id e sure = rw sure refl

decided_closed : (s : HitlStatus) → is_decided s ≡ true → s ≢ pending
decided_closed s sure p = cc (subst (λ t. is_decided t ≡ true) p sure)

decided_current : (s : HitlStatus) → is_decided s ≡ true → s ≢ expired
decided_current s sure p = cc (subst (λ t. is_decided t ≡ true) p sure)

-- What the loop answers where it ends, in time and on an event that stays once it is resolved.
Verdict-answer :
    (host : Host) (id : String) (max_wait : ℤ) (deadline : ℕ) (w : World)
    (result : Result (Option HitlResponse) × World) (f e : HitlEvent)
    → Verdict host id max_wait deadline w result
    → w.now < deadline
    → (get_event host id w).0 ≡ ok (some f)
    → (f.status ≢ pending → f ≡ e)
    → is_decided e.status ≡ true
    → result.0 ≡ ok (some (decision id e))
Verdict-answer host id max_wait deadline w result f e (raised x go r q) in_time read stays sure =
    ground (arith, r, read)
Verdict-answer host id max_wait deadline w result f e (absent go r q) in_time read stays sure =
    ground (arith, r, read)
Verdict-answer host id max_wait deadline w result f e (decided g go r d q) in_time read stays sure =
    let me : g ≡ f = ground (arith, r, read) in
    let closed =
      decided_closed f.status (subst (λ (x : HitlEvent). is_decided x.status ≡ true) me d) in
    rw q (ap (λ x. ok (some (decision id x))) (me ∙ stays closed))
Verdict-answer host id max_wait deadline w result f e (lapsed g go r d q) in_time read stays sure =
    let me : g ≡ f = ground (arith, r, read) in
    let status : f.status ≡ expired = ap (λ (x : HitlEvent). x.status) (sym me) ∙ d in
    let closed : f.status ≢ pending = λ p. cc (sym status ∙ p) in
    let same = ap (λ (x : HitlEvent). x.status) (stays closed) in
    elim (decided_current e.status sure (sym same ∙ status)) [ ]
Verdict-answer host id max_wait deadline w result f e (late over q) in_time read stays sure =
    ground (arith, over, in_time)

module _ (host : Host) (engine : HitlEngine) (quiet : IsQuiet engine) (sleep : World → World)
    (ticks : (w : World) → w.now < (sleep w).now)
    (works : (w : World) → Steps host engine w (sleep w)) (id : String) (max_wait : ℤ) where
  -- The world after so many sleeps.
  abbrev pub after_sleeps : ℕ → World → World
  after_sleeps zero w = w
  after_sleeps (suc n) w = after_sleeps n (sleep w)

  after_sleeps-Steps : (n : ℕ) (w : World) → Steps host engine w (after_sleeps n w)
  after_sleeps-Steps zero w = stay
  after_sleeps-Steps (suc n) w = Steps-append host engine (works w) (after_sleeps-Steps n (sleep w))

  after_sleeps-now : (n : ℕ) (w : World) → w.now ≤ (after_sleeps n w).now
  after_sleeps-now zero w = ground arith
  after_sleeps-now (suc n) w = ground (arith, after_sleeps-now n (sleep w), ticks w)

  wait_loop-answers :
      (n fuel deadline : ℕ) (w : World) (e : HitlEvent)
      → IsThere host id w
      → (get_event host id (after_sleeps n w)).0 ≡ ok (some e)
      → is_decided e.status ≡ true
      → (after_sleeps n w).now < deadline
      → n ≤ fuel
      → (wait_loop host sleep id max_wait (suc fuel) deadline w).0 ≡ ok (some (decision id e))
  wait_loop-answers zero fuel deadline w e there read sure in_time enough =
      elim (wait_loop-Round host sleep id max_wait fuel deadline w) [
        | stops verdict ↦
            Verdict-answer host id max_wait deadline w _ e e verdict in_time read (λ c. refl) sure
        | goes_on g go r u j q ↦
            let me : g ≡ e = ground (arith, r, read) in
            let answer = verdict_on-decided id e sure in
            let open_still = subst (λ x. verdict_on id (some x) ≡ none) me j in cc
      ]
  wait_loop-answers (suc n) zero deadline w e there read sure in_time enough =
      ground (arith, enough)
  wait_loop-answers (suc n) (suc fuel) deadline w e (f, now_read) read sure in_time enough =
      elim (wait_loop-Round host sleep id max_wait (suc fuel) deadline w) [
        | stops verdict ↦
            let stays : f.status ≢ pending → f ≡ e = λ closed.
              let later =
                Steps-final host engine quiet id f closed (after_sleeps-Steps (suc n) w) now_read in
              ground (arith, later, read) in
            Verdict-answer host id max_wait deadline w _ f e verdict
              (ground (arith, after_sleeps-now (suc n) w, in_time)) now_read stays sure
        | goes_on g go r u j q ↦ rw q (
            wait_loop-answers n fuel deadline (sleep w) e
              (Steps-IsThere host engine quiet id (works w) (f, now_read)) read sure in_time
              (ground (arith, enough)))
      ]

  -- Where an engine leaves the requests alone beside its own writes, the clock moves in every sleep
  -- and nothing happens in them but requests, approvals, rejections, expiries and what leaves the
  -- requests alone: a wait for a request that is there answers with the decision, if one is made and there is
  -- time left after as many sleeps; the number of sleeps and one is enough fuel.
  pub wait-answers :
      (n fuel deadline : ℕ) (w : World) (f e : HitlEvent)
      → (get_event host id w).0 ≡ ok (some f)
      → (get_event host id (after_sleeps n w)).0 ≡ ok (some e)
      → is_decided e.status ≡ true
      → add_seconds w.now max_wait ≡ ok deadline
      → (after_sleeps n w).now < deadline
      → n ≤ fuel
      → (wait host sleep id max_wait (suc fuel) w).0 ≡ ok (some (decision id e))
  unfolding wait
  wait-answers n fuel deadline w f e there read sure bound in_time enough =
      rw bound (wait_loop-answers n fuel deadline w e (f, there) read sure in_time enough)
