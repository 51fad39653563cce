-- ===== src/Engine/Waiting.antt =====
-- `HITLEngine.wait` comes to an end, and where it ends is what it answers.
use nodus_hitl_hub.Base.{
  Bool-cases, Option, String, arith, inl, inr, ltb, none, refl, some, suc, true, zero, ℕ, ◌+◌, ◌<◌,
  ◌≡◌, ◌≢◌, ◌≤◌,
}
use nodus_hitl_hub.Base.Int.{ℤ}
use nodus_hitl_hub.Engine.Wait.{
  decision, has_expired, is_expired, not_found, timed_out, verdict_on, wait, wait_loop,
}
use nodus_hitl_hub.Host.{Host}
use nodus_hitl_hub.Models.Event.{HitlEvent, add_seconds}
use nodus_hitl_hub.Models.Hitl.{HitlResponse, HitlStatus, approved, expired, is_decided, rejected}
use nodus_hitl_hub.Repository.{get_event}
use nodus_hitl_hub.Repository.Updates.{get_event_reads}
use nodus_hitl_hub.World.{World}
use nodus_hitl_hub.World.Exec.{Error, Result, Result-cases, err, ok}

-- Nobody decided, and the request did not expire.
abbrev pub IsUndecided : HitlStatus → Type 0
IsUndecided status = (status ≢ approved) × (status ≢ rejected) × (status ≢ expired)

module _ (host : Host) (sleep : World → World) (id : String) where
  -- From a world the loop sleeps on to another: in each world before, the time was not over and the
  -- request was there and undecided.
  pub data SleepsTo (deadline : ℕ) : World → World → Type 0 where
    awake : {w : World} → SleepsTo deadline w w
    asleep :
        {w v : World} (e : HitlEvent)
        → w.now < deadline
        → (get_event host id w).0 ≡ ok (some e)
        → IsUndecided e.status
        → SleepsTo deadline (sleep w) v
        → SleepsTo deadline w v

module _ (host : Host) (id : String) where
  -- What the loop answers in the world where it ends, which it leaves as it is.
  pub data Verdict (max_wait : ℤ) (deadline : ℕ) (v : World)
      (result : Result (Option HitlResponse) × World) : Type 0 where
    raised :
        (x : Error)
        → v.now < deadline
        → (get_event host id v).0 ≡ err x
        → result ≡ (err x, v)
        → Verdict max_wait deadline v result
    absent :
        v.now < deadline
        → (get_event host id v).0 ≡ ok none
        → result ≡ (ok (some (not_found id)), v)
        → Verdict max_wait deadline v result
    decided :
        (e : HitlEvent)
        → v.now < deadline
        → (get_event host id v).0 ≡ ok (some e)
        → is_decided e.status ≡ true
        → result ≡ (ok (some (decision id e)), v)
        → Verdict max_wait deadline v result
    lapsed :
        (e : HitlEvent)
        → v.now < deadline
        → (get_event host id v).0 ≡ ok (some e)
        → e.status ≡ expired
        → result ≡ (ok (some (has_expired id)), v)
        → Verdict max_wait deadline v result
    late :
        deadline ≤ v.now
        → result ≡ (ok (some (timed_out id max_wait)), v)
        → Verdict max_wait deadline v result

-- What the body answers, by the status.
data Judged (id : String) (e : HitlEvent) : Type 0 where
  is_done : is_decided e.status ≡ true → verdict_on id (some e) ≡ some (decision id e) → Judged id e
  is_over : e.status ≡ expired → verdict_on id (some e) ≡ some (has_expired id) → Judged id e
  is_open_still : IsUndecided e.status → verdict_on id (some e) ≡ none → Judged id e

verdict_on-Judged : (id : String) (e : HitlEvent) → Judged id e
unfolding verdict_on
verdict_on-Judged id e = elim (Bool-cases (is_decided e.status)) [
  | inl d ↦ is_done d (rw d refl)
  | inr d ↦ elim (Bool-cases (is_expired e.status)) [
    | inl x ↦ is_over (ground (arith, x)) (rw (d, x) refl)
    | inr x ↦
        is_open_still
          (λ p. ground (arith, p, d), λ p. ground (arith, p, d), λ p. ground (arith, p, x))
          (rw (d, x) refl)
  ]
]

verdict_on-none : (id : String) → verdict_on id none ≡ some (not_found id)
unfolding verdict_on
verdict_on-none id = refl

module _ (host : Host) (sleep : World → World) (id : String) (max_wait : ℤ) (fuel deadline : ℕ)
    (w : World) where
  -- The loop stops in this world, or sleeps and goes on.
  pub data Round : Type 0 where
    stops :
        Verdict host id max_wait deadline w (wait_loop host sleep id max_wait (suc fuel) deadline w)
        → Round
    goes_on :
        (e : HitlEvent)
        → w.now < deadline
        → (get_event host id w).0 ≡ ok (some e)
        → IsUndecided e.status
        → verdict_on id (some e) ≡ none
        → wait_loop host sleep id max_wait (suc fuel) deadline w
          ≡ wait_loop host sleep id max_wait fuel deadline (sleep w)
        → Round

  pub wait_loop-Round : Round
  unfolding wait_loop
  wait_loop-Round = elim (Bool-cases (ltb w.now deadline)) [
    | inr over ↦ stops (late (ground (arith, over)) (rw over refl))
    | inl go ↦ elim (Result-cases (get_event host id w).0) [
      | inl (x, r) ↦
          stops (raised x (ground (arith, go)) r (rw (go, r, get_event_reads host id w) refl))
      | inr (none, r) ↦ stops (
          absent (ground (arith, go)) r
            (rw (go, r, get_event_reads host id w) (ground (arith, verdict_on-none id))))
      | inr (some e, r) ↦ elim (verdict_on-Judged id e) [
        | is_done d j ↦ stops (
            decided e (ground (arith, go)) r d
              (rw (go, r, get_event_reads host id w) (ground (arith, j))))
        | is_over d j ↦ stops (
            lapsed e (ground (arith, go)) r d
              (rw (go, r, get_event_reads host id w) (ground (arith, j))))
        | is_open_still u j ↦
            goes_on e (ground (arith, go)) r u j
              (rw (go, r, get_event_reads host id w) (ground (arith, j)))
      ]
    ]
  ]

module _ (host : Host) (sleep : World → World) (id : String) (max_wait : ℤ)
    (ticks : (w : World) → w.now < (sleep w).now) where
  -- One more unit of fuel than there are microseconds left is enough: the loop ends, in a world
  -- that it came to by sleeps over an undecided request, with the verdict on that world.
  pub wait_loop-ends :
      (fuel deadline : ℕ) (w : World)
      → deadline ≤ fuel + w.now
      → (v : World) × SleepsTo host sleep id deadline w v
        × Verdict host id max_wait deadline v
            (wait_loop host sleep id max_wait (suc fuel) deadline w)
  wait_loop-ends zero deadline w enough =
      elim (wait_loop-Round host sleep id max_wait zero deadline w) [
        | stops verdict ↦ (w, awake, verdict)
        | goes_on e go r u j q ↦ ground arith
      ]
  wait_loop-ends (suc fuel) deadline w enough =
      elim (wait_loop-Round host sleep id max_wait (suc fuel) deadline w) [
        | stops verdict ↦ (w, awake, verdict)
        | goes_on e go r u j q ↦
            let (v, slept, verdict) =
              wait_loop-ends fuel deadline (sleep w) (ground (arith, ticks w)) in
            (v, asleep e go r u slept, rw q verdict)
      ]

  -- Where the clock moves in every sleep and the bound is in range, a wait with enough fuel ends:
  -- it slept only while the request was undecided and in time, and its answer is the verdict on
  -- the world that it ends in, a decision, an expiry, an absence or the end of the time.
  pub wait-ends :
      (fuel deadline : ℕ) (w : World)
      → add_seconds w.now max_wait ≡ ok deadline
      → deadline ≤ fuel + w.now
      → (v : World) × SleepsTo host sleep id deadline w v
        × Verdict host id max_wait deadline v (wait host sleep id max_wait (suc fuel) w)
  unfolding wait
  wait-ends fuel deadline w s enough = rw s (wait_loop-ends fuel deadline w enough)
