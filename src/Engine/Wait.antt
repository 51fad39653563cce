-- ===== src/Engine/Wait.antt =====
-- `HITLEngine.wait`: the loop of polls and sleeps. A sleep is a change of the world: the clock
-- moves, and other tasks run. The bound is in whole seconds, as the tool passes it.
use nodus_hitl_hub.Base.{
  Bool, Option, String, [], concat, false, if◌then◌else◌, ltb, none, some, suc, true, zero, ℕ, ◌∷◌,
}
use nodus_hitl_hub.Base.Int.{ℤ}
use nodus_hitl_hub.Host.{Host}
use nodus_hitl_hub.Json.Print.{decimal}
use nodus_hitl_hub.Models.Event.{HitlEvent, add_seconds}
use nodus_hitl_hub.Models.Hitl.{
  HitlResponse, HitlStatus, error, expired, is_decided, respond, respond_error, timeout,
}
use nodus_hitl_hub.Repository.{get_event}
use nodus_hitl_hub.World.{World}
use nodus_hitl_hub.World.Exec.{Exec, gets, lift, modify, pure, ◌>>=◌, ◌>>◌}

-- `f"{max_wait}"` of the float with this value. A bound of 10 ^ 16 seconds overflows before it is
-- printed.
unfoldable pub seconds_text : ℤ → String
seconds_text max_wait = concat (decimal max_wait ∷ ".0" ∷ [])

abbrev pub timed_out : String → ℤ → HitlResponse
timed_out id max_wait =
    respond_error (some id) timeout (concat ("Timeout after " ∷ seconds_text max_wait ∷ "s" ∷ []))

abbrev pub not_found : String → HitlResponse
not_found id = respond_error (some id) error "Confirmation not found"

abbrev pub has_expired : String → HitlResponse
has_expired id = respond_error (some id) timeout "Confirmation expired"

abbrev pub decision : String → HitlEvent → HitlResponse
decision id e = record (respond (some id) e.status) {
  response = some e.payload;
  confirmed_at = e.resolved_at;
}

abbrev pub is_expired : HitlStatus → Bool
is_expired expired = true
is_expired _ = false

-- The body of the loop on what it read: an answer, or another round.
unfoldable pub verdict_on : String → Option HitlEvent → Option HitlResponse
verdict_on id none = some (not_found id)
verdict_on id (some e) =
    if is_decided e.status
    then some (decision id e)
    else if is_expired e.status
    then some (has_expired id)
    else none

module _ (host : Host) (sleep : World → World) (id : String) (max_wait : ℤ) where
  -- The loop, `none` where the fuel is out.
  unfoldable pub wait_loop : ℕ → ℕ → Exec (Option HitlResponse)
  wait_loop zero deadline = pure none
  wait_loop (suc fuel) deadline = do
    now ← gets (λ w. w.now)
    let go_on = (do
      event ← get_event host id
      (elim (verdict_on id event) [
        | some answer ↦ pure (some answer)
        | none ↦ do modify sleep; wait_loop fuel deadline
      ]))
    (if ltb now deadline then go_on else pure (some (timed_out id max_wait)))

  unfoldable pub wait : ℕ → Exec (Option HitlResponse)
  wait fuel = do
    now ← gets (λ w. w.now)
    deadline ← lift (add_seconds now max_wait)
    wait_loop fuel deadline
