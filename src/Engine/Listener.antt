-- ===== src/Engine/Listener.antt =====
-- core/nostr_bridge.py: `_listen_loop`, on what the subscription brings.
use nodus_hitl_hub.Base.{
  All, Bool, Bool-cases, List, [], any, false, inl, inr, refl, true, ◌∷◌, ◌≡◌, ◌⊎◌,
}
use nodus_hitl_hub.Engine.Authority.{accepted, handle_resolution-Handled, ignored, turned_down}
use nodus_hitl_hub.Engine.Defs.{HitlEngine}
use nodus_hitl_hub.Engine.Final.{Steps, approves, rejects, stay, step}
use nodus_hitl_hub.Engine.Resolution.{NostrEvent, nostr_reason, nostr_response, on_relay_event}
use nodus_hitl_hub.Engine.Steps.{Steps-append, Steps-eq}
use nodus_hitl_hub.Host.{Host}
use nodus_hitl_hub.World.{World}
use nodus_hitl_hub.World.Exec.{
  Done, Exec, Result, cancelled_error, err, modify, ok, pure, raise, ◌>>◌,
}

-- What the loop meets, in order: an event of the relay, a stretch of time in which other tasks run, a
-- crash of the subscription, after which it sleeps and subscribes again, its cancellation, and a crash
-- and then a cancellation during the sleep after it, which is no part of the `try`. What the relay sends while there is no subscription does not come.
pub data Signal : Type 0 where
  delivers : NostrEvent → Signal
  meanwhile : (World → World) → Signal
  crashes : Signal
  is_cancelled : Signal
  is_cancelled_asleep : Signal

module _ (host : Host) (engine : HitlEngine) where
  unfoldable pub listen_loop : List Signal → Exec Done
  listen_loop [] = pure tt
  listen_loop (delivers event ∷ signals) = do on_relay_event host engine event; listen_loop signals
  listen_loop (meanwhile others ∷ signals) = do modify others; listen_loop signals
  listen_loop (crashes ∷ signals) = listen_loop signals
  listen_loop (is_cancelled ∷ signals) = pure tt
  listen_loop (is_cancelled_asleep ∷ signals) = raise cancelled_error

  abbrev pub OthersStep : Signal → Type 0
  OthersStep (meanwhile others) = (w : World) → Steps host engine w (others w)
  OthersStep _ = Unit

  on_relay_event_ok :
      (event : NostrEvent) (w : World) → (on_relay_event host engine event w).0 ≡ ok tt
  unfolding on_relay_event
  on_relay_event_ok event w = refl

  -- A relay event is at most one resolution.
  pub on_relay_event-Steps :
      (event : NostrEvent) (w : World) → Steps host engine w (on_relay_event host engine event w).1
  unfolding on_relay_event
  on_relay_event-Steps event w = elim (handle_resolution-Handled host engine event w) [
    | ignored none_there q ↦ Steps-eq host engine stay q
    | accepted row authority yea q ↦
        Steps-eq host engine (step (approves row.event_id (nostr_response event)) stay) q
    | turned_down row authority nay q ↦
        Steps-eq host engine (step (rejects row.event_id nostr_reason) stay) q
  ]

  abbrev pub breaks_sleep : Signal → Bool
  breaks_sleep is_cancelled_asleep = true
  breaks_sleep _ = false

  -- How the loop ends: quietly, or with the exception of a cancellation during the sleep after a crash.
  abbrev pub Ending : List Signal → Result Done → Type 0
  Ending signals r = (r ≡ ok tt) ⊎ ((r ≡ err cancelled_error) × (any breaks_sleep signals ≡ true))

  later-Ending :
      (signal : Signal) (signals : List Signal) (r : Result Done)
      → Ending signals r
      → Ending (signal ∷ signals) r
  later-Ending signal signals r (inl fine) = inl fine
  later-Ending signal signals r (inr (raised_it, there)) = elim (Bool-cases (breaks_sleep signal)) [
    | inl here ↦ inr (raised_it, rw here refl)
    | inr not_here ↦ inr (raised_it, rw not_here there)
  ]

  -- Whatever the relay sends and however often the subscription crashes, the loop raises nothing but a
  -- cancellation during the sleep after a crash, and what becomes of the requests is the work of requests,
  -- approvals, rejections and expiries, if the other tasks change them in these ways alone.
  pub listen_loop-Steps :
      (signals : List Signal) (w : World)
      → All OthersStep signals
      → Ending signals (listen_loop signals w).0 × Steps host engine w (listen_loop signals w).1
  unfolding listen_loop
  listen_loop-Steps [] w k = (inl refl, stay)
  listen_loop-Steps (delivers event ∷ signals) w k =
      let (ending, later) = listen_loop-Steps signals (on_relay_event host engine event w).1 k.1 in
      (
        rw (on_relay_event_ok event w) (later-Ending (delivers event) signals _ ending),
        rw (on_relay_event_ok event w)
            (Steps-append host engine (on_relay_event-Steps event w) later),
      )
  listen_loop-Steps (meanwhile others ∷ signals) w k =
      let (ending, later) = listen_loop-Steps signals (others w) k.1 in
      (later-Ending (meanwhile others) signals _ ending, Steps-append host engine (k.0 w) later)
  listen_loop-Steps (crashes ∷ signals) w k =
      let (ending, later) = listen_loop-Steps signals w k.1 in
      (later-Ending crashes signals _ ending, later)
  listen_loop-Steps (is_cancelled ∷ signals) w k = (inl refl, stay)
  listen_loop-Steps (is_cancelled_asleep ∷ signals) w k = (inr (refl, refl), stay)
