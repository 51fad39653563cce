-- ===== src/Notify/Keeping.antt =====
-- core/notify_engine.py: what `send` leaves alone if the adapters do.
use nodus_hitl_hub.Base.{
  All, Bool-cases, List, Option-cases, String, [], inl, inr, is_one_of, refl, ℕ, ◌==◌, ◌∙◌, ◌∷◌,
  ◌≡◌,
}
use nodus_hitl_hub.Base.Searches.{find-All}
use nodus_hitl_hub.Models.Notify.{NotifyRequest}
use nodus_hitl_hub.Notify.Attempts.{deliver-cases}
use nodus_hitl_hub.Notify.Channels.{ChannelAdapter, get_adapter}
use nodus_hitl_hub.Notify.Defs.{Tally, deliver, log_only_channels, pref_of, prepare, send_all}
use nodus_hitl_hub.Notify.Store.{NotificationPreference}
use nodus_hitl_hub.World.{World}

-- The adapters leave alone what the view shows.
abbrev pub AdaptersLeave : {X : Type 0} → (World → X) → List ChannelAdapter → Type 0
AdaptersLeave view adapters =
    All (λ (a : ChannelAdapter). (req : NotifyRequest) (w : World) → view (a.send req w).1 ≡ view w)
      adapters

module _ {X : Type 0} (view : World → X) (adapters : List ChannelAdapter)
    (keep : AdaptersLeave view adapters) where
  deliver-keeps :
      (channel : String) (req : NotifyRequest) (w : World)
      → view (deliver adapters channel req w).1 ≡ view w
  unfolding deliver get_adapter
  deliver-keeps channel req w = elim (Bool-cases (is_one_of channel log_only_channels)) [
    | inl logged ↦ rw logged refl
    | inr sent_out ↦ elim (Option-cases (get_adapter channel adapters)) [
      | inl unknown ↦ rw (sent_out, unknown) refl
      | inr (a, known) ↦
          rw (sent_out, known)
            (find-All
              (λ (a : ChannelAdapter).
                (req : NotifyRequest) (w : World) → view (a.send req w).1 ≡ view w)
              (λ a. a.name == channel) adapters a keep known req w)
    ]
  ]

  pub send_all-keeps :
      (prefs : List NotificationPreference) (hour : ℕ) (req : NotifyRequest)
      (channels : List String) (t : Tally) (w : World)
      → view (send_all adapters prefs hour req channels t w).1 ≡ view w
  unfolding send_all
  send_all-keeps prefs hour req [] t w = refl
  send_all-keeps prefs hour req (c ∷ cs) t w =
      elim (Option-cases (prepare (pref_of c prefs) c hour req)) [
        | inl p ↦ rw (p, send_all) (send_all-keeps prefs hour req cs t w)
        | inr (r, p) ↦ elim (deliver-cases adapters c r w) [
          | inl d ↦ rw (p, send_all, d) (send_all-keeps prefs hour req cs _ _ ∙ deliver-keeps c r w)
          | inr d ↦ rw (p, send_all, d) (send_all-keeps prefs hour req cs _ _ ∙ deliver-keeps c r w)
        ]
      ]
