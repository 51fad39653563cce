-- ===== src/Lifecycle/Isolation.antt =====
-- Every plugin runs once, in the order of registration, whatever the others raise.
use nodus_hitl_hub.Base.{List, [], refl, ◌∷◌, ◌≡◌}
use nodus_hitl_hub.Lifecycle.Defs.{
  Hook, NotificationPlugin, notify_all, on_approved, on_created, on_expired, on_rejected,
}
use nodus_hitl_hub.Models.Event.{HitlEvent}
use nodus_hitl_hub.World.{World}
use nodus_hitl_hub.World.Exec.{Done, Exec, attempt, for_each, ok}

-- The world after each call in turn, raised or not.
abbrev pub after_all : {A : Type 0} → (A → Exec Done) → List A → World → World
after_all call [] w = w
after_all call (x ∷ xs) w = after_all call xs (call x w).1

pub for_each-attempt :
    {A : Type 0} (call : A → Exec Done) (xs : List A) (w : World)
    → for_each (λ x. attempt (call x)) xs w ≡ (ok tt, after_all call xs w)
unfolding for_each
for_each-attempt call [] w = refl
for_each-attempt call (x ∷ xs) w = for_each-attempt call xs (call x w).1

-- What the manager and the dispatcher promise: no call raises, and the world afterwards is that of
-- every plugin run once, in order, whether it raised or not.
pub record IsIsolated (hooks : List Hook) (plugins : List NotificationPlugin) (event : HitlEvent)
    (w : World) : Type 0 where
  pub created :
      on_created hooks event w ≡ (ok tt, after_all (λ (h : Hook). h.on_created event) hooks w)
  pub approved :
      on_approved hooks event w ≡ (ok tt, after_all (λ (h : Hook). h.on_approved event) hooks w)
  pub rejected :
      on_rejected hooks event w ≡ (ok tt, after_all (λ (h : Hook). h.on_rejected event) hooks w)
  pub expired :
      on_expired hooks event w ≡ (ok tt, after_all (λ (h : Hook). h.on_expired event) hooks w)
  pub notified :
      notify_all plugins event w
      ≡ (ok tt, after_all (λ (p : NotificationPlugin). p.notify event) plugins w)

pub plugins-IsIsolated :
    (hooks : List Hook) (plugins : List NotificationPlugin) (event : HitlEvent) (w : World)
    → IsIsolated hooks plugins event w
unfolding on_created on_approved on_rejected on_expired notify_all
plugins-IsIsolated hooks plugins event w = record {
  created = for_each-attempt (λ (h : Hook). h.on_created event) hooks w;
  approved = for_each-attempt (λ (h : Hook). h.on_approved event) hooks w;
  rejected = for_each-attempt (λ (h : Hook). h.on_rejected event) hooks w;
  expired = for_each-attempt (λ (h : Hook). h.on_expired event) hooks w;
  notified = for_each-attempt (λ (p : NotificationPlugin). p.notify event) plugins w;
}

-- No transition raises.
pub on_approved_ok :
    (hooks : List Hook) (event : HitlEvent) (w : World) → (on_approved hooks event w).0 ≡ ok tt
unfolding on_approved
on_approved_ok hooks event w =
    rw (for_each-attempt (λ (h : Hook). h.on_approved event) hooks w) refl

pub on_rejected_ok :
    (hooks : List Hook) (event : HitlEvent) (w : World) → (on_rejected hooks event w).0 ≡ ok tt
unfolding on_rejected
on_rejected_ok hooks event w =
    rw (for_each-attempt (λ (h : Hook). h.on_rejected event) hooks w) refl

pub on_created_ok :
    (hooks : List Hook) (event : HitlEvent) (w : World) → (on_created hooks event w).0 ≡ ok tt
unfolding on_created
on_created_ok hooks event w = rw (for_each-attempt (λ (h : Hook). h.on_created event) hooks w) refl

pub notify_all_ok :
    (plugins : List NotificationPlugin) (event : HitlEvent) (w : World)
    → (notify_all plugins event w).0 ≡ ok tt
unfolding notify_all
notify_all_ok plugins event w =
    rw (for_each-attempt (λ (p : NotificationPlugin). p.notify event) plugins w) refl
