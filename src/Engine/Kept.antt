-- ===== src/Engine/Kept.antt =====
-- Calls that leave the table of requests as it is, which is what the engine relies on from the
-- hooks, the notification plugins and the relay client.
use nodus_hitl_hub.Base.{All, List, Option, [], ap, inl, inr, none, refl, some, sym, ◌∙◌, ◌∷◌, ◌≡◌}
use nodus_hitl_hub.Bridge.{NostrBridge}
use nodus_hitl_hub.Engine.Defs.{HitlEngine}
use nodus_hitl_hub.Lifecycle.Defs.{Hook, NotificationPlugin, notify_all, on_created}
use nodus_hitl_hub.Lifecycle.Isolation.{after_all, plugins-IsIsolated}
use nodus_hitl_hub.Models.Event.{HitlEvent}
use nodus_hitl_hub.World.{InboxItem, World}
use nodus_hitl_hub.World.Exec.{Done, Exec, Result, Result-cases, continue, ok, ◌>>=◌}

-- A call that does not write `nostr_hitl`.
abbrev pub Keeps : {A : Type 0} → Exec A → Type 0
Keeps m = (w : World) → (m w).1.hitl ≡ w.hitl

abbrev pub ClientKeeps : Option NostrBridge → Type 0
ClientKeeps none = Unit
ClientKeeps (some bridge) = elim bridge.client [
  | none ↦ Unit
  | some client ↦ (item : InboxItem) → Keeps (client.send_event item)
]

-- The plugins and the client of an engine leave the requests alone while a request is created.
pub record IsTame (engine : HitlEngine) : Type 0 where
  pub hooks : All (λ (h : Hook). (e : HitlEvent) → Keeps (h.on_created e)) engine.hooks
  pub plugins :
      All (λ (p : NotificationPlugin). (e : HitlEvent) → Keeps (p.notify e)) engine.plugins
  pub client : ClientKeeps engine.bridge

pub after_all-hitl :
    {A : Type 0} (call : A → Exec Done) (xs : List A) (w : World)
    → All (λ x. Keeps (call x)) xs
    → (after_all call xs w).hitl ≡ w.hitl
after_all-hitl call [] w k = refl
after_all-hitl call (x ∷ xs) w k = after_all-hitl call xs (call x w).1 k.1 ∙ k.0 w

pub hooks-All :
    (e : HitlEvent) (hooks : List Hook)
    → All (λ (h : Hook). (e : HitlEvent) → Keeps (h.on_created e)) hooks
    → All (λ (h : Hook). Keeps (h.on_created e)) hooks
hooks-All e [] k = tt
hooks-All e (h ∷ hs) k = (k.0 e, hooks-All e hs k.1)

pub plugins-All :
    (e : HitlEvent) (plugins : List NotificationPlugin)
    → All (λ (p : NotificationPlugin). (e : HitlEvent) → Keeps (p.notify e)) plugins
    → All (λ (p : NotificationPlugin). Keeps (p.notify e)) plugins
plugins-All e [] k = tt
plugins-All e (p ∷ ps) k = (k.0 e, plugins-All e ps k.1)

module _ (engine : HitlEngine) (tame : IsTame engine) (e : HitlEvent) (w : World) where
  pub on_created-hitl : (on_created engine.hooks e w).1.hitl ≡ w.hitl
  on_created-hitl =
      ap (λ (x : Result Done × World). x.1.hitl)
        (plugins-IsIsolated engine.hooks engine.plugins e w).created
      ∙ after_all-hitl (λ (h : Hook). h.on_created e) engine.hooks w
          (hooks-All e engine.hooks tame.hooks)

  pub notify_all-hitl : (notify_all engine.plugins e w).1.hitl ≡ w.hitl
  notify_all-hitl =
      ap (λ (x : Result Done × World). x.1.hitl)
        (plugins-IsIsolated engine.hooks engine.plugins e w).notified
      ∙ after_all-hitl (λ (p : NotificationPlugin). p.notify e) engine.plugins w
          (plugins-All e engine.plugins tame.plugins)

-- A chain goes on with what its first part gave.
pub bind-reads :
    {A B : Type 0} (m : Exec A) (f : A → Exec B) (w : World) {r : Result A}
    → (m w).0 ≡ r
    → (m >>= f) w ≡ continue r f (m w).1
bind-reads m f w e = ap (λ r. continue r f (m w).1) e

-- A chain that succeeds: both parts did.
pub bind-ok :
    {A B : Type 0} (m : Exec A) (f : A → Exec B) (w : World) {b : B}
    → ((m >>= f) w).0 ≡ ok b
    → (a : A) × ((m w).0 ≡ ok a) × ((f a (m w).1).0 ≡ ok b)
bind-ok m f w h = elim (Result-cases (m w).0) [
  | inl (x, e) ↦ cc (ap (λ (y : Result _ × World). y.0) (bind-reads m f w e), h)
  | inr (a, e) ↦ (a, e, sym (ap (λ (y : Result _ × World). y.0) (bind-reads m f w e)) ∙ h)
]

pub bind-Keeps :
    {A B : Type 0} (m : Exec A) (f : A → Exec B)
    → Keeps m
    → ((a : A) → Keeps (f a))
    → Keeps (m >>= f)
bind-Keeps m f k l w = elim (Result-cases (m w).0) [
  | inl (x, e) ↦ ap (λ (y : Result _ × World). y.1.hitl) (bind-reads m f w e) ∙ k w
  | inr (a, e) ↦ ap (λ (y : Result _ × World). y.1.hitl) (bind-reads m f w e) ∙ l a (m w).1 ∙ k w
]
