-- ===== src/Engine/Steps.antt =====
-- Chains of steps of the engine.
use nodus_hitl_hub.Base.{inl, inr, subst, sym, ◌≡◌}
use nodus_hitl_hub.Engine.Defs.{HitlEngine}
use nodus_hitl_hub.Engine.Final.{Steps, leaves, stay, step}
use nodus_hitl_hub.Engine.Kept.{bind-reads}
use nodus_hitl_hub.Host.{Host}
use nodus_hitl_hub.World.{World}
use nodus_hitl_hub.World.Exec.{Exec, Result-cases, ok, pure, ◌>>=◌}

module _ (host : Host) (engine : HitlEngine) where
  pub Steps-append :
      {u v w : World} → Steps host engine u v → Steps host engine v w → Steps host engine u w
  Steps-append stay later = later
  Steps-append (step s rest) later = step s (Steps-append rest later)

  pub Steps-eq : {u v w : World} → Steps host engine u v → w ≡ v → Steps host engine u w
  Steps-eq {u = u} s e = subst (Steps host engine u) (sym e) s

  -- What leaves the requests alone is a step.
  pub leaving : {w v : World} → v.hitl ≡ w.hitl → Steps host engine w v
  leaving same = step (leaves same) stay

  -- A chain takes the steps of its parts.
  pub bind-Steps :
      {A B : Type 0} (m : Exec A) (f : A → Exec B) (w : World)
      → Steps host engine w (m w).1
      → ((a : A) → (m w).0 ≡ ok a → Steps host engine (m w).1 (f a (m w).1).1)
      → Steps host engine w ((m >>= f) w).1
  bind-Steps m f w first rest = elim (Result-cases (m w).0) [
    | inl (x, e) ↦ rw (bind-reads m f w e) first
    | inr (a, e) ↦ rw (bind-reads m f w e) (Steps-append first (rest a e))
  ]

  pub pure-Steps :
      {A B : Type 0} (m : Exec A) (g : A → B) (w : World)
      → Steps host engine w (m w).1
      → Steps host engine w ((m >>= λ a. pure (g a)) w).1
  pure-Steps m g w s = bind-Steps m (λ a. pure (g a)) w s (λ a e. stay)
