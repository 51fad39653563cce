-- ===== src/Bootstrap/Recovery.antt =====
-- A failed initialisation is tried again: no state of the process keeps a later call from an engine.
use nodus_hitl_hub.Base.{
  Bool-cases, List, Option, Option-cases, [], ap, arith, false, inl, inr, nat_eq, none, refl, some,
  true, ℕ, ◌++◌, ◌∙◌, ◌∷◌, ◌≡◌, ◌≢◌,
}
use nodus_hitl_hub.Bootstrap.{
  Phase, Plugins, Process, Wake, assemble, bridge_ends, connecting, enter, enter_locked, gets_turn,
  has_engine, has_raised, idle, is_called, migrating, migrations_end, opening, pool_opens,
  publish_engine, queued, resume, resume_at, run_schedule, started,
}
use nodus_hitl_hub.Bootstrap.Single.{IsConsistent, is_holding, run_schedule-started}
use nodus_hitl_hub.Bridge.{NostrBridge}
use nodus_hitl_hub.Database.{Pool}
use nodus_hitl_hub.Engine.Defs.{HitlEngine}

nat_eq_refl : (i : ℕ) → nat_eq i i ≡ true
nat_eq_refl i = ground arith

-- The awaits of a call that all succeed.
abbrev pub good_run : ℕ → Pool → NostrBridge → List (ℕ × Wake)
good_run i pool bridge =
    (i, is_called)
    ∷ (i, gets_turn)
    ∷ (i, pool_opens pool)
    ∷ (i, migrations_end)
    ∷ (i, bridge_ends bridge)
    ∷ []

module _ (plugins : Plugins) (i : ℕ) where
  good_run-has_engine :
      (pool : Pool) (bridge : NostrBridge) (p : Process)
      → p.tasks i ≡ idle
      → p.lock ≡ none
      → (e : HitlEngine) × ((run_schedule plugins (good_run i pool bridge) p).tasks i
          ≡ has_engine e)
  unfolding run_schedule resume resume_at enter enter_locked publish_engine
  good_run-has_engine pool bridge p at_start free = elim (Option-cases p.engine) [
    | inr (e, there) ↦ (e, ground (arith, at_start, there, nat_eq_refl i))
    | inl no_engine ↦
        (assemble plugins bridge, ground (arith, at_start, free, no_engine, nat_eq_refl i))
  ]

-- The awaits that are left to the task inside the lock.
abbrev pub rest_of : ℕ → Phase → Pool → NostrBridge → List (ℕ × Wake)
rest_of j opening pool bridge =
    (j, pool_opens pool) ∷ (j, migrations_end) ∷ (j, bridge_ends bridge) ∷ []
rest_of j (migrating _) pool bridge = (j, migrations_end) ∷ (j, bridge_ends bridge) ∷ []
rest_of j (connecting _) pool bridge = (j, bridge_ends bridge) ∷ []
rest_of j _ pool bridge = []

abbrev pub rest_inside : Option ℕ → (ℕ → Phase) → Pool → NostrBridge → List (ℕ × Wake)
rest_inside none tasks pool bridge = []
rest_inside (some j) tasks pool bridge = rest_of j (tasks j) pool bridge

-- First the task inside the lock ends, then the call runs.
abbrev pub awaits_of : ℕ → Process → Pool → NostrBridge → List (ℕ × Wake)
awaits_of i p pool bridge = rest_inside p.lock p.tasks pool bridge ++ good_run i pool bridge

module _ (plugins : Plugins) (i j : ℕ) (pool : Pool) (bridge : NostrBridge) where
  rest_of-free :
      (phase : Phase) (p : Process)
      → nat_eq j i ≡ false
      → p.tasks j ≡ phase
      → is_holding phase ≡ true
      → p.tasks i ≡ idle
      → let q = run_schedule plugins (rest_of j phase pool bridge) p in
        (q.lock ≡ none) × (q.tasks i ≡ idle)
  unfolding run_schedule resume resume_at publish_engine
  rest_of-free opening p other at waiting h =
      (ground (arith, at, nat_eq_refl j), ground (arith, at, h, other, nat_eq_refl j))
  rest_of-free (migrating o) p other at waiting h =
      (ground (arith, at, nat_eq_refl j), ground (arith, at, h, other, nat_eq_refl j))
  rest_of-free (connecting o) p other at waiting h =
      (ground (arith, at), ground (arith, at, h, other))
  rest_of-free idle p other at waiting h = cc
  rest_of-free queued p other at waiting h = cc
  rest_of-free (has_engine e) p other at waiting h = cc
  rest_of-free (has_raised x) p other at waiting h = cc

run_schedule-append :
    (plugins : Plugins) (s t : List (ℕ × Wake)) (p : Process)
    → run_schedule plugins (s ++ t) p ≡ run_schedule plugins t (run_schedule plugins s p)
unfolding run_schedule
run_schedule-append plugins [] t p = refl
run_schedule-append plugins ((i, wake) ∷ s) t p =
    run_schedule-append plugins s t (resume plugins i wake p)

-- A task inside the lock is not one that has not started.
apart :
    (i j : ℕ) (p : Process) → is_holding (p.tasks j) ≡ true → p.tasks i ≡ idle → nat_eq j i ≡ false
apart i j p inside waiting = elim (Bool-cases (nat_eq j i)) [
  | inr other ↦ other
  | inl same ↦
      let me : j ≡ i = ground (arith, same) in
      let outside = ap (λ k. is_holding (p.tasks k)) me in ground (arith, inside, outside, waiting)
]

awaits_of-has_engine :
    (plugins : Plugins) (i : ℕ) (pool : Pool) (bridge : NostrBridge) (p : Process)
    → IsConsistent p
    → p.tasks i ≡ idle
    → (e : HitlEngine) × ((run_schedule plugins (awaits_of i p pool bridge) p).tasks i
        ≡ has_engine e)
awaits_of-has_engine plugins i pool bridge p c waiting = elim (Option-cases p.lock) [
  | inl free ↦
      let (e, got) = good_run-has_engine plugins i pool bridge p waiting free in
      (
        e,
        ap
              (λ l.
                (run_schedule plugins (rest_inside l p.tasks pool bridge ++ good_run i pool bridge)
                    p).tasks
                  i)
              free
            ∙ got,
      )
  | inr (j, locked) ↦
      let inside = (c.held j locked).0 in
      let other : nat_eq j i ≡ false = apart i j p inside waiting in
      let (free, still) =
        rest_of-free plugins i j pool bridge (p.tasks j) p other refl inside waiting in
      let q = run_schedule plugins (rest_of j (p.tasks j) pool bridge) p in
      let (e, got) = good_run-has_engine plugins i pool bridge q still free in
      (
        e,
        ap
              (λ l.
                (run_schedule plugins (rest_inside l p.tasks pool bridge ++ good_run i pool bridge)
                    p).tasks
                  i)
              locked
            ∙ ap (λ (x : Process). x.tasks i)
                (run_schedule-append plugins (rest_of j (p.tasks j) pool bridge)
                  (good_run i pool bridge) p)
            ∙ got,
      )
]

-- After any calls, failures and cancellations that leave no call waiting at the lock, which would come
-- before it, a call that has not started gets an engine once the awaits that are left to the task
-- inside the lock, and its own, succeed.
pub run_schedule-recovers :
    (plugins : Plugins) (schedule : List (ℕ × Wake)) (i : ℕ) (pool : Pool) (bridge : NostrBridge)
    → (run_schedule plugins schedule started).tasks i ≡ idle
    → ((j : ℕ) → (run_schedule plugins schedule started).tasks j ≢ queued)
    → (e : HitlEngine) × ((run_schedule plugins
            (schedule ++ awaits_of i (run_schedule plugins schedule started) pool bridge)
            started).tasks
          i
        ≡ has_engine e)
run_schedule-recovers plugins schedule i pool bridge waiting nobody_queued =
    let p = run_schedule plugins schedule started in
    let (e, got) =
      awaits_of-has_engine plugins i pool bridge p (run_schedule-started plugins schedule)
        waiting in
    (
      e,
      ap (λ (q : Process). q.tasks i)
            (run_schedule-append plugins schedule (awaits_of i p pool bridge) started)
          ∙ got,
    )
