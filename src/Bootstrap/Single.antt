-- ===== src/Bootstrap/Single.antt =====
-- One engine for the process, however the calls interleave.
use nodus_hitl_hub.Base.{
  Bool, Bool-cases, List, Option, [], ap, arith, false, inl, inr, nat_eq, none, refl, some, true, ℕ,
  ◌∙◌, ◌∷◌, ◌≡◌,
}
use nodus_hitl_hub.Bootstrap.{
  Phase, Plugins, Process, Wake, assemble, bridge_ends, connecting, enter, enter_locked, gets_turn,
  has_engine, has_raised, idle, is_called, is_interrupted, migrating, migrations_end, opening,
  pool_opens, publish_engine, put, queued, release, resume, resume_at, run_schedule, started,
}
use nodus_hitl_hub.Database.{Pool}
use nodus_hitl_hub.Engine.Defs.{HitlEngine}
use nodus_hitl_hub.Notify.Channels.{ChannelAdapter}
use nodus_hitl_hub.World.Exec.{Error}

-- A task is between the two ends of the lock.
abbrev pub is_holding : Phase → Bool
is_holding opening = true
is_holding (migrating pool) = true
is_holding (connecting pool) = true
is_holding _ = false

-- Before an engine is built, and after.
pub data IsSingle (p : Process) : Type 0 where
  unbuilt : p.engine ≡ none → p.notify_engine ≡ none → p.built ≡ [] → IsSingle p
  built_once :
      (e : HitlEngine) (n : List ChannelAdapter)
      → p.engine ≡ some e
      → p.notify_engine ≡ some n
      → p.built ≡ e ∷ []
      → IsSingle p

pub record IsConsistent (p : Process) : Type 0 where
  -- The lock is held exactly by the task that is inside, and nobody is inside once there is an engine.
  pub holder : (i : ℕ) → is_holding (p.tasks i) ≡ true → p.lock ≡ some i
  pub held : (i : ℕ) → p.lock ≡ some i → (is_holding (p.tasks i) ≡ true) × (p.engine ≡ none)
  -- At most one engine was ever built, it is the engine of the process, and the notification engine
  -- is there with it.
  pub single : IsSingle p
  -- Whoever got an engine got that one.
  pub answers : (i : ℕ) (e : HitlEngine) → p.tasks i ≡ has_engine e → p.engine ≡ some e

-- A task outside the lock that stays outside.
put-IsConsistent :
    (i : ℕ) (phase : Phase) (p : Process)
    → is_holding (p.tasks i) ≡ false
    → is_holding phase ≡ false
    → ((e : HitlEngine) → phase ≡ has_engine e → p.engine ≡ some e)
    → IsConsistent p
    → IsConsistent (put i phase p)
put-IsConsistent i phase p outside stays given c = record {
  holder = λ j h. elim (Bool-cases (nat_eq i j)) [
    | inl same ↦ ground (arith, same, h, stays)
    | inr other ↦ c.holder j (ground (arith, other, h))
  ];
  held = λ j l. elim (Bool-cases (nat_eq i j)) [
    | inl same ↦
        let me : j ≡ i = ground (arith, same) in
        let inside = (c.held i (l ∙ ap some me)).0 in ground (arith, inside, outside)
    | inr other ↦ rw other (c.held j l)
  ];
  single = elim c.single [
    | unbuilt e n b ↦ unbuilt e n b
    | built_once e n q r b ↦ built_once e n q r b
  ];
  answers = λ j e q. elim (Bool-cases (nat_eq i j)) [
    | inl same ↦ given e (ground (arith, same, q))
    | inr other ↦ c.answers j e (ground (arith, other, q))
  ];
}

-- The lock is taken by a task that was outside, while there is no engine.
take-IsConsistent :
    (i : ℕ) (p : Process)
    → p.lock ≡ none
    → p.engine ≡ none
    → IsConsistent p
    → IsConsistent (record (put i opening p) { lock = some i })
take-IsConsistent i p free no_engine c = record {
  holder = λ j h. elim (Bool-cases (nat_eq i j)) [
    | inl same ↦ ground (arith, same)
    | inr other ↦ let locked = c.holder j (ground (arith, other, h)) in ground (arith, locked, free)
  ];
  held = λ j l. (ground (arith, l), no_engine);
  single = elim c.single [
    | unbuilt e n b ↦ unbuilt e n b
    | built_once e n q r b ↦ built_once e n q r b
  ];
  answers = λ j e q. elim (Bool-cases (nat_eq i j)) [
    | inl same ↦ ground (arith, same, q)
    | inr other ↦ c.answers j e (ground (arith, other, q))
  ];
}

-- A task inside the lock goes on inside, whatever happens to the pools.
move-IsConsistent :
    (i : ℕ) (phase : Phase) (p : Process) (pool : Option Pool) (opened : List Pool)
    → is_holding (p.tasks i) ≡ true
    → is_holding phase ≡ true
    → IsConsistent p
    → IsConsistent (record (put i phase p) { pool = pool; opened = opened })
move-IsConsistent i phase p pool opened inside stays c = record {
  holder = λ j h. elim (Bool-cases (nat_eq i j)) [
    | inl same ↦
        let mine = c.holder i inside in let me : i ≡ j = ground (arith, same) in mine ∙ ap some me
    | inr other ↦ c.holder j (ground (arith, other, h))
  ];
  held = λ j l. elim (Bool-cases (nat_eq i j)) [
    | inl same ↦ rw same (stays, (c.held j l).1)
    | inr other ↦ rw other (c.held j l)
  ];
  single = elim c.single [
    | unbuilt e n b ↦ unbuilt e n b
    | built_once e n q r b ↦ built_once e n q r b
  ];
  answers = λ j e q. elim (Bool-cases (nat_eq i j)) [
    | inl same ↦ ground (arith, same, q, stays)
    | inr other ↦ c.answers j e (ground (arith, other, q))
  ];
}

-- A task inside the lock is the only one there.
alone :
    (i j : ℕ) (p : Process)
    → IsConsistent p
    → is_holding (p.tasks i) ≡ true
    → is_holding (p.tasks j) ≡ true
    → i ≡ j
alone i j p c inside inside' =
    let mine = c.holder i inside in let yours = c.holder j inside' in ground (arith, mine, yours)

-- A task leaves the lock with an exception.
release-IsConsistent :
    (i : ℕ) (x : Error) (p : Process)
    → is_holding (p.tasks i) ≡ true
    → IsConsistent p
    → IsConsistent (release i (has_raised x) p)
release-IsConsistent i x p inside c = record {
  holder = λ j h. elim (Bool-cases (nat_eq i j)) [
    | inl same ↦ ground (arith, same, h)
    | inr other ↦
        let me = alone i j p c inside (ground (arith, other, h)) in ground (arith, other, me)
  ];
  held = λ j l. ground (arith, l);
  single = elim c.single [
    | unbuilt e n b ↦ unbuilt e n b
    | built_once e n q r b ↦ built_once e n q r b
  ];
  answers = λ j e q. elim (Bool-cases (nat_eq i j)) [
    | inl same ↦ ground (arith, same, q)
    | inr other ↦ c.answers j e (ground (arith, other, q))
  ];
}

-- A task leaves the lock with the engine that it built, the first.
publish_engine-IsConsistent :
    (plugins : Plugins) (i : ℕ) (e : HitlEngine) (p : Process)
    → is_holding (p.tasks i) ≡ true
    → IsConsistent p
    → IsConsistent (publish_engine plugins i e p)
unfolding publish_engine
publish_engine-IsConsistent plugins i e p inside c =
    let no_engine = (c.held i (c.holder i inside)).1 in
    record {
      holder = λ j h. elim (Bool-cases (nat_eq i j)) [
        | inl same ↦ ground (arith, same, h)
        | inr other ↦
            let me = alone i j p c inside (ground (arith, other, h)) in ground (arith, other, me)
      ];
      held = λ j l. ground (arith, l);
      single = elim c.single [
        | unbuilt none_yet n b ↦ built_once e plugins.adapters refl refl (ap (λ l. e ∷ l) b)
        | built_once f n q r b ↦ ground (arith, q, no_engine)
      ];
      answers = λ j f q. elim (Bool-cases (nat_eq i j)) [
        | inl same ↦ ground (arith, same, q)
        | inr other ↦
            let early = c.answers j f (ground (arith, other, q)) in ground (arith, early, no_engine)
      ];
    }

enter-IsConsistent :
    (i : ℕ) (engine : Option HitlEngine) (p : Process)
    → p.engine ≡ engine
    → p.tasks i ≡ idle
    → IsConsistent p
    → IsConsistent (enter i engine p)
unfolding enter
enter-IsConsistent i none p e at_start c =
    put-IsConsistent i queued p (rw at_start refl) refl (λ f q. cc) c
enter-IsConsistent i (some engine) p e at_start c =
    put-IsConsistent i (has_engine engine) p (rw at_start refl) refl (λ f q. ground (arith, q, e)) c

enter_locked-IsConsistent :
    (i : ℕ) (lock : Option ℕ) (engine : Option HitlEngine) (p : Process)
    → p.lock ≡ lock
    → p.engine ≡ engine
    → p.tasks i ≡ queued
    → IsConsistent p
    → IsConsistent (enter_locked i lock engine p)
unfolding enter_locked
enter_locked-IsConsistent i (some j) engine p l e waits c = c
enter_locked-IsConsistent i none none p l e waits c = take-IsConsistent i p l e c
enter_locked-IsConsistent i none (some engine) p l e waits c =
    put-IsConsistent i (has_engine engine) p (rw waits refl) refl (λ f q. ground (arith, q, e)) c

module _ (plugins : Plugins) where
  resume_at-IsConsistent :
      (i : ℕ) (wake : Wake) (phase : Phase) (p : Process)
      → p.tasks i ≡ phase
      → IsConsistent p
      → IsConsistent (resume_at plugins i wake phase p)
  unfolding resume_at
  resume_at-IsConsistent i is_called idle p e c = enter-IsConsistent i p.engine p refl e c
  resume_at-IsConsistent i gets_turn queued p e c =
      enter_locked-IsConsistent i p.lock p.engine p refl refl e c
  resume_at-IsConsistent i (pool_opens pool) opening p e c =
      move-IsConsistent i (migrating pool) p (some pool) (pool ∷ p.opened) (rw e refl) refl c
  resume_at-IsConsistent i migrations_end (migrating pool) p e c =
      move-IsConsistent i (connecting pool) p p.pool p.opened (rw e refl) refl c
  resume_at-IsConsistent i (bridge_ends bridge) (connecting pool) p e c =
      publish_engine-IsConsistent plugins i (assemble plugins bridge) p (rw e refl) c
  resume_at-IsConsistent i (is_interrupted x) queued p e c =
      put-IsConsistent i (has_raised x) p (rw e refl) refl (λ f q. cc) c
  resume_at-IsConsistent i (is_interrupted x) opening p e c =
      release-IsConsistent i x p (rw e refl) c
  resume_at-IsConsistent i (is_interrupted x) (migrating pool) p e c =
      release-IsConsistent i x p (rw e refl) c
  resume_at-IsConsistent i (is_interrupted x) (connecting pool) p e c =
      release-IsConsistent i x p (rw e refl) c
  resume_at-IsConsistent i wake phase p e c = c

  run_schedule-IsConsistent :
      (schedule : List (ℕ × Wake)) (p : Process)
      → IsConsistent p
      → IsConsistent (run_schedule plugins schedule p)
  unfolding run_schedule resume
  run_schedule-IsConsistent [] p c = c
  run_schedule-IsConsistent ((i, wake) ∷ schedule) p c =
      run_schedule-IsConsistent schedule (resume plugins i wake p)
        (resume_at-IsConsistent i wake (p.tasks i) p refl c)

started-IsConsistent : IsConsistent started
started-IsConsistent = record {
  holder = λ i h. cc;
  held = λ i l. ground (arith, l);
  single = unbuilt refl refl refl;
  answers = λ i e q. cc;
}

-- However the calls of `get_engine` interleave, fail and are cancelled: at most one engine is built,
-- every call that returns has it, the notification engine is there with it, and the lock is held
-- exactly by the call that is inside, which nobody is once there is an engine.
pub run_schedule-started :
    (plugins : Plugins) (schedule : List (ℕ × Wake))
    → IsConsistent (run_schedule plugins schedule started)
run_schedule-started plugins schedule =
    run_schedule-IsConsistent plugins schedule started started-IsConsistent
