-- ===== src/Bootstrap.antt =====
-- bootstrap.py: one engine for the process, built by the first call of `get_engine` under a lock. The
-- event loop runs one task at a time; between two awaits a task is not interrupted. So the pieces
-- between the awaits are the steps, and a schedule says which task goes on, and with which outcome of
-- the await it stands at.
pub mod Single
pub mod Recovery
pub mod Wiring
use nodus_hitl_hub.Base.{
  Bool, List, Option, [], false, if◌then◌else◌, nat_eq, none, some, true, ℕ, ◌∷◌,
}
use nodus_hitl_hub.Bridge.{NostrBridge}
use nodus_hitl_hub.Bridge.Session.{start_resolution_listener}
use nodus_hitl_hub.Database.{Pool}
use nodus_hitl_hub.Engine.Defs.{HitlEngine}
use nodus_hitl_hub.Lifecycle.Defs.{Hook, NotificationPlugin}
use nodus_hitl_hub.Notify.Channels.{ChannelAdapter}
use nodus_hitl_hub.Validators.Defs.{Validator}
use nodus_hitl_hub.World.Exec.{Error, Result, err, ok, runtime_error}

-- Where a call of `get_engine` stands: before its start, at the lock, at `create_pool`, at
-- `run_migrations`, at `bridge.start`, or at its end.
pub data Phase : Type 0 where
  idle : Phase
  queued : Phase
  opening : Phase
  migrating : Pool → Phase
  connecting : Pool → Phase
  has_engine : HitlEngine → Phase
  has_raised : Error → Phase

-- The variables of the module, with the task that holds the lock; the tasks by their numbers; and
-- every engine that was built and every pool that was opened, newest first.
pub record Process : Type 0 where
  pub engine : Option HitlEngine
  pub notify_engine : Option (List ChannelAdapter)
  pub pool : Option Pool
  pub lock : Option ℕ
  pub tasks : ℕ → Phase
  pub built : List HitlEngine
  pub opened : List Pool

abbrev pub put_task : ℕ → Phase → (ℕ → Phase) → ℕ → Phase
put_task i phase tasks j = if nat_eq i j then phase else tasks j

abbrev pub put : ℕ → Phase → Process → Process
put i phase p = record p { tasks = put_task i phase p.tasks }

-- The end of `async with _lock`, at a return or a raise.
abbrev pub release : ℕ → Phase → Process → Process
release i phase p = record (put i phase p) { lock = none }

-- What the plugins of the process are, from the discovery.
pub record Plugins : Type 0 where
  pub validators : List Validator
  pub hooks : List Hook
  pub notifiers : List NotificationPlugin
  pub adapters : List ChannelAdapter

-- What lets a task go on: the start of its call, its turn at the lock, the outcome of the await, or an
-- exception out of it, a cancellation included. A bridge that failed to start comes as it is then.
pub data Wake : Type 0 where
  is_called : Wake
  gets_turn : Wake
  pool_opens : Pool → Wake
  migrations_end : Wake
  bridge_ends : NostrBridge → Wake
  is_interrupted : Error → Wake

-- `if _engine is not None: return _engine`, before the lock.
unfoldable pub enter : ℕ → Option HitlEngine → Process → Process
enter i (some e) p = put i (has_engine e) p
enter i none p = put i queued p

-- The lock is taken when it is free, and the engine is looked for once more. Any task that asks may
-- take it, in more orders than asyncio.Lock allows, which lets the first that waits go first.
unfoldable pub enter_locked : ℕ → Option ℕ → Option HitlEngine → Process → Process
enter_locked i (some j) engine p = p
enter_locked i none (some e) p = put i (has_engine e) p
enter_locked i none none p = record (put i opening p) { lock = some i }

-- From the plugins to `_notify_engine`.
unfoldable pub assemble : Plugins → NostrBridge → HitlEngine
unfolding start_resolution_listener
assemble plugins bridge = record {
  validators = plugins.validators;
  hooks = plugins.hooks;
  plugins = plugins.notifiers;
  bridge = some (start_resolution_listener bridge);
}

unfoldable pub publish_engine : Plugins → ℕ → HitlEngine → Process → Process
publish_engine plugins i e p = record (release i (has_engine e) p) {
  engine = some e;
  notify_engine = some plugins.adapters;
  built = e ∷ p.built;
}

module _ (plugins : Plugins) where
  -- A task that stands at one point goes on; a wake that does not fit there is none.
  unfoldable pub resume_at : ℕ → Wake → Phase → Process → Process
  unfolding enter enter_locked assemble publish_engine
  resume_at i is_called idle p = enter i p.engine p
  resume_at i gets_turn queued p = enter_locked i p.lock p.engine p
  resume_at i (pool_opens pool) opening p = record (put i (migrating pool) p) {
    pool = some pool;
    opened = pool ∷ p.opened;
  }
  resume_at i migrations_end (migrating pool) p = put i (connecting pool) p
  resume_at i (bridge_ends bridge) (connecting pool) p =
      publish_engine plugins i (assemble plugins bridge) p
  resume_at i (is_interrupted x) queued p = put i (has_raised x) p
  resume_at i (is_interrupted x) opening p = release i (has_raised x) p
  resume_at i (is_interrupted x) (migrating pool) p = release i (has_raised x) p
  resume_at i (is_interrupted x) (connecting pool) p = release i (has_raised x) p
  resume_at i wake phase p = p

  unfoldable pub resume : ℕ → Wake → Process → Process
  unfolding resume_at
  resume i wake p = resume_at i wake (p.tasks i) p

  unfoldable pub run_schedule : List (ℕ × Wake) → Process → Process
  unfolding resume
  run_schedule [] p = p
  run_schedule ((i, wake) ∷ schedule) p = run_schedule schedule (resume i wake p)

-- The process at its start.
abbrev pub started : Process
started = record {
  engine = none;
  notify_engine = none;
  pool = none;
  lock = none;
  tasks = λ i. idle;
  built = [];
  opened = [];
}

-- `get_notify_engine`, once its call of `get_engine` has returned.
unfoldable pub notify_answer : Process → Result (List ChannelAdapter)
notify_answer p = elim p.notify_engine [ some n ↦ ok n | none ↦ err runtime_error ]

-- `is_initialized`
unfoldable pub is_initialized : Process → Bool
is_initialized p = elim p.engine [ none ↦ false | some e ↦ true ]
