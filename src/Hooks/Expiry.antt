-- ===== src/Hooks/Expiry.antt =====
-- plugins/hooks/expiry.py: the background task, `start`, `stop` and `_expire_loop`.
use nodus_hitl_hub.Base.{Bool, List, [], false, if◌then◌else◌, true, ℕ, ◌∷◌}
use nodus_hitl_hub.Repository.{expire_stale}
use nodus_hitl_hub.World.{World}
use nodus_hitl_hub.World.Exec.{Done, Exec, attempt, modify, pure, ◌>>◌}

-- `ExpiryHook`, by whether it has a repository and whether its task is there. The interval is in
-- seconds.
pub record ExpiryHook : Type 0 where
  pub has_repository : Bool
  pub interval_seconds : ℕ
  pub running : Bool

unfoldable pub new_expiry_hook : Bool → ℕ → ExpiryHook
new_expiry_hook has_repository interval_seconds = record {
  has_repository = has_repository;
  interval_seconds = interval_seconds;
  running = false;
}

-- `start`, with the number of tasks that it creates
unfoldable pub start_expiry : ExpiryHook → ExpiryHook × ℕ
start_expiry hook = if hook.running then (hook, 0) else (record hook { running = true }, 1)

-- `stop`, with the number of tasks that it cancels
unfoldable pub stop_expiry : ExpiryHook → ExpiryHook × ℕ
stop_expiry hook = if hook.running then (record hook { running = false }, 1) else (hook, 0)

-- How a sleep of the loop ends: in time, the other tasks having run, or by the cancellation.
pub data Nap : Type 0 where
  wakes : (World → World) → Nap
  is_stopped : Nap

-- `if self._repository: await self._repository.expire_stale()`, with the `except` around it
unfoldable pub expire_round : Bool → Exec Done
expire_round has_repository = if has_repository then attempt (expire_stale >> pure tt) else pure tt

-- `_expire_loop`, one round for each sleep
unfoldable pub expire_loop : Bool → List Nap → Exec Done
expire_loop has_repository [] = pure tt
expire_loop has_repository (wakes others ∷ naps) = do
  modify others
  expire_round has_repository
  expire_loop has_repository naps
expire_loop has_repository (is_stopped ∷ naps) = pure tt
