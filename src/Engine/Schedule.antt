-- ===== src/Engine/Schedule.antt =====
-- Calls of the engine that interleave at their awaits, with the expiry task and the clock.
use nodus_hitl_hub.Base.{List, [], if◌then◌else◌, nat_eq, ℕ, ◌∷◌}
use nodus_hitl_hub.Engine.Defs.{HitlEngine}
use nodus_hitl_hub.Engine.Tasks.{Call, task_of}
use nodus_hitl_hub.Host.{Host}
use nodus_hitl_hub.Models.Hitl.{HitlResponse}
use nodus_hitl_hub.Repository.{expire_stale}
use nodus_hitl_hub.World.{World}
use nodus_hitl_hub.World.Tasks.{Task, resume_task}

-- The world, and the tasks by their numbers.
pub record Hub : Type 0 where
  pub world : World
  pub tasks : ℕ → Task HitlResponse

-- What goes on: a task, the expiry, or the clock.
pub data Turn : Type 0 where
  resumes : ℕ → Turn
  expires_rows : Turn
  ticks_to : ℕ → Turn

abbrev pub set_task : ℕ → Task HitlResponse → (ℕ → Task HitlResponse) → ℕ → Task HitlResponse
set_task i task tasks j = if nat_eq i j then task else tasks j

abbrev pub set_turn : ℕ → Task HitlResponse × World → Hub → Hub
set_turn i (task, w) hub = record { world = w; tasks = set_task i task hub.tasks }

abbrev pub take_turn : Turn → Hub → Hub
take_turn (resumes i) hub = set_turn i (resume_task (hub.tasks i) hub.world) hub
take_turn expires_rows hub = record hub { world = (expire_stale hub.world).1 }
take_turn (ticks_to time) hub = record hub { world = record hub.world { now = time } }

unfoldable pub run_turns : List Turn → Hub → Hub
run_turns [] hub = hub
run_turns (t ∷ turns) hub = run_turns turns (take_turn t hub)

-- No call has started yet.
unfoldable pub calls_at : Host → HitlEngine → (ℕ → Call) → World → Hub
unfolding task_of
calls_at host engine calls w = record { world = w; tasks = λ i. task_of host engine (calls i) }
