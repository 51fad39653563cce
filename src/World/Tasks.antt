-- ===== src/World/Tasks.antt =====
-- Coroutines that the event loop runs by turns. A task runs until it awaits something; the others may
-- run until the result is there. What is awaited takes effect at one time, when the task goes on.
use nodus_hitl_hub.Base.{List, [], inl, inr, refl, ◌∷◌, ◌≡◌}
use nodus_hitl_hub.Lifecycle.Isolation.{after_all}
use nodus_hitl_hub.Mcp.Agreement.{call}
use nodus_hitl_hub.World.{World}
use nodus_hitl_hub.World.Exec.{Done, Exec, Result, Result-cases, err, ok, ◌>>=◌}

pub data Task (A : Type 0) : Type 0 where
  ends : Result A → Task A
  awaits : (World → World) → (World → Task A) → Task A

-- `await m`, with what comes after either outcome
abbrev pub awaiting : {A B : Type 0} → Exec B → (Result B → Task A) → Task A
awaiting m k = awaits (λ w. (m w).1) (λ w. k (m w).0)

-- The task goes on after a result, and ends with an exception.
abbrev pub unless_raised : {A B : Type 0} → (B → Task A) → Result B → Task A
unless_raised k (ok b) = k b
unless_raised k (err x) = ends (err x)

-- `b = await m`
abbrev pub await_ok : {A B : Type 0} → Exec B → (B → Task A) → Task A
await_ok m k = awaiting m (unless_raised k)

-- `for x in xs: try: await call(x)`, and what comes after it
abbrev pub await_each : {A B : Type 0} → (B → Exec Done) → List B → Task A → Task A
await_each call [] rest = rest
await_each call (x ∷ xs) rest = awaiting (call x) (λ _. await_each call xs rest)

-- The task alone, with nothing between its awaits.
unfoldable pub run_task : {A : Type 0} → Task A → Exec A
run_task (ends r) w = (r, w)
run_task (awaits effect rest) w = run_task (rest w) (effect w)

-- One turn of a task.
abbrev pub resume_task : {A : Type 0} → Task A → World → Task A × World
resume_task (ends r) w = (ends r, w)
resume_task (awaits effect rest) w = (rest w, effect w)

module _ {A B : Type 0} where
  -- A task that awaits does what the chain does, if its rest does what the rest of the chain does.
  pub run_task-await_ok :
      (m : Exec B) (k : B → Task A) (f : B → Exec A)
      → ((b : B) (w : World) → run_task (k b) w ≡ f b w)
      → (w : World) → run_task (await_ok m k) w ≡ (m >>= f) w
  unfolding run_task
  run_task-await_ok m k f same w = elim (Result-cases (m w).0) [
    | inl (x, e) ↦ rw (run_task, e) refl
    | inr (b, e) ↦ rw (run_task, e) (same b (m w).1)
  ]

  pub run_task-await_each :
      (call : B → Exec Done) (xs : List B) (rest : Task A) (w : World)
      → run_task (await_each call xs rest) w ≡ run_task rest (after_all call xs w)
  unfolding run_task
  run_task-await_each call [] rest w = refl
  run_task-await_each call (x ∷ xs) rest w = run_task-await_each call xs rest (call x w).1
