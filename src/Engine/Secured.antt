-- ===== src/Engine/Secured.antt =====
-- What each task promises, relying on the others, and why a schedule keeps all promises.
use nodus_hitl_hub.Base.{
  All, Bool-cases, List, [], arith, inl, inr, nat_eq, refl, subst, ℕ, ◌∷◌, ◌≡◌,
}
use nodus_hitl_hub.Engine.Kept.{Keeps}
use nodus_hitl_hub.Engine.Schedule.{
  Hub, Turn, expires_rows, resumes, run_turns, set_turn, take_turn, ticks_to,
}
use nodus_hitl_hub.Mcp.Agreement.{call}
use nodus_hitl_hub.Models.Hitl.{HitlResponse}
use nodus_hitl_hub.Repository.Keys.{IsKeyed}
use nodus_hitl_hub.Repository.Later.{Later, Later-trans, expire_stale-Later, same-Later}
use nodus_hitl_hub.World.{World}
use nodus_hitl_hub.World.Exec.{Done, Exec, Result-cases, err, ok}
use nodus_hitl_hub.World.Tasks.{Task, await_each, await_ok, awaits, ends, resume_task}

-- A promise on the answer of a task, which holds from then on.
abbrev pub Promise : Type 1
Promise = HitlResponse → World → Type 0

abbrev pub Lasts : Promise → Type 0
Lasts promise =
    (answer : HitlResponse) (w v : World) → promise answer w → Later w v → promise answer v

-- A task that keeps its promise whatever the others do, as long as they leave the requests as they may
-- be later: it does so as well, and what it answers is as promised.
abbrev pub Secured : Promise → World → Task HitlResponse → Type 0
Secured promise w (ends (ok answer)) = promise answer w
Secured promise w (ends (err x)) = Unit
Secured promise w (awaits effect rest) =
    (v : World)
    → Later w v
    → IsKeyed v.hitl
    → Later v (effect v) × Secured promise (effect v) (rest v)

pub Secured-Later :
    (promise : Promise)
    → Lasts promise
    → (task : Task HitlResponse) (w v : World) → Secured promise w task
    → Later w v
    → Secured promise v task
Secured-Later promise lasts (ends (ok answer)) w v s later = lasts answer w v s later
Secured-Later promise lasts (ends (err x)) w v s later = tt
Secured-Later promise lasts (awaits effect rest) w v s later =
    λ u after keyed. s u (Later-trans w v u later after) keyed

-- Every task of a hub keeps its promise.
abbrev pub AllSecured : (ℕ → Promise) → Hub → Type 0
AllSecured promises hub = (i : ℕ) → Secured (promises i) hub.world (hub.tasks i)

module _ (promises : ℕ → Promise) (lasting : (i : ℕ) → Lasts (promises i)) where
  -- The other tasks stand as they did, in a later world.
  set_turn-AllSecured :
      (i : ℕ) (task : Task HitlResponse) (w : World) (hub : Hub)
      → Later hub.world w
      → Secured (promises i) w task
      → AllSecured promises hub
      → AllSecured promises (set_turn i (task, w) hub)
  set_turn-AllSecured i task w hub later mine others j = elim (Bool-cases (nat_eq i j)) [
    | inl me ↦
        let same : i ≡ j = ground (arith, me) in
        rw me (subst (λ k. Secured (promises k) w task) same mine)
    | inr other ↦
        rw other (Secured-Later (promises j) (lasting j) (hub.tasks j) hub.world w (others j) later)
  ]

  resumed-Secured :
      (i : ℕ) (task : Task HitlResponse) (w : World)
      → IsKeyed w.hitl
      → Secured (promises i) w task
      → Later w (resume_task task w).1
        × Secured (promises i) (resume_task task w).1 (resume_task task w).0
  resumed-Secured i (ends (ok answer)) w keyed s = (same-Later w w refl, s)
  resumed-Secured i (ends (err x)) w keyed s = (same-Later w w refl, tt)
  resumed-Secured i (awaits effect rest) w keyed s = s w (same-Later w w refl) keyed

  take_turn-AllSecured :
      (t : Turn) (hub : Hub)
      → IsKeyed hub.world.hitl
      → AllSecured promises hub
      → Later hub.world (take_turn t hub).world × AllSecured promises (take_turn t hub)
  take_turn-AllSecured (resumes i) hub keyed all =
      let (later, mine) = resumed-Secured i (hub.tasks i) hub.world keyed (all i) in
      (later, set_turn-AllSecured i _ _ hub later mine all)
  take_turn-AllSecured expires_rows hub keyed all =
      let later = expire_stale-Later hub.world in
      (later, λ i. Secured-Later (promises i) (lasting i) (hub.tasks i) hub.world _ (all i) later)
  take_turn-AllSecured (ticks_to time) hub keyed all =
      let later = same-Later hub.world (record hub.world { now = time }) refl in
      (later, λ i. Secured-Later (promises i) (lasting i) (hub.tasks i) hub.world _ (all i) later)

  -- Whatever the order of the turns, the promises are kept in the end.
  pub run_turns-AllSecured :
      (turns : List Turn) (hub : Hub)
      → IsKeyed hub.world.hitl
      → AllSecured promises hub
      → Later hub.world (run_turns turns hub).world × AllSecured promises (run_turns turns hub)
  unfolding run_turns
  run_turns-AllSecured [] hub keyed all = (same-Later hub.world hub.world refl, all)
  run_turns-AllSecured (t ∷ turns) hub keyed all =
      let (first, then_all) = take_turn-AllSecured t hub keyed all in
      let (rest, in_the_end) =
        run_turns-AllSecured turns (take_turn t hub) (first.keyed keyed) then_all in
      (Later-trans hub.world (take_turn t hub).world _ first rest, in_the_end)

module _ (promise : Promise) (lasts : Lasts promise) where
  -- A task that awaits is secured by what the await does and by the rest after each result.
  pub await_ok-Secured :
      {B : Type 0} (m : Exec B) (k : B → Task HitlResponse) (w : World)
      → ((v : World) → Later w v → IsKeyed v.hitl → Later v (m v).1)
      → ((v : World) (b : B)
          → Later w v
          → IsKeyed v.hitl
          → (m v).0 ≡ ok b
          → Secured promise (m v).1 (k b))
      → Secured promise w (await_ok m k)
  await_ok-Secured m k w does then_rest = λ v later keyed. elim (Result-cases (m v).0) [
    | inl (x, e) ↦ (does v later keyed, rw e tt)
    | inr (b, e) ↦ (does v later keyed, rw e (then_rest v b later keyed e))
  ]

  pub await_each-Secured :
      {B : Type 0} (call : B → Exec Done) (xs : List B) (rest : Task HitlResponse) (w : World)
      → All (λ x. Keeps (call x)) xs
      → Secured promise w rest
      → Secured promise w (await_each call xs rest)
  await_each-Secured call [] rest w keep s = s
  await_each-Secured call (x ∷ xs) rest w keep s = λ v later keyed.
      let gone = same-Later v (call x v).1 (keep.0 v) in
      (
        gone,
        await_each-Secured call xs rest (call x v).1 keep.1
            (Secured-Later promise lasts rest w _ s (Later-trans w v _ later gone)),
      )
