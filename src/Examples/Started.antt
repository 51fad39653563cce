-- ===== src/Examples/Started.antt =====
-- The start of the process, its background tasks and the migrations.
use nodus_hitl_hub.Base.{
  Bool-cases, List, String, [], arith, count_if, if◌then◌else◌, inl, inr, nat_eq, none, refl, some,
  true, ℕ, ◌++◌, ◌+◌, ◌==◌, ◌∷◌, ◌≡◌, ◌≢◌,
}
use nodus_hitl_hub.Bootstrap.{
  Plugins, Wake, assemble, enter, enter_locked, gets_turn, has_engine, is_called, is_interrupted,
  pool_opens, queued, resume_at, run_schedule, started,
}
use nodus_hitl_hub.Bootstrap.Recovery.{awaits_of, run_schedule-recovers}
use nodus_hitl_hub.Bootstrap.Single.{IsConsistent, run_schedule-started}
use nodus_hitl_hub.Bootstrap.Wiring.{hub_plugins, hub_plugins-leave}
use nodus_hitl_hub.Bridge.{NostrBridge}
use nodus_hitl_hub.Bridge.Session.{new_bridge}
use nodus_hitl_hub.Database.{Directory, Pool, migration_files, run_migrations}
use nodus_hitl_hub.Database.Migrations.{Ran, run_migrations-Ran}
use nodus_hitl_hub.Database.Order.{IsAscending, ends_with}
use nodus_hitl_hub.Engine.Defs.{HitlEngine}
use nodus_hitl_hub.Engine.Final.{IsQuiet, Steps}
use nodus_hitl_hub.Engine.Listener.{
  Ending, Signal, crashes, delivers, is_cancelled, listen_loop, listen_loop-Steps,
}
use nodus_hitl_hub.Examples.Data.{empty_hub, mail_engine, mail_hub, mail_row, strict_host}
use nodus_hitl_hub.Examples.Resolved.{owner_says_yes, published_hub}
use nodus_hitl_hub.Hooks.Deadline.{IsClosed, IsNap, expire_loop-IsClosed}
use nodus_hitl_hub.Hooks.Expiry.{expire_loop, wakes}
use nodus_hitl_hub.Json.{Value}
use nodus_hitl_hub.Notify.Keeping.{AdaptersLeave}
use nodus_hitl_hub.Repository.Rows.{row_of_event}
use nodus_hitl_hub.World.{World, audit_line, cache_delete, http_post}
use nodus_hitl_hub.World.Exec.{Done, Exec, err, external, ok, pure, raise, send}

abbrev a_pool : Pool
a_pool = record { close = pure tt; execute = λ sql. send (audit_line sql) }

abbrev pub offline : NostrBridge
offline = new_bridge none none "" ""

abbrev pub send_delete : String → Exec Done
send_delete key = send (cache_delete key)

abbrev pub send_post : String → Value → Exec Done
send_post url body = send (http_post url [] body)

abbrev pub hub : Plugins
hub =
    hub_plugins strict_host (some send_delete) send_post "http://m"
      (λ url headers body. raise external) (λ key. none)

-- The first call fails in the migrations while the second waits for the lock.
abbrev two_calls : List (ℕ × Wake)
two_calls =
    (1, is_called)
    ∷ (1, gets_turn)
    ∷ (2, is_called)
    ∷ (2, gets_turn)
    ∷ (1, pool_opens a_pool)
    ∷ (1, is_interrupted external)
    ∷ (2, gets_turn)
    ∷ []

run_schedule-started_example : IsConsistent (run_schedule hub two_calls started)
run_schedule-started_example = run_schedule-started hub two_calls

-- The second call is inside now, and there is no engine yet.
second_inside :
    ((run_schedule hub two_calls started).lock ≡ some 2)
    × ((run_schedule hub two_calls started).engine ≡ none)
unfolding run_schedule resume_at enter enter_locked
second_inside = (refl, refl)

-- A call that is inside the lock, and nobody waits.
abbrev one_call : List (ℕ × Wake)
one_call = (1, is_called) ∷ (1, gets_turn) ∷ []

nobody_queued : (j : ℕ) → (run_schedule hub one_call started).tasks j ≢ queued
unfolding run_schedule resume_at enter enter_locked
nobody_queued j = elim (Bool-cases (nat_eq 1 j)) [
  | inl here ↦ rw here (λ q. cc)
  | inr other ↦ rw other (λ q. cc)
]

run_schedule-recovers_example :
    (e : HitlEngine) × ((run_schedule hub
          (one_call ++ awaits_of 3 (run_schedule hub one_call started) a_pool offline)
          started).tasks
        3
      ≡ has_engine e)
unfolding run_schedule resume_at enter enter_locked
run_schedule-recovers_example =
    run_schedule-recovers hub one_call 3 a_pool offline refl nobody_queued

hub_plugins-leave_example :
    IsQuiet (assemble hub offline) × AdaptersLeave (λ w. w.hitl) hub.adapters
unfolding new_bridge
hub_plugins-leave_example =
    hub_plugins-leave strict_host (some send_delete) send_post "http://m"
      (λ url headers body. raise external) (λ key. none) offline (λ key w. refl)
      (λ url body w. refl) (λ url headers body w. refl) tt

-- A file that is no SQL, and one that cannot be read.
abbrev migrations : Directory
migrations = record {
  names = "002_extend.sql" ∷ "README.md" ∷ "001_create.sql" ∷ [];
  read = λ name. if name == "001_create.sql" then ok "CREATE" else err external;
}

run_migrations-Ran_example :
    (files : List String) × IsAscending files
    × ((name : String)
        → count_if (λ f. f == name) files
          ≡ (if ends_with ".sql" name then count_if (λ f. f == name) migrations.names else 0))
    × Ran a_pool migrations files empty_hub (run_migrations a_pool migrations empty_hub)
run_migrations-Ran_example = run_migrations-Ran a_pool migrations empty_hub

migrations_sorted : migration_files migrations ≡ "001_create.sql" ∷ "002_extend.sql" ∷ []
unfolding migration_files ends_with
migrations_sorted = refl

-- A minute of sleep, in which nothing happens.
abbrev minute : World → World
minute w = record w { now = w.now + 60000000 }

minute-IsNap : IsNap 60000000 "hitl_1" 2000000 minute
minute-IsNap = record { lasts = λ w. omega arith; due = λ w due. due; closed = λ w closed. closed }

expire_loop-IsClosed_example : IsClosed "hitl_1" (expire_loop true (wakes minute ∷ []) mail_hub).1
unfolding row_of_event
expire_loop-IsClosed_example =
    expire_loop-IsClosed 60000000 "hitl_1" 2000000 (wakes minute ∷ []) mail_hub (minute-IsNap, tt)
      (mail_row, refl, refl) (omega arith) (omega arith)

abbrev signals : List Signal
signals = delivers owner_says_yes ∷ crashes ∷ delivers owner_says_yes ∷ is_cancelled ∷ []

listen_loop-Steps_example :
    Ending strict_host mail_engine signals
      (listen_loop strict_host mail_engine signals published_hub).0
    × Steps strict_host mail_engine published_hub
        (listen_loop strict_host mail_engine signals published_hub).1
listen_loop-Steps_example =
    listen_loop-Steps strict_host mail_engine signals published_hub (tt, (tt, (tt, (tt, tt))))
