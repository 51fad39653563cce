-- ===== src/Database.antt =====
-- db/queries.py: the pool of the module and the migrations. asyncpg and the directory of the
-- migrations are parameters.
pub mod Order
pub mod Migrations
use nodus_hitl_hub.Base.{List, Option, String, none, select, some}
use nodus_hitl_hub.Database.Order.{ends_with, sorted_texts}
use nodus_hitl_hub.World.Exec.{
  Done, Exec, Result, err, for_each, lift, ok, pure, runtime_error, ◌>>=◌,
}

-- What the code calls of asyncpg: a pool of connections, and the statements on a connection.
pub record Pool : Type 0 where
  pub close : Exec Done
  pub execute : String → Exec Done

-- The module variable `_pool` afterwards, beside the result of a function that changes it.
abbrev pub WithPool : Type 0 → Type 0
WithPool A = Option Pool × Result A

-- `create_pool`: the variable changes only if there is a pool.
unfoldable pub create_pool : Exec Pool → Option Pool → Exec (WithPool Pool)
create_pool open_pool current w =
    let (r, w') = open_pool w in
    (ok (elim r [ ok pool ↦ (some pool, ok pool) | err e ↦ (current, err e) ]), w')

unfoldable pub get_pool : Option Pool → Result Pool
get_pool none = err runtime_error
get_pool (some pool) = ok pool

-- `close_pool`: a pool whose `close` raises stays in the variable.
unfoldable pub close_pool : Option Pool → Exec (WithPool Done)
close_pool none = pure (none, ok tt)
close_pool (some pool) = λ w.
    let (r, w') = pool.close w in
    (ok (elim r [ ok _ ↦ (none, ok tt) | err e ↦ (some pool, err e) ]), w')

-- A directory: the names in it, and the text of a file.
pub record Directory : Type 0 where
  pub names : List String
  pub read : String → Result String

-- `sorted(f for f in os.listdir(migrations_dir) if f.endswith(".sql"))`
unfoldable pub migration_files : Directory → List String
migration_files directory = sorted_texts (select (ends_with ".sql") directory.names)

-- One file: it is read, and its text is executed.
unfoldable pub apply_migration : Pool → Directory → String → Exec Done
apply_migration pool directory filename = do sql ← lift (directory.read filename); pool.execute sql

-- `run_migrations`: an exception ends the loop.
unfoldable pub run_migrations : Pool → Directory → Exec Done
run_migrations pool directory =
    for_each (apply_migration pool directory) (migration_files directory)
