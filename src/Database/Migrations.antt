-- ===== src/Database/Migrations.antt =====
-- The run of the migrations: which files, in which order, and where a failure stops it.
use nodus_hitl_hub.Base.{
  Bool, Bool-cases, List, String, [], arith, count_if, eq_iff, eq_refl, if◌then◌else◌, inl, inr,
  select, ◌==◌, ◌∙◌, ◌∷◌, ◌≡◌,
}
use nodus_hitl_hub.Database.{Directory, Pool, apply_migration, migration_files, run_migrations}
use nodus_hitl_hub.Database.Order.{
  IsAscending, ends_with, sorted_texts, sorted_texts-IsAscending, sorted_texts-count,
}
use nodus_hitl_hub.World.{World}
use nodus_hitl_hub.World.Exec.{Done, Error, Result, Result-cases, err, for_each, ok}

-- The run of a list of files: each is applied in the world that the one before left, up to the end
-- or to the first that raises, which ends the run.
pub data Ran (pool : Pool) (directory : Directory)
    : List String → World → Result Done × World → Type 0 where
  all_applied : {w : World} → Ran pool directory [] w (ok tt, w)
  one_applied :
      {f : String} {fs : List String} {w : World} {result : Result Done × World}
      → (apply_migration pool directory f w).0 ≡ ok tt
      → Ran pool directory fs (apply_migration pool directory f w).1 result
      → Ran pool directory (f ∷ fs) w result
  one_raised :
      {f : String} {fs : List String} {w : World} (x : Error)
      → (apply_migration pool directory f w).0 ≡ err x
      → Ran pool directory (f ∷ fs) w (err x, (apply_migration pool directory f w).1)

-- The files of a name among those that pass a test of the name.
count_if-select :
    (p : String → Bool) (name : String) (names : List String)
    → count_if (λ f. f == name) (select p names)
      ≡ (if p name then count_if (λ f. f == name) names else 0)
count_if-select p name [] = ground arith
count_if-select p name (n ∷ names) = elim (Bool-cases (n == name)) [
  | inl same ↦
      let here : n ≡ name = (eq_iff n name).0 same in
      rw here (ground (arith, count_if-select p name names, eq_refl name))
  | inr other ↦ ground (arith, count_if-select p name names, other)
]

module _ (pool : Pool) (directory : Directory) where
  for_each-Ran :
      (files : List String) (w : World)
      → Ran pool directory files w (for_each (apply_migration pool directory) files w)
  unfolding for_each
  for_each-Ran [] w = all_applied
  for_each-Ran (f ∷ fs) w = elim (Result-cases (apply_migration pool directory f w).0) [
    | inl (x, e) ↦ rw e (one_raised x e)
    | inr (u, e) ↦ rw e (one_applied e (for_each-Ran fs (apply_migration pool directory f w).1))
  ]

  -- The SQL files of the directory, each as often as it is there and nothing else, are applied in
  -- ascending order, up to the first that raises, whose exception is that of the run.
  pub run_migrations-Ran :
      (w : World)
      → (files : List String) × IsAscending files
        × ((name : String)
            → count_if (λ f. f == name) files
              ≡ (if ends_with ".sql" name then count_if (λ f. f == name) directory.names else 0))
        × Ran pool directory files w (run_migrations pool directory w)
  unfolding run_migrations migration_files
  run_migrations-Ran w =
      let files = sorted_texts (select (ends_with ".sql") directory.names) in
      (
        files,
        sorted_texts-IsAscending (select (ends_with ".sql") directory.names),
        λ name.
            sorted_texts-count (λ f. f == name) (select (ends_with ".sql") directory.names)
            ∙ count_if-select (ends_with ".sql") name directory.names,
        for_each-Ran files w,
      )
