-- ===== src/Witnesses/Migrate.antt =====
-- Two migrations on a database that keeps the texts it has run.
use spendlease.Base.{
  any, ◌==◌, List, [], ◌∷◌, Option, some, Bytes, codes, true, not, keep, refl, ◌≡◌,
}
use spendlease.Sqlite.Migrate.{Migration, Migrated, apply_one, apply_all, migrate}
use spendlease.Sqlite.Migrate.Outcome.{IsPrefixRun, migrate-IsPrefixRun, migrate-migrate}

abbrev run_text : Bytes → List Bytes → Option (List Bytes)
run_text text schema = some (text ∷ schema)

abbrev first_two : List Migration
first_two =
    record { version = 1; name = codes "1_init.sql"; sql = codes "init" }
    ∷ record { version = 2; name = codes "2_more.sql"; sql = codes "more" }
    ∷ []

abbrev initialised : Migrated (List Bytes)
initialised = record { schema = codes "init" ∷ []; versions = 1 ∷ [] }

abbrev migrated : Migrated (List Bytes)
migrated = record { schema = codes "more" ∷ codes "init" ∷ []; versions = 2 ∷ 1 ∷ [] }

second_runs : migrate run_text first_two initialised ≡ (migrated, true)
unfolding migrate apply_all apply_one
second_runs = refl

migrate-IsPrefixRun_example :
    IsPrefixRun run_text
      (keep (λ m. not (any (λ v. v == m.version) initialised.versions)) first_two)
      initialised
      (migrate run_text first_two initialised)
migrate-IsPrefixRun_example = migrate-IsPrefixRun run_text first_two initialised

migrate-migrate_example : migrate run_text first_two migrated ≡ (migrated, true)
migrate-migrate_example = migrate-migrate run_text first_two initialised migrated second_runs
